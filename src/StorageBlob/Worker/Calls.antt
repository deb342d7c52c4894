-- ===== src/StorageBlob/Worker/Calls.antt =====
-- The calls that the workers of an upload make to the service, in the order in which they make them.
use terraform_provider_azure.Base.{◌≡◌, true, false, List, [], ◌∷◌, ◌++◌}
use terraform_provider_azure.StorageBlob.Worker.{
  Transfer, Pool, initial, Step, start, start_fails, attempt, attempt_fails, give_up, finish, Reach,
  at_start, then_step,
}

module _ (transfer : Transfer) where
  -- What a sequence of calls of `send` makes of the service, and the items that it took.
  pub data Calls (before : transfer.Cloud) : List transfer.Item → transfer.Cloud → Type 0 where
    no_call : Calls before [] before
    taken :
        (items : List transfer.Item) (p : transfer.Item) (c c' : transfer.Cloud)
        → Calls before items c
        → transfer.send p c ≡ (true, c')
        → Calls before (items ++ p ∷ []) c'
    refused :
        (items : List transfer.Item) (p : transfer.Item) (c c' : transfer.Cloud)
        → Calls before items c
        → transfer.send p c ≡ (false, c')
        → Calls before items c'

  Step-Calls :
      (cloud : transfer.Cloud) (s t : Pool transfer)
      → Calls cloud s.accepted s.cloud
      → Step transfer s t
      → Calls cloud t.accepted t.cloud
  Step-Calls cloud s _ h (start p queue failing room next read) = h
  Step-Calls cloud s _ h (start_fails p queue room next read) = h
  Step-Calls cloud s _ h (attempt before after job left c' at_ some_left sent) =
      taken s.accepted job.item s.cloud c' h sent
  Step-Calls cloud s _ h (attempt_fails before after job left c' at_ some_left sent) =
      refused s.accepted job.item s.cloud c' h sent
  Step-Calls cloud s _ h (give_up before after job at_ none_left failing) = h
  Step-Calls cloud s _ h (finish before after job at_ none_left failing) = h

  pub Reach-Calls :
      (parts : List transfer.Item) (cloud : transfer.Cloud) (s : Pool transfer)
      → Reach transfer parts cloud s
      → Calls cloud s.accepted s.cloud
  unfolding initial
  Reach-Calls parts cloud _ at_start = no_call
  Reach-Calls parts cloud s (then_step t u before step) =
      Step-Calls cloud t u (Reach-Calls parts cloud t before) step
