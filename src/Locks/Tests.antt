-- ===== src/Locks/Tests.antt =====
-- Two handlers on the same virtual network.
use terraform_provider_azure.Base.{ℕ, ◌≤◌, ◌<◌, ◌≡◌, ◌⊎◌, true, none, List, [], ◌∷◌, ◌++◌, bytes}
use terraform_provider_azure.Locks.Handlers.{
  Key, Op, release, Handler, subnet_delete, nsg_association_create,
}
use terraform_provider_azure.Locks.System.{
  Thread, holds, System, Step, started, Reach, at_start, IsDone,
}
use terraform_provider_azure.Locks.Progress.{ops_left}
use terraform_provider_azure.Locks.Aligned.{aligned-progress}
use terraform_provider_azure.Locks.Deadlock.{creating_and_deleting, subnets-deadlock}
use terraform_provider_azure.Locks.Exclusion.{holders, handlers-exclusive}

abbrev two_handlers : List (Handler × ℕ)
two_handlers =
    (nsg_association_create (bytes "g") (bytes "v"), 2)
    ∷ (subnet_delete (bytes "s") (bytes "v") none none, 2)
    ∷ []

aligned-progress_example :
    (IsDone (started two_handlers) ⊎ ((u : System) × Step (started two_handlers) u))
    × ((u : System) → Step (started two_handlers) u → ops_left u < ops_left (started two_handlers))
aligned-progress_example =
    aligned-progress two_handlers (started two_handlers) (tt, (tt, tt)) at_start

subnets-deadlock_example :
    (s : System) × Reach (creating_and_deleting (bytes "v") (bytes "g") (bytes "s")) s
    × (IsDone s → ⊥)
    × ((u : System) → Step s u → ⊥)
subnets-deadlock_example = subnets-deadlock (bytes "v") (bytes "g") (bytes "s")

handlers-exclusive_example :
    ((k : Key) → holders k (started two_handlers) ≤ 1)
    × ((before after : System) (t : Thread) (k : Key) (rest : List Op)
        → started two_handlers ≡ before ++ t ∷ after
        → t.todo ≡ release k ∷ rest
        → holds k t.held ≡ true)
handlers-exclusive_example = handlers-exclusive two_handlers (started two_handlers) at_start
