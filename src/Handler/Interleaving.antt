-- ===== src/Handler/Interleaving.antt =====
-- Handlers of one type of resource that run side by side. Each reads a resource, changes it and writes
-- it back, between the lock and the unlock of the mutex that has the resource's name: `azureRMLockByName`,
-- `client.Get`, `client.CreateOrUpdate`, and the deferred `azureRMUnlockByName`.
use terraform_provider_azure.Base.{
  ℕ, ◌≡◌, Bool, true, false, Option, none, some, List, [], ◌∷◌, ◌++◌, ◌==◌, ◌&&◌, if◌then◌else◌,
  Str, str_eq,
}
use terraform_provider_azure.Locks.Handlers.{Key, key_of}

-- What a handler does to a resource; `none` where it returns an error before the write.
pub record Change (X : Type 0) : Type 0 where
  pub group : Str
  pub name : Str
  pub change : X → Option X

-- Where a handler is. The last two say whether it has had its effect: the service took its write, or there is
-- nothing that it writes.
pub data Phase (X : Type 0) : Type 0 where
  waiting : Phase X
  locked : Phase X
  fetched : X → Phase X
  finished : Bool → Phase X
  returned : Bool → Phase X

abbrev pub Resources : Type 0 → Type 0
Resources X = Str → Str → Option X

abbrev pub put_at : {X : Type 0} → Str → Str → X → Resources X → Resources X
put_at g n x c h m = if str_eq g h && str_eq n m then some x else c h m

-- The handlers by their number, the holders of the mutexes, and the cloud; `log` has the handlers that had their
-- effect, in the order in which they had it.
pub record System (X : Type 0) : Type 0 where
  pub phase : ℕ → Phase X
  pub owner : Key → Option ℕ
  pub cloud : Resources X
  pub log : List ℕ

abbrev pub set_phase : {X : Type 0} → ℕ → Phase X → (ℕ → Phase X) → ℕ → Phase X
set_phase i p f j = if i == j then p else f j

abbrev pub set_owner : Key → Option ℕ → (Key → Option ℕ) → Key → Option ℕ
set_owner k o f j = if str_eq k j then o else f j

module _ {X : Type 0} (kind : Str) (ops : ℕ → Change X) where
  -- The mutex of a handler: by the name of the resource alone.
  unfoldable pub key : ℕ → Key
  key i = key_of (ops i).name kind

  pub data Step (s : System X) : System X → Type 0 where
    acquires :
        (i : ℕ)
        → s.phase i ≡ waiting
        → s.owner (key i) ≡ none
        → Step s (record s {
          phase = set_phase i locked s.phase;
          owner = set_owner (key i) (some i) s.owner;
        })
    reads :
        (i : ℕ) (x : X)
        → s.phase i ≡ locked
        → s.cloud (ops i).group (ops i).name ≡ some x
        → Step s (record s { phase = set_phase i (fetched x) s.phase })
    misses :
        (i : ℕ)
        → s.phase i ≡ locked
        → s.cloud (ops i).group (ops i).name ≡ none
        → Step s (record s { phase = set_phase i (finished true) s.phase; log = s.log ++ i ∷ [] })
    -- The service takes the write. Whether its call, or the wait for it, then returns an error makes no
    -- difference to what the handler does next: it unlocks.
    writes :
        (i : ℕ) (x y : X)
        → s.phase i ≡ fetched x
        → (ops i).change x ≡ some y
        → Step s (record s {
          phase = set_phase i (finished true) s.phase;
          cloud = put_at (ops i).group (ops i).name y s.cloud;
          log = s.log ++ i ∷ [];
        })
    refuses :
        (i : ℕ) (x : X)
        → s.phase i ≡ fetched x
        → (ops i).change x ≡ none
        → Step s (record s { phase = set_phase i (finished true) s.phase; log = s.log ++ i ∷ [] })
    read_fails :
        (i : ℕ)
        → s.phase i ≡ locked
        → Step s (record s { phase = set_phase i (finished false) s.phase })
    -- The call returns an error, and the service has not taken the write.
    write_fails :
        (i : ℕ) (x : X)
        → s.phase i ≡ fetched x
        → Step s (record s { phase = set_phase i (finished false) s.phase })
    releases :
        (i : ℕ) (done : Bool)
        → s.phase i ≡ finished done
        → Step s (record s {
          phase = set_phase i (returned done) s.phase;
          owner = set_owner (key i) none s.owner;
        })

  abbrev pub started : Resources X → System X
  started c = record { phase = λ i. waiting; owner = λ k. none; cloud = c; log = [] }

  pub data Reach (c : Resources X) : System X → Type 0 where
    at_start : Reach c (started c)
    then_step : (s u : System X) → Reach c s → Step s u → Reach c u

-- A handler that runs alone, as one step.
unfoldable pub apply : {X : Type 0} → Change X → Resources X → Resources X
apply op c = elim (c op.group op.name) [
  | none ↦ c
  | some x ↦ elim (op.change x) [ none ↦ c | some y ↦ put_at op.group op.name y c ]
]

-- Handlers one after the other.
unfoldable pub run_all : {X : Type 0} → (ℕ → Change X) → List ℕ → Resources X → Resources X
unfolding apply
run_all ops [] c = c
run_all ops (i ∷ is) c = run_all ops is (apply (ops i) c)
