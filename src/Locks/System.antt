-- ===== src/Locks/System.antt =====
-- Handlers that run side by side over the store of mutexes. `Lock` waits until nobody holds the mutex,
-- the handler that calls it included.
use terraform_provider_azure.Base.{
  ℕ, ◌≡◌, Bool, false, ◌||◌, List, [], ◌∷◌, ◌++◌, if◌then◌else◌, str_eq,
}
use terraform_provider_azure.Locks.Handlers.{
  Key, Op, acquire, release, work, Handler, handler_program,
}

-- A handler that runs: the mutexes that it holds, and what it has still to do.
pub record Thread : Type 0 where
  pub held : List Key
  pub todo : List Op

unfoldable pub holds : Key → List Key → Bool
holds k [] = false
holds k (j ∷ js) = str_eq j k || holds k js

unfoldable pub without_key : Key → List Key → List Key
without_key k [] = []
without_key k (j ∷ js) = if str_eq j k then js else j ∷ without_key k js

abbrev pub System : Type 0
System = List Thread

unfoldable pub is_taken : Key → System → Bool
unfolding holds
is_taken k [] = false
is_taken k (t ∷ ts) = holds k t.held || is_taken k ts

-- A step of one thread.
pub data Step (s : System) : System → Type 0 where
  acquires :
      (before after : System) (t : Thread) (k : Key) (rest : List Op)
      → s ≡ before ++ t ∷ after
      → t.todo ≡ acquire k ∷ rest
      → is_taken k s ≡ false
      → Step s (before ++ record { held = k ∷ t.held; todo = rest } ∷ after)
  releases :
      (before after : System) (t : Thread) (k : Key) (rest : List Op)
      → s ≡ before ++ t ∷ after
      → t.todo ≡ release k ∷ rest
      → Step s (before ++ record { held = without_key k t.held; todo = rest } ∷ after)
  works :
      (before after : System) (t : Thread) (rest : List Op)
      → s ≡ before ++ t ∷ after
      → t.todo ≡ work ∷ rest
      → Step s (before ++ record { held = t.held; todo = rest } ∷ after)

-- Each handler, with the number of its groups of locks after which it returns.
unfoldable pub started : List (Handler × ℕ) → System
started [] = []
started ((h, n) ∷ hs) = record { held = []; todo = handler_program h n } ∷ started hs

pub data Reach (hs : List (Handler × ℕ)) : System → Type 0 where
  at_start : Reach hs (started hs)
  then_step : (s t : System) → Reach hs s → Step s t → Reach hs t

-- Every handler has returned.
abbrev pub IsDone : System → Type 0
IsDone [] = Unit
IsDone (t ∷ ts) = (t.todo ≡ []) × IsDone ts
