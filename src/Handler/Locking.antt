-- ===== src/Handler/Locking.antt =====
-- Which mutexes a handler locks and unlocks and where it writes, whatever its calls return, by the actions
-- that it is made of.
use terraform_provider_azure.Base.{
  arith, ℕ, suc, ◌≡◌, refl, ◌⊎◌, inl, inr, List, [], ◌∷◌, ◌++◌, take, ap, sym, ◌∙◌, append-nil,
  append_assoc, Str,
}
use terraform_provider_azure.Locks.Handlers.{
  Key, key_of, keys_of, Op, acquire, release, work, program,
}
use terraform_provider_azure.Handler.{
  save, Api, Event, lock, unlock, written, removed, Env, Action, with_lock_by_name,
}

-- A handler's events as steps of the lock model: a write to the cloud is the work.
unfoldable pub ops_of : {X : Type 0} → List (Event X) → List Op
ops_of [] = []
ops_of (lock k ∷ vs) = acquire k ∷ ops_of vs
ops_of (unlock k ∷ vs) = release k ∷ ops_of vs
ops_of (written g n x ∷ vs) = work ∷ ops_of vs
ops_of (removed g n ∷ vs) = work ∷ ops_of vs

-- The operations on mutexes of a program, without its work.
unfoldable pub mutex_ops : List Op → List Op
mutex_ops [] = []
mutex_ops (acquire k ∷ os) = acquire k ∷ mutex_ops os
mutex_ops (release k ∷ os) = release k ∷ mutex_ops os
mutex_ops (work ∷ os) = mutex_ops os

pub ops_of-append :
    {X : Type 0} (vs ws : List (Event X)) → ops_of (vs ++ ws) ≡ ops_of vs ++ ops_of ws
unfolding ops_of
ops_of-append [] ws = refl
ops_of-append (lock k ∷ vs) ws = ap (λ os. acquire k ∷ os) (ops_of-append vs ws)
ops_of-append (unlock k ∷ vs) ws = ap (λ os. release k ∷ os) (ops_of-append vs ws)
ops_of-append (written g n x ∷ vs) ws = ap (λ os. work ∷ os) (ops_of-append vs ws)
ops_of-append (removed g n ∷ vs) ws = ap (λ os. work ∷ os) (ops_of-append vs ws)

mutex_ops-append : (os ps : List Op) → mutex_ops (os ++ ps) ≡ mutex_ops os ++ mutex_ops ps
unfolding mutex_ops
mutex_ops-append [] ps = refl
mutex_ops-append (acquire k ∷ os) ps = ap (λ x. acquire k ∷ x) (mutex_ops-append os ps)
mutex_ops-append (release k ∷ os) ps = ap (λ x. release k ∷ x) (mutex_ops-append os ps)
mutex_ops-append (work ∷ os) ps = mutex_ops-append os ps

module _ {X D E : Type 0} {api : Api X} where
  -- The action adds these steps.
  abbrev pub AddsTo : {A : Type 0} → Action api D E A → Env api D → List Op → Type 0
  AddsTo m e os = ops_of (m e).1.events ≡ ops_of e.events ++ os

  -- The action runs the program of these groups, its one write between their locks and their unlocks; or
  -- it locks the first of them only, unlocks those, and writes nothing.
  abbrev pub LocksBy : {A : Type 0} → Action api D E A → Env api D → List (List Key) → Type 0
  LocksBy m e gs =
      AddsTo m e (program gs) ⊎ ((n : ℕ) × AddsTo m e (mutex_ops (program (take n gs))))

  pub work-LocksBy :
      {A : Type 0} (m : Action api D E A) (e : Env api D) → AddsTo m e (work ∷ []) → LocksBy m e []
  unfolding program
  work-LocksBy m e h = inl h

  pub quiet-LocksBy :
      {A : Type 0} (m : Action api D E A) (e : Env api D) (gs : List (List Key))
      → (m e).1.events ≡ e.events
      → LocksBy m e gs
  unfolding mutex_ops program
  quiet-LocksBy m e gs h = inr (0, ap (λ vs. ops_of vs) h ∙ sym (append-nil (ops_of e.events)))

  AddsTo-same :
      {A : Type 0} (m k : Action api D E A) (e e' : Env api D) (os ps : List Op)
      → AddsTo k e' os
      → m e ≡ k e'
      → e'.events ≡ e.events
      → os ≡ ps
      → AddsTo m e ps
  AddsTo-same m k e e' os ps adds same before steps =
      ap (λ r. ops_of r.1.events) same
      ∙ adds
      ∙ ap (λ vs. ops_of vs ++ os) before
      ∙ ap (λ xs. ops_of e.events ++ xs) steps

  pub LocksBy-same :
      {A : Type 0} (m k : Action api D E A) (e e' : Env api D) (gs hs : List (List Key))
      → LocksBy k e' gs
      → m e ≡ k e'
      → e'.events ≡ e.events
      → gs ≡ hs
      → LocksBy m e hs
  LocksBy-same m k e e' gs hs (inl adds) same before groups =
      inl (AddsTo-same m k e e' _ _ adds same before (ap (λ xs. program xs) groups))
  LocksBy-same m k e e' gs hs (inr (n, adds)) same before groups = inr (
    n,
    AddsTo-same m k e e' _ _ adds same before (ap (λ xs. mutex_ops (program (take n xs))) groups),
  )

  with_lock-AddsTo :
      {A : Type 0} (name kind : Str) (body : Action api D E A) (e : Env api D) (os : List Op)
      → AddsTo body (record e { events = e.events ++ lock (key_of name kind) ∷ [] }) os
      → AddsTo
          (with_lock_by_name name kind body)
          e
          (acquire (key_of name kind) ∷ (os ++ release (key_of name kind) ∷ []))
  unfolding ops_of
  with_lock-AddsTo name kind body e os h =
      let e' = record e { events = e.events ++ lock (key_of name kind) ∷ [] } in
      ops_of-append (body e').1.events (unlock (key_of name kind) ∷ [])
      ∙ ap (λ x. x ++ release (key_of name kind) ∷ [])
          (h ∙ ap (λ x. x ++ os) (ops_of-append e.events (lock (key_of name kind) ∷ [])))
      ∙ simp (append_assoc)

  pub with_lock-LocksBy :
      {A : Type 0} (name kind : Str) (body : Action api D E A) (e : Env api D)
      (gs : List (List Key))
      → ((e' : Env api D) → LocksBy body e' gs)
      → LocksBy (with_lock_by_name name kind body) e (keys_of (name ∷ []) kind ∷ gs)
  unfolding mutex_ops program keys_of
  with_lock-LocksBy name kind body e gs h =
      let e' = record e { events = e.events ++ lock (key_of name kind) ∷ [] } in
      elim (h e') [
        | inl adds ↦ inl (with_lock-AddsTo name kind body e (program gs) adds)
        | inr (n, adds) ↦ inr (
          suc n,
          with_lock-AddsTo name kind body e (mutex_ops (program (take n gs))) adds
              ∙ ap (λ x. ops_of e.events ++ acquire (key_of name kind) ∷ x)
                  (sym (mutex_ops-append (program (take n gs)) (release (key_of name kind) ∷ []))),
        )
      ]

  pub save-AddsTo :
      (g n : Str) (x : X) (bad incomplete : E) (e : Env api D)
      → AddsTo (save {api = api} g n x bad incomplete) e (work ∷ [])
  unfolding save ops_of
  save-AddsTo g n x bad incomplete e = ground (arith, ops_of-append e.events (written g n x ∷ []))
