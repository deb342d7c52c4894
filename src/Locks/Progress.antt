-- ===== src/Locks/Progress.antt =====
-- Handlers whose locks rise in one order never wait for each other for good.
use terraform_provider_azure.Base.{
  ℕ, zero, suc, ◌+◌, ◌≤◌, ◌<◌, ◌≡◌, refl, ◌⊎◌, inl, inr, true, List, [], ◌∷◌, ◌++◌, arith, ap,
  length, Bool-cases, All, All-middle, All-put,
}
use mathlib.Core.Path.{subst}
use terraform_provider_azure.Locks.Handlers.{
  Key, Op, acquire, release, work, Handler, handler_program, lock_groups,
}
use terraform_provider_azure.Locks.System.{
  Thread, holds, without_key, System, is_taken, Step, acquires, releases, works, started, Reach,
  at_start, then_step, IsDone,
}
use terraform_provider_azure.Locks.Order.{
  IsOrdered, AreRising, below_of_holds, program-IsOrdered, take-AreRising,
}

-- The steps that the handlers have still to take.
unfoldable pub ops_left : System → ℕ
ops_left [] = 0
ops_left (t ∷ ts) = length t.todo + ops_left ts

ops_left-middle :
    (xs ys : System) (t : Thread) → ops_left (xs ++ t ∷ ys) ≡ length t.todo + ops_left (xs ++ ys)
unfolding ops_left
ops_left-middle [] ys t = refl
ops_left-middle (x ∷ xs) ys t = omega (arith, ops_left-middle xs ys t)

ops_left_next :
    (s before after : System) (t u : Thread) (op : Op)
    → s ≡ before ++ t ∷ after
    → t.todo ≡ op ∷ u.todo
    → ops_left (before ++ u ∷ after) < ops_left s
ops_left_next s before after t u op at_ next = omega (
  arith,
  ap ops_left at_,
  ops_left-middle before after t,
  ops_left-middle before after u,
  ap length next,
)

pub Step-decreases : (s t : System) → Step s t → ops_left t < ops_left s
Step-decreases s _ (acquires before after t k rest at_ next free) =
    ops_left_next s before after t (record { held = k ∷ t.held; todo = rest }) (acquire k) at_ next
Step-decreases s _ (releases before after t k rest at_ next) =
    ops_left_next s before after t (record { held = without_key k t.held; todo = rest }) (release k)
      at_ next
Step-decreases s _ (works before after t rest at_ next) =
    ops_left_next s before after t (record { held = t.held; todo = rest }) work at_ next

-- A thread that holds a key that is taken.
taken_by :
    (k : Key) (s : System)
    → is_taken k s ≡ true
    → (before : System) × (t : Thread) × (after : System) × (s ≡ before ++ t ∷ after)
      × (holds k t.held ≡ true)
unfolding is_taken
taken_by k [] h = cc
taken_by k (t ∷ ts) h = elim (Bool-cases (holds k t.held)) [
  | inl here ↦ ([], t, ts, refl, here)
  | inr not_here ↦
      let (before, u, after, at_, held) = taken_by k ts (ground arith) in
      (t ∷ before, u, after, ap (λ r. t ∷ r) at_, held)
]

-- A thread that has not returned.
undone :
    (s : System)
    → IsDone s
      ⊎ ((before : System) × (t : Thread) × (after : System) × (op : Op) × (ops : List Op) × (s
            ≡ before ++ t ∷ after)
          × (t.todo ≡ op ∷ ops))
undone [] = inl tt
undone (t ∷ ts) = undone_at t ts t.todo refl (undone ts)
  where
    undone_at :
        (t : Thread) (ts : System) (todo : List Op)
        → t.todo ≡ todo
        → IsDone ts
          ⊎ ((before : System) × (t : Thread) × (after : System) × (op : Op) × (ops : List Op) × (ts
                ≡ before ++ t ∷ after)
              × (t.todo ≡ op ∷ ops))
        → IsDone (t ∷ ts)
          ⊎ ((before : System) × (u : Thread) × (after : System) × (op : Op) × (ops : List Op) × (t
                  ∷ ts
                ≡ before ++ u ∷ after)
              × (u.todo ≡ op ∷ ops))
    undone_at t ts (op ∷ ops) e rest = inr ([], t, ts, op, ops, refl, e)
    undone_at t ts [] e (inl done) = inl (e, done)
    undone_at t ts [] e (inr (before, u, after, op, ops, at_, next)) =
        inr (t ∷ before, u, after, op, ops, ap (λ r. t ∷ r) at_, next)

module _ (rank : Key → ℕ) (top : ℕ) where
  abbrev pub AllOrdered : System → Type 0
  AllOrdered = All (λ t. IsOrdered rank top t.held t.todo)

  IsOrdered-at :
      (s before after : System) (t : Thread) (ops : List Op)
      → s ≡ before ++ t ∷ after
      → t.todo ≡ ops
      → AllOrdered s
      → IsOrdered rank top t.held ops × AllOrdered (before ++ after)
  IsOrdered-at s before after t ops at_ next h =
      let (own, others) =
        All-middle (λ u. IsOrdered rank top u.held u.todo) before after t
          (subst AllOrdered at_ h) in
      (subst (IsOrdered rank top t.held) next own, others)

  step-AllOrdered : (s u : System) → AllOrdered s → Step s u → AllOrdered u
  step-AllOrdered s _ h (acquires before after t k rest at_ next free) =
      let (own, others) = IsOrdered-at s before after t _ at_ next h in
      All-put (λ u. IsOrdered rank top u.held u.todo) before after _ own.2 others
  step-AllOrdered s _ h (releases before after t k rest at_ next) =
      let (own, others) = IsOrdered-at s before after t _ at_ next h in
      All-put (λ u. IsOrdered rank top u.held u.todo) before after _ own.1 others
  step-AllOrdered s _ h (works before after t rest at_ next) =
      let (own, others) = IsOrdered-at s before after t _ at_ next h in
      All-put (λ u. IsOrdered rank top u.held u.todo) before after _ own others

  -- The next operation of a thread: it is a step, or a lock that is taken.
  turn :
      (s before after : System) (t : Thread) (op : Op) (ops : List Op)
      → s ≡ before ++ t ∷ after
      → t.todo ≡ op ∷ ops
      → IsOrdered rank top t.held (op ∷ ops)
      → ((u : System) × Step s u)
        ⊎ ((j : Key) × All (λ i. rank i < rank j) t.held × (rank j < top) × (is_taken j s ≡ true))
  turn s before after t work ops at_ next o = inl (_, works before after t ops at_ next)
  turn s before after t (release k) ops at_ next o = inl (_, releases before after t k ops at_ next)
  turn s before after t (acquire k) ops at_ next o = elim (Bool-cases (is_taken k s)) [
    | inl taken ↦ inr (k, o.0, o.1, taken)
    | inr free ↦ inl (_, acquires before after t k ops at_ next free)
  ]

  -- A thread that holds something has something to do.
  busy :
      (held : List Key) (todo : List Op) (k : Key)
      → holds k held ≡ true
      → IsOrdered rank top held todo
      → (op : Op) × (ops : List Op) × (todo ≡ op ∷ ops)
  unfolding holds
  busy held [] k h o = absurd (ground (arith, ap (holds k) o))
  busy held (op ∷ ops) k h o = (op, ops, refl)

  -- The thread that holds a key has a step, or waits for a key of a higher rank.
  holder_step :
      (s : System) (k : Key)
      → AllOrdered s
      → is_taken k s ≡ true
      → ((u : System) × Step s u)
        ⊎ ((j : Key) × (rank k < rank j) × (rank j < top) × (is_taken j s ≡ true))
  holder_step s k h taken =
      let (before, t, after, at_, held) = taken_by k s taken in
      let own = (IsOrdered-at s before after t t.todo at_ refl h).0 in
      let (op, ops, next) = busy t.held t.todo k held own in
      elim (turn s before after t op ops at_ next (subst (IsOrdered rank top t.held) next own)) [
        | inl moves ↦ inl moves
        | inr (j, above, small, waits) ↦
            inr (j, below_of_holds rank top t.held j k above held, small, waits)
      ]

  -- Where a key is taken, some thread has a step; `n` bounds the ranks above the key's.
  taken_step :
      (n : ℕ) (s : System) (k : Key)
      → top ≤ rank k + n
      → AllOrdered s
      → is_taken k s ≡ true
      → (u : System) × Step s u
  taken_step zero s k enough h taken = elim (holder_step s k h taken) [
    | inl moves ↦ moves
    | inr (j, above, small, waits) ↦ absurd (omega (arith, above, small))
  ]
  taken_step (suc n) s k enough h taken = elim (holder_step s k h taken) [
    | inl moves ↦ moves
    | inr (j, above, small, waits) ↦ taken_step n s j (omega (arith, above)) h waits
  ]

  ordered-progress : (s : System) → AllOrdered s → IsDone s ⊎ ((u : System) × Step s u)
  ordered-progress s h = elim (undone s) [
    | inl done ↦ inl done
    | inr (before, t, after, op, ops, at_, next) ↦
        elim (turn s before after t op ops at_ next
          (IsOrdered-at s before after t _ at_ next h).0) [
            | inl moves ↦ inr moves
            | inr (j, above, small, waits) ↦ inr (taken_step top s j (omega arith) h waits)
          ]
  ]

  -- The locks of each handler rise.
  abbrev pub AllRising : List (Handler × ℕ) → Type 0
  AllRising = All (λ h. AreRising rank top [] (lock_groups h.0))

  started-AllOrdered : (hs : List (Handler × ℕ)) → AllRising hs → AllOrdered (started hs)
  unfolding started handler_program
  started-AllOrdered [] r = tt
  started-AllOrdered ((h, n) ∷ hs) r = (
    program-IsOrdered rank top _ (take-AreRising rank top n [] (lock_groups h) r.0),
    started-AllOrdered hs r.1,
  )

  Reach-AllOrdered :
      (hs : List (Handler × ℕ)) (s : System) → AllRising hs → Reach hs s → AllOrdered s
  Reach-AllOrdered hs s r at_start = started-AllOrdered hs r
  Reach-AllOrdered hs s r (then_step t u before step) =
      step-AllOrdered t u (Reach-AllOrdered hs t r before) step

  -- Handlers whose locks rise in one order of the keys never deadlock: in every state that they reach, they
  -- have all returned or one of them has a step, and every step leaves fewer operations. This holds
  -- wherever a handler returns early.
  pub rising-progress :
      (hs : List (Handler × ℕ)) (s : System)
      → AllRising hs
      → Reach hs s
      → (IsDone s ⊎ ((u : System) × Step s u)) × ((u : System) → Step s u → ops_left u < ops_left s)
  rising-progress hs s r reached =
      (ordered-progress s (Reach-AllOrdered hs s r reached), Step-decreases s)
