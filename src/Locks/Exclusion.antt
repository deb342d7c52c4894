-- ===== src/Locks/Exclusion.antt =====
-- A mutex has one holder at most, and is unlocked by its holder only.
use terraform_provider_azure.Base.{
  ℕ, ◌+◌, ◌≤◌, ◌≡◌, refl, true, false, List, [], ◌∷◌, ◌++◌, arith, ap, ◌∙◌, sym, if◌then◌else◌,
  str_eq, str_eq_iff, str_eq_self, All, All-middle, All-put, append-nil, take,
}
use mathlib.Core.Path.{subst}
use terraform_provider_azure.Locks.Handlers.{
  Key, Op, acquire, release, work, program, Handler, handler_program, lock_groups,
}
use terraform_provider_azure.Locks.Paired.{
  times_held, owed, IsPaired, program-owed, program-IsPaired,
}
use terraform_provider_azure.Locks.System.{
  Thread, holds, without_key, System, is_taken, Step, acquires, releases, works, started, Reach,
  at_start, then_step,
}

-- How many holders a key has.
unfoldable pub holders : Key → System → ℕ
unfolding times_held
holders k [] = 0
holders k (t ∷ ts) = times_held k t.held + holders k ts

-- A thread holds what it still has to unlock.
abbrev IsBalanced : Thread → Type 0
IsBalanced t = ((k : Key) → times_held k t.held ≡ owed k t.todo) × IsPaired t.todo

times_held-without :
    (k j : Key) (held : List Key)
    → 1 ≤ times_held j held
    → times_held k held ≡ times_held k (without_key j held) + (if str_eq j k then 1 else 0)
unfolding times_held without_key
times_held-without k j [] h = absurd (omega arith)
times_held-without k j (i ∷ held) h =
    ground
      (arith, times_held-without k j held, str_eq_iff i j, ap (λ x. str_eq x k) {x = i} {y = j})

holds-times_held : (k : Key) (held : List Key) → 1 ≤ times_held k held → holds k held ≡ true
unfolding times_held holds
holds-times_held k [] h = absurd (omega arith)
holds-times_held k (j ∷ held) h = ground (arith, holds-times_held k held)

times_held_zero : (k : Key) (held : List Key) → holds k held ≡ false → times_held k held ≡ 0
unfolding times_held holds
times_held_zero k [] h = refl
times_held_zero k (j ∷ held) h = ground (arith, times_held_zero k held)

not_taken : (k : Key) (s : System) → is_taken k s ≡ false → holders k s ≡ 0
unfolding is_taken holders
not_taken k [] h = refl
not_taken k (t ∷ ts) h = ground (arith, times_held_zero k t.held, not_taken k ts)

holders-middle :
    (k : Key) (xs ys : System) (t : Thread)
    → holders k (xs ++ t ∷ ys) ≡ times_held k t.held + holders k (xs ++ ys)
unfolding holders
holders-middle k [] ys t = refl
holders-middle k (x ∷ xs) ys t = omega (arith, holders-middle k xs ys t)

-- Every thread holds what it has to unlock, and no key has two holders.
abbrev IsExclusive : System → Type 0
IsExclusive s = All IsBalanced s × ((k : Key) → holders k s ≤ 1)

IsBalanced-at :
    (s before after : System) (t : Thread) (ops : List Op)
    → s ≡ before ++ t ∷ after
    → t.todo ≡ ops
    → All IsBalanced s
    → IsBalanced (record { held = t.held; todo = ops }) × All IsBalanced (before ++ after)
IsBalanced-at s before after t ops at_ next h =
    let (own, others) = All-middle IsBalanced before after t (subst (All IsBalanced) at_ h) in
    ((λ k. own.0 k ∙ ap (owed k) next, subst IsPaired next own.1), others)

acquired-IsBalanced :
    (held : List Key) (k : Key) (ops : List Op)
    → IsBalanced (record { held = held; todo = acquire k ∷ ops })
    → IsBalanced (record { held = k ∷ held; todo = ops })
unfolding times_held owed
acquired-IsBalanced held k ops (even, paired) =
    ((λ j. ground (arith, even j, str_eq_iff k j, ap (λ i. owed i ops) {x = k} {y = j})), paired.1)

released-IsBalanced :
    (held : List Key) (k : Key) (ops : List Op)
    → IsBalanced (record { held = held; todo = release k ∷ ops })
    → (1 ≤ times_held k held) × IsBalanced (record { held = without_key k held; todo = ops })
unfolding owed
released-IsBalanced held k ops (even, paired) =
    let some_ : 1 ≤ times_held k held = ground (arith, even k, str_eq_self k) in
    (some_, ((λ j. ground (arith, even j, times_held-without j k held some_)), paired))

worked-IsBalanced :
    (held : List Key) (ops : List Op)
    → IsBalanced (record { held = held; todo = work ∷ ops })
    → IsBalanced (record { held = held; todo = ops })
unfolding owed
worked-IsBalanced held ops (even, paired) = (even, paired)

program-IsBalanced : (gs : List (List Key)) → IsBalanced (record { held = []; todo = program gs })
unfolding times_held owed
program-IsBalanced gs = (
  (λ k. sym (ap (owed k) (sym (append-nil (program gs))) ∙ program-owed gs [] k)),
  subst IsPaired (append-nil (program gs)) (program-IsPaired gs [] tt),
)

holders_at :
    (s before after : System) (t : Thread) (k : Key)
    → s ≡ before ++ t ∷ after
    → holders k s ≡ times_held k t.held + holders k (before ++ after)
holders_at s before after t k at_ = ap (holders k) at_ ∙ holders-middle k before after t

step-IsExclusive : (s u : System) → IsExclusive s → Step s u → IsExclusive u
unfolding times_held
step-IsExclusive s _ (h, single) (acquires before after t k rest at_ next free) =
    let (own, others) = IsBalanced-at s before after t _ at_ next h in
    (
      All-put IsBalanced before after _ (acquired-IsBalanced t.held k rest own) others,
      λ j. ground (
        arith,
        single j,
        not_taken k s free,
        str_eq_iff k j,
        ap (λ i. holders i s) {x = k} {y = j},
        holders_at s before after t j at_,
        holders-middle j before after (record { held = k ∷ t.held; todo = rest }),
      ),
    )
step-IsExclusive s _ (h, single) (releases before after t k rest at_ next) =
    let (own, others) = IsBalanced-at s before after t _ at_ next h in
    let (some_, new) = released-IsBalanced t.held k rest own in
    (
      All-put IsBalanced before after _ new others,
      λ j. ground (
        arith,
        single j,
        times_held-without j k t.held some_,
        holders_at s before after t j at_,
        holders-middle j before after (record { held = without_key k t.held; todo = rest }),
      ),
    )
step-IsExclusive s _ (h, single) (works before after t rest at_ next) =
    let (own, others) = IsBalanced-at s before after t _ at_ next h in
    (
      All-put IsBalanced before after (record { held = t.held; todo = rest })
          (worked-IsBalanced t.held rest own) others,
      λ j. omega (
        arith,
        single j,
        holders_at s before after t j at_,
        holders-middle j before after (record { held = t.held; todo = rest }),
      ),
    )

started-IsExclusive : (hs : List (Handler × ℕ)) → IsExclusive (started hs)
unfolding started handler_program holders times_held
started-IsExclusive [] = (tt, λ k. omega arith)
started-IsExclusive ((h, n) ∷ hs) =
    let (balanced, single) = started-IsExclusive hs in
    ((program-IsBalanced (take n (lock_groups h)), balanced), λ k. omega (arith, single k))

Reach-IsExclusive : (hs : List (Handler × ℕ)) (s : System) → Reach hs s → IsExclusive s
Reach-IsExclusive hs s at_start = started-IsExclusive hs
Reach-IsExclusive hs s (then_step t u before step) =
    step-IsExclusive t u (Reach-IsExclusive hs t before) step

-- However handlers run side by side, no mutex has more than one holder, and a handler that is about to unlock a
-- mutex holds it: no unlock is of a mutex that is free or another's.
pub handlers-exclusive :
    (hs : List (Handler × ℕ)) (s : System)
    → Reach hs s
    → ((k : Key) → holders k s ≤ 1)
      × ((before after : System) (t : Thread) (k : Key) (rest : List Op)
          → s ≡ before ++ t ∷ after
          → t.todo ≡ release k ∷ rest
          → holds k t.held ≡ true)
handlers-exclusive hs s reached =
    let (balanced, single) = Reach-IsExclusive hs s reached in
    (
      single,
      λ before after t k rest at_ next.
          holds-times_held k t.held
            (released-IsBalanced t.held k rest
              (IsBalanced-at s before after t _ at_ next balanced).0).0,
    )
