-- ===== src/Locks/Order.antt =====
-- Programs whose locks rise in one order.
use terraform_provider_azure.Base.{
  ℕ, zero, suc, ◌<◌, ◌≡◌, refl, true, false, List, [], ◌∷◌, ◌++◌, map, take, arith, ap, ◌∙◌, sym,
  str_eq, str_eq_iff, str_eq_self, All, append_assoc, append-nil,
}
use mathlib.Core.Path.{subst}
use terraform_provider_azure.Locks.Handlers.{Key, Op, acquire, release, work, program}
use terraform_provider_azure.Locks.System.{holds, without_key}

module _ (rank : Key → ℕ) (top : ℕ) where
  -- What is left to do: a lock ranks above all that is held and below `top`; what is unlocked is held; and
  -- nothing is held at the end.
  abbrev pub IsOrdered : List Key → List Op → Type 0
  IsOrdered held [] = held ≡ []
  IsOrdered held (acquire k ∷ ops) =
      All (λ j. rank j < rank k) held × (rank k < top) × IsOrdered (k ∷ held) ops
  IsOrdered held (release k ∷ ops) = (holds k held ≡ true) × IsOrdered (without_key k held) ops
  IsOrdered held (work ∷ ops) = IsOrdered held ops

  -- The keys of a group rise, from above what is held.
  abbrev pub IsRising : List Key → List Key → Type 0
  IsRising held [] = Unit
  IsRising held (k ∷ ks) = All (λ j. rank j < rank k) held × (rank k < top) × IsRising (k ∷ held) ks

-- What is held when the keys have been locked.
abbrev pub locked : List Key → List Key → List Key
locked held [] = held
locked held (k ∷ ks) = locked (k ∷ held) ks

module _ (rank : Key → ℕ) (top : ℕ) where
  abbrev pub AreRising : List Key → List (List Key) → Type 0
  AreRising held [] = Unit
  AreRising held (g ∷ gs) = IsRising rank top held g × AreRising (locked held g) gs

  pub take-AreRising :
      (n : ℕ) (held : List Key) (gs : List (List Key))
      → AreRising held gs
      → AreRising held (take n gs)
  take-AreRising zero held gs h = tt
  take-AreRising (suc n) held [] h = tt
  take-AreRising (suc n) held (g ∷ gs) h = (h.0, take-AreRising n (locked held g) gs h.1)

  acquires-IsOrdered :
      (g held : List Key) (ops : List Op)
      → IsRising rank top held g
      → IsOrdered rank top (locked held g) ops
      → IsOrdered rank top held (map acquire g ++ ops)
  acquires-IsOrdered [] held ops h o = o
  acquires-IsOrdered (k ∷ g) held ops h o = (h.0, h.1, acquires-IsOrdered g (k ∷ held) ops h.2 o)

  holds-locked : (g xs held : List Key) (k : Key) → holds k (locked (xs ++ k ∷ held) g) ≡ true
  unfolding holds
  holds-locked [] [] held k = rw (str_eq_self k) refl
  holds-locked [] (x ∷ xs) held k = ground (arith, holds-locked [] xs held k)
  holds-locked (j ∷ g) xs held k = holds-locked g (j ∷ xs) held k

  -- The key is none of the list.
  abbrev Avoids : Key → List Key → Type 0
  Avoids k xs = All (λ j. str_eq j k ≡ false) xs

  without_key-middle :
      (xs held : List Key) (k : Key) → Avoids k xs → without_key k (xs ++ k ∷ held) ≡ xs ++ held
  unfolding without_key
  without_key-middle [] held k h = rw (str_eq_self k) refl
  without_key-middle (x ∷ xs) held k h = rw h.0 (ap (λ r. x ∷ r) (without_key-middle xs held k h.1))

  without_key-locked :
      (g xs held : List Key) (k : Key)
      → Avoids k xs
      → Avoids k g
      → without_key k (locked (xs ++ k ∷ held) g) ≡ locked (xs ++ held) g
  without_key-locked [] xs held k hx hg = without_key-middle xs held k hx
  without_key-locked (j ∷ g) xs held k hx hg = without_key-locked g (j ∷ xs) held k (hg.0, hx) hg.1

  differ : (j k : Key) → rank k < rank j → str_eq j k ≡ false
  differ j k h = ground (arith, str_eq_iff j k, ap rank {x = j} {y = k})

  pub below_of_holds :
      (held : List Key) (j k : Key)
      → All (λ i. rank i < rank j) held
      → holds k held ≡ true
      → rank k < rank j
  unfolding holds
  below_of_holds [] j k h e = cc
  below_of_holds (i ∷ held) j k h e =
      ground (arith, h.0, str_eq_iff i k, ap rank {x = i} {y = k}, below_of_holds held j k h.1)

  holds-cons : (held : List Key) (j k : Key) → holds k held ≡ true → holds k (j ∷ held) ≡ true
  unfolding holds
  holds-cons held j k h = ground arith

  rising-Avoids :
      (g held : List Key) (k : Key) → holds k held ≡ true → IsRising rank top held g → Avoids k g
  rising-Avoids [] held k h r = tt
  rising-Avoids (j ∷ g) held k h r = (
    differ j k (below_of_holds held j k r.0 h),
    rising-Avoids g (j ∷ held) k (holds-cons held j k h) r.2,
  )

  All-without :
      (xs held : List Key) (j k : Key)
      → All (λ i. rank i < rank j) (xs ++ k ∷ held)
      → All (λ i. rank i < rank j) (xs ++ held)
  All-without [] held j k h = h.1
  All-without (x ∷ xs) held j k h = (h.0, All-without xs held j k h.1)

  IsRising-without :
      (g xs held : List Key) (k : Key)
      → IsRising rank top (xs ++ k ∷ held) g
      → IsRising rank top (xs ++ held) g
  IsRising-without [] xs held k h = tt
  IsRising-without (j ∷ g) xs held k h =
      (All-without xs held j k h.0, h.1, IsRising-without g (j ∷ xs) held k h.2)

  releases-IsOrdered :
      (g held : List Key) (ops : List Op)
      → IsRising rank top held g
      → IsOrdered rank top held ops
      → IsOrdered rank top (locked held g) (map release g ++ ops)
  releases-IsOrdered [] held ops h o = o
  releases-IsOrdered (k ∷ g) held ops h o =
      let apart = rising-Avoids g (k ∷ held) k (holds-locked [] [] held k) h.2 in
      (
        holds-locked g [] held k,
        subst (λ r. IsOrdered rank top r (map release g ++ ops))
            (sym (without_key-locked g [] held k tt apart))
            (releases-IsOrdered g held ops (IsRising-without g [] held k h.2) o),
      )

  program-IsOrdered_before :
      (gs : List (List Key)) (held : List Key) (ops : List Op)
      → AreRising held gs
      → IsOrdered rank top held ops
      → IsOrdered rank top held (program gs ++ ops)
  unfolding program
  program-IsOrdered_before [] held ops h o = o
  program-IsOrdered_before (g ∷ gs) held ops h o =
      subst (IsOrdered rank top held)
        (sym (
          append_assoc (map acquire g) (program gs ++ map release g) ops
          ∙ ap (λ r. map acquire g ++ r) (append_assoc (program gs) (map release g) ops)))
        (acquires-IsOrdered g held _ h.0 (
          program-IsOrdered_before gs (locked held g) (map release g ++ ops) h.1
            (releases-IsOrdered g held ops h.0 o)))

  -- A handler whose groups rise runs an ordered program.
  pub program-IsOrdered :
      (gs : List (List Key)) → AreRising [] gs → IsOrdered rank top [] (program gs)
  program-IsOrdered gs h =
      subst (IsOrdered rank top []) (append-nil (program gs))
        (program-IsOrdered_before gs [] [] h refl)
