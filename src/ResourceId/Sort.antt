-- ===== src/ResourceId/Sort.antt =====
-- `sort.Strings`: the order of byte strings, and sorting by insertion.
use terraform_provider_azure.Base.{
  Bool, true, false, List, [], ◌∷◌, if◌then◌else◌, Str, ltb, ◌==◌, ◌&&◌, ◌||◌, str_eq, ◌≡◌, refl,
  ap, ◌∙◌, arith, All, Bool-cases, inl, inr,
}

unfoldable pub str_le : Str → Str → Bool
str_le [] t = true
str_le (x ∷ s) [] = false
str_le (x ∷ s) (y ∷ t) = ltb x y || x == y && str_le s t

insert_sorted : Str → List Str → List Str
insert_sorted k [] = k ∷ []
insert_sorted k (j ∷ ks) =
    let rest = insert_sorted k ks in if str_le k j then k ∷ j ∷ ks else j ∷ rest

unfoldable pub sort_strings : List Str → List Str
unfolding insert_sorted str_le
sort_strings [] = []
sort_strings (k ∷ ks) = insert_sorted k (sort_strings ks)

unfoldable pub mem : Str → List Str → Bool
mem j [] = false
mem j (k ∷ ks) = str_eq k j || mem j ks

mem-insert_sorted :
    (j k : Str) (ks : List Str) → mem j (insert_sorted k ks) ≡ (str_eq k j || mem j ks)
unfolding mem insert_sorted
mem-insert_sorted j k [] = refl
mem-insert_sorted j k (i ∷ ks) = ground (arith, mem-insert_sorted j k ks)

-- Sorting keeps the members.
pub mem-sort_strings : (j : Str) (ks : List Str) → mem j (sort_strings ks) ≡ mem j ks
unfolding mem sort_strings
mem-sort_strings j [] = refl
mem-sort_strings j (k ∷ ks) =
    mem-insert_sorted j k (sort_strings ks) ∙ ap (λ b. str_eq k j || b) (mem-sort_strings j ks)

module _ {ℓ} (P : Str → Type ℓ) where
  All-insert_sorted : (k : Str) (ks : List Str) → P k → All P ks → All P (insert_sorted k ks)
  unfolding insert_sorted
  All-insert_sorted k [] p h = (p, tt)
  All-insert_sorted k (j ∷ ks) p h = elim (Bool-cases (str_le k j)) [
    | inl e ↦ rw e (p, h)
    | inr e ↦ rw e (h.0, All-insert_sorted k ks p h.1)
  ]

  pub All-sort_strings : (ks : List Str) → All P ks → All P (sort_strings ks)
  unfolding sort_strings
  All-sort_strings [] h = tt
  All-sort_strings (k ∷ ks) h = All-insert_sorted k (sort_strings ks) h.0 (All-sort_strings ks h.1)
