-- ===== src/LoadBalancer/Child/Splice.antt =====
-- The list that a handler writes: the old list without the first item of the name, and what is
-- found in it.
use terraform_provider_azure.Base.{
  ℕ, suc, ◌+◌, ◌≤◌, ◌≡◌, refl, ◌≢◌, ◌⊎◌, inl, inr, true, false, Option, none, some, List, [], ◌∷◌,
  ◌++◌, append-nil, ◌-◌, arith, ap, ◌∙◌, sym, if◌then◌else◌, Bool-cases, Str, str_eq_iff,
  str_eq_self,
}
use terraform_provider_azure.LoadBalancer.Model.{
  LoadBalancer, Properties, Item, is_named, find_from, find_in,
}
use terraform_provider_azure.LoadBalancer.Child.{Kind, remove_at, reapplied}

module _ {P : Type 0} where
  -- The specification: the first item of the name is gone.
  unfoldable pub without_first : Str → List (Item P) → List (Item P)
  without_first name [] = []
  without_first name (x ∷ xs) = if is_named name x.name then xs else x ∷ without_first name xs

  unfoldable pub count_named : Str → List (Item P) → ℕ
  count_named name [] = 0
  count_named name (x ∷ xs) =
      let rest = count_named name xs in if is_named name x.name then suc rest else rest

  -- The item that the first of the name is, without its index.
  unfoldable pub first_named : Str → List (Item P) → Option (Item P)
  first_named name [] = none
  first_named name (x ∷ xs) = if is_named name x.name then some x else first_named name xs

  -- What a search finds, and what the list is without it.
  abbrev Searched : Str → ℕ → List (Item P) → Type 0
  Searched name i xs =
      ((find_from i xs name ≡ none) × (without_first name xs ≡ xs) × (count_named name xs ≡ 0))
      ⊎ ((x : Item P) × (k : ℕ) × (find_from i xs name ≡ some (x, i + k))
          × (is_named name x.name ≡ true)
          × (1 ≤ count_named name xs)
          × ((ys : List (Item P)) → remove_at k (xs ++ ys) ≡ without_first name xs ++ ys))

  pub search_lem : (name : Str) (i : ℕ) (xs : List (Item P)) → Searched name i xs
  unfolding find_from without_first remove_at count_named
  search_lem name i [] = inl (refl, refl, refl)
  search_lem name i (x ∷ xs) = elim (Bool-cases (is_named name x.name)) [
    | inl here ↦ inr (
      x,
      0,
      rw here (ap (λ j. some (x, j)) (omega arith)),
      here,
      rw here (omega arith),
      λ ys. rw here,
    )
    | inr there ↦ elim (search_lem name (suc i) xs) [
      | inl (missed, same, none_left) ↦
          inl (rw there missed, rw there (ap (λ r. x ∷ r) same), rw there none_left)
      | inr (y, k, found, named, some_left, cut) ↦ inr (
        y,
        suc k,
        rw there (found ∙ ap (λ j. some (y, j)) (omega arith)),
        named,
        rw there some_left,
        λ ys. rw there (ap (λ r. x ∷ r) (cut ys)),
      )
    ]
  ]

module _ {P F : Type 0} (kind : Kind P F) (lb : LoadBalancer) (p : Properties) (xs : List (Item P))
    (has_properties : lb.properties ≡ some p) (has_items : kind.items p ≡ some xs) where
  pub find_in_lem : (name : Str) → find_in kind.items (some lb) name ≡ find_from 0 xs name
  unfolding find_in
  find_in_lem name = rw (has_properties, find_in) (rw (has_items, find_in))

  at_index :
      (name : Str) (x : Item P) (k : ℕ)
      → find_from 0 xs name ≡ some (x, 0 + k)
      → find_from 0 xs name ≡ some (x, k)
  at_index name x k e = e ∙ ap (λ j. some (x, j)) (omega arith)

  -- What a create writes: the old list without the first item of the name, then the new item.
  pub reapplied_lem :
      (name : Str) (item : Item P)
      → reapplied kind lb name xs item ≡ without_first name xs ++ item ∷ []
  unfolding reapplied
  reapplied_lem name item = elim (search_lem name 0 xs) [
    | inl (missed, same, _) ↦
        rw (find_in_lem name, reapplied)
          (rw (missed, reapplied) (ap (λ r. r ++ item ∷ []) (sym same)))
    | inr (x, k, found, named, some_left, cut) ↦
        rw (find_in_lem name, reapplied)
          (rw (at_index name x k found, reapplied) (rw named (cut (item ∷ []))))
  ]

  -- What a delete finds and writes.
  pub removed_lem :
      (name : Str)
      → ((find_in kind.items (some lb) name ≡ none) × (count_named name xs ≡ 0))
        ⊎ ((x : Item P) × (k : ℕ) × (find_in kind.items (some lb) name ≡ some (x, k))
            × (1 ≤ count_named name xs)
            × (remove_at k xs ≡ without_first name xs))
  removed_lem name = elim (search_lem name 0 xs) [
    | inl (missed, same, none_left) ↦ inl (find_in_lem name ∙ missed, none_left)
    | inr (x, k, found, named, some_left, cut) ↦ inr (
      x,
      k,
      find_in_lem name ∙ at_index name x k found,
      some_left,
      ap (remove_at k) (sym (append-nil xs)) ∙ cut [] ∙ append-nil (without_first name xs),
    )
  ]

not_both :
    (name other : Str) (o : Option Str)
    → other ≢ name
    → is_named name o ≡ true
    → is_named other o ≡ false
not_both name other none h e = refl
not_both name other (some n) h e = ground (arith, str_eq_iff n name, str_eq_iff n other)

module _ {P : Type 0} where
  count_named-append :
      (name : Str) (xs ys : List (Item P))
      → count_named name (xs ++ ys) ≡ count_named name xs + count_named name ys
  unfolding count_named
  count_named-append name [] ys = omega arith
  count_named-append name (x ∷ xs) ys = ground (arith, count_named-append name xs ys)

  count_named-without_first :
      (name : Str) (xs : List (Item P))
      → count_named name (without_first name xs) ≡ count_named name xs - 1
  unfolding count_named without_first
  count_named-without_first name [] = omega arith
  count_named-without_first name (x ∷ xs) = ground (arith, count_named-without_first name xs)

  count_named-other :
      (name other : Str) (xs : List (Item P))
      → other ≢ name
      → count_named other (without_first name xs) ≡ count_named other xs
  unfolding count_named without_first
  count_named-other name other [] h = refl
  count_named-other name other (x ∷ xs) h =
      ground (arith, count_named-other name other xs h, not_both name other x.name h)

  first_named-other :
      (name other : Str) (xs ys : List (Item P))
      → other ≢ name
      → first_named other (without_first name xs ++ ys) ≡ first_named other (xs ++ ys)
  unfolding first_named without_first
  first_named-other name other [] ys h = refl
  first_named-other name other (x ∷ xs) ys h =
      ground (arith, first_named-other name other xs ys h, not_both name other x.name h)

  first_named-new :
      (name : Str) (xs : List (Item P)) (item : Item P)
      → is_named name item.name ≡ true
      → count_named name xs ≡ 0
      → first_named name (xs ++ item ∷ []) ≡ some item
  unfolding first_named count_named
  first_named-new name [] item h e = rw h
  first_named-new name (x ∷ xs) item h e = ground (arith, first_named-new name xs item)

  first_named-append :
      (name : Str) (xs : List (Item P)) (item : Item P)
      → is_named name item.name ≡ false
      → first_named name (xs ++ item ∷ []) ≡ first_named name xs
  unfolding first_named
  first_named-append name [] item h = rw h
  first_named-append name (x ∷ xs) item h = ground (arith, first_named-append name xs item h)

  count_named-one :
      (name : Str) (item : Item P)
      → is_named name item.name ≡ true
      → count_named name (item ∷ []) ≡ 1
  unfolding count_named
  count_named-one name item h = rw h

  -- The list that a create writes, for a list in which the name stands at most once: the name now
  -- stands exactly once, at the new item; other names are found as before.
  replaced_lem :
      (name : Str) (xs : List (Item P)) (item : Item P)
      → item.name ≡ some name
      → count_named name xs ≤ 1
      → (count_named name (without_first name xs ++ item ∷ []) ≡ 1)
        × (first_named name (without_first name xs ++ item ∷ []) ≡ some item)
        × ((other : Str)
            → other ≢ name
            → first_named other (without_first name xs ++ item ∷ []) ≡ first_named other xs)
  replaced_lem name xs item named once =
      let own : is_named name item.name ≡ true = rw named (str_eq_self name) in
      let gone : count_named name (without_first name xs) ≡ 0 =
        omega (arith, count_named-without_first name xs) in
      (
        omega (
          arith,
          count_named-append name (without_first name xs) (item ∷ []),
          count_named-one name item own,
          gone,
        ),
        first_named-new name (without_first name xs) item own gone,
        λ other ne.
            first_named-other name other xs (item ∷ []) ne
            ∙ first_named-append other xs item (not_both name other item.name ne own),
      )

-- The list that a create writes, where the name stands at most once in the old one: the name stands
-- exactly once, at the new item, and other names are found as before.
pub reapplied-replaces :
    {P F : Type 0} (kind : Kind P F) (lb : LoadBalancer) (p : Properties) (xs : List (Item P))
    → lb.properties ≡ some p
    → kind.items p ≡ some xs
    → (name : Str) (item : Item P) → item.name ≡ some name
    → count_named name xs ≤ 1
    → (count_named name (reapplied kind lb name xs item) ≡ 1)
      × (first_named name (reapplied kind lb name xs item) ≡ some item)
      × ((other : Str)
          → other ≢ name
          → first_named other (reapplied kind lb name xs item) ≡ first_named other xs)
reapplied-replaces kind lb p xs hp hx name item named once =
    rw (reapplied_lem kind lb p xs hp hx name item) (replaced_lem name xs item named once)
