-- ===== src/DataDisk/Disks.antt =====
-- What the loops over data disks do, by the names of the disks.
use terraform_provider_azure.Base.{
  ◌≡◌, refl, Bool, true, false, Option-cases, Bool-cases, inl, inr, none, some, List, [], ◌∷◌, ◌++◌,
  arith, Str, str_eq, str_eq_self, str_eq_iff, ok,
}
use terraform_provider_azure.DataDisk.{DataDisk, replace_disk, find_disk, without_disk}

module _ {R : Type 0} where
  unfoldable pub all_named : List (DataDisk R) → Bool
  all_named [] = true
  all_named (y ∷ ys) = elim y.name [ none ↦ false | some n ↦ all_named ys ]

  pub find-append :
      (ys : List (DataDisk R)) (name : Str) (x : DataDisk R)
      → x.name ≡ some name
      → all_named ys ≡ true
      → find_disk name ys ≡ ok none
      → find_disk name (ys ++ x ∷ []) ≡ ok (some x)
  unfolding find_disk all_named
  find-append [] name x h n e = ground (arith, str_eq_self name)
  find-append (y ∷ ys) name x h n e = ground (arith, find-append ys name x h)

  pub find-append_other :
      (ys : List (DataDisk R)) (name other : Str) (x : DataDisk R)
      → x.name ≡ some name
      → str_eq name other ≡ false
      → all_named ys ≡ true
      → find_disk other (ys ++ x ∷ []) ≡ find_disk other ys
  unfolding find_disk all_named
  find-append_other [] name other x h d n = ground arith
  find-append_other (y ∷ ys) name other x h d n =
      ground (arith, find-append_other ys name other x h d)

  pub without-append :
      (ys : List (DataDisk R)) (name : Str) (x : DataDisk R)
      → x.name ≡ some name
      → all_named ys ≡ true
      → find_disk name ys ≡ ok none
      → without_disk name (ys ++ x ∷ []) ≡ ok ys
  unfolding find_disk all_named without_disk
  without-append [] name x h n e = ground (arith, str_eq_self name)
  without-append (y ∷ ys) name x h n e = ground (arith, without-append ys name x h)

  pub find-without :
      (ys : List (DataDisk R)) (name : Str)
      → all_named ys ≡ true
      → (zs : List (DataDisk R)) × (without_disk name ys ≡ ok zs)
        × (find_disk name zs ≡ ok none)
        × ((other : Str) → str_eq name other ≡ false → find_disk other zs ≡ find_disk other ys)
        × (all_named zs ≡ true)
  unfolding find_disk all_named without_disk
  find-without [] name n = ([], refl, refl, λ other d. refl, refl)
  find-without (y ∷ ys) name n = elim (Option-cases y.name) [
    | inl e ↦ ground arith
    | inr (m, e) ↦
        let (zs, e1, e2, e3, e4) = find-without ys name (ground arith) in
        elim (Bool-cases (str_eq m name)) [
          | inl same ↦
              (zs, ground arith, e2, λ other d. ground (arith, e3 other d, str_eq_iff m name), e4)
          | inr distinct ↦ (
            y ∷ zs,
            ground arith,
            ground arith,
            λ other d. ground (arith, e3 other d),
            ground arith,
          )
        ]
  ]

  pub find-replace :
      (ys : List (DataDisk R)) (name : Str) (x old : DataDisk R)
      → x.name ≡ some name
      → all_named ys ≡ true
      → find_disk name ys ≡ ok (some old)
      → (zs : List (DataDisk R)) × (replace_disk name x ys ≡ ok zs)
        × (find_disk name zs ≡ ok (some x))
        × ((other : Str) → str_eq name other ≡ false → find_disk other zs ≡ find_disk other ys)
        × (all_named zs ≡ true)
  unfolding find_disk all_named replace_disk
  find-replace [] name x old h n e = ground arith
  find-replace (y ∷ ys) name x old h n e = elim (Option-cases y.name) [
    | inl none_there ↦ ground arith
    | inr (m, named) ↦ elim (Bool-cases (str_eq m name)) [
      | inl same ↦ (
        x ∷ ys,
        ground arith,
        ground (arith, str_eq_self name),
        λ other d. ground (arith, str_eq_iff m name),
        ground arith,
      )
      | inr distinct ↦
          let (zs, e1, e2, e3, e4) = find-replace ys name x old h (ground arith) (ground arith) in
          (y ∷ zs, ground arith, ground arith, λ other d. ground (arith, e3 other d), ground arith)
    ]
  ]

  pub all_named-append :
      (ys : List (DataDisk R)) (name : Str) (x : DataDisk R)
      → x.name ≡ some name
      → all_named ys ≡ true
      → all_named (ys ++ x ∷ []) ≡ true
  unfolding all_named
  all_named-append [] name x h n = ground arith
  all_named-append (y ∷ ys) name x h n = ground (arith, all_named-append ys name x h)
