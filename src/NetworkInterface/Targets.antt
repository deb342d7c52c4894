-- ===== src/NetworkInterface/Targets.antt =====
-- The map that the associations mean, and the loops over targets as changes of lists of IDs.
use terraform_provider_azure.Base.{
  ◌≡◌, refl, Bool, true, false, ◌||◌, Option, none, some, List, [], ◌∷◌, ◌++◌, arith, if◌then◌else◌,
  Str, str_eq, str_eq_iff, Outcome, ok, err,
}
use terraform_provider_azure.Helpers.NetworkInterface.{IpConfiguration, find_named}
use terraform_provider_azure.NetworkInterface.Model.{
  Target, already_exists, unless_exists, without, has_target,
}

-- The IDs that each configuration is associated with; `none` where there is no configuration with
-- properties.
abbrev pub Associations : Type 0
Associations = Str → Option (List Str)

unfoldable pub mem : Str → List Str → Bool
mem x [] = false
mem x (y ∷ ys) = str_eq y x || mem x ys

unfoldable pub remove : Str → List Str → List Str
remove x [] = []
remove x (y ∷ ys) = if str_eq y x then remove x ys else y ∷ remove x ys

abbrev pub update : Associations → Str → List Str → Associations
update m name ids other = if str_eq name other then some ids else m other

-- The ID is put at the end, unless it is there.
abbrev pub add : Str → Str → Associations → Outcome (Unit {0}) Associations
add name id m = elim (m name) [
  | none ↦ err tt
  | some ids ↦ if mem id ids then err tt else ok (update m name (ids ++ id ∷ []))
]

abbrev pub drop_id : Str → Str → Associations → Outcome (Unit {0}) Associations
drop_id name id m = elim (m name) [ none ↦ err tt | some ids ↦ ok (update m name (remove id ids)) ]

pub find_named-name :
    {P : Type 0} (vs : List (IpConfiguration P)) (name : Str) (c : IpConfiguration P)
    → find_named vs name ≡ some c
    → c.name ≡ some name
unfolding find_named
find_named-name [] name c h = cc
find_named-name (v ∷ vs) name c h = grind (arith, find_named-name vs name c, str_eq_iff)

module _ {R : Type 0} where
  unfoldable pub target_ids : List (Target R) → List Str
  target_ids [] = []
  target_ids (t ∷ ts) = elim t.id [ none ↦ target_ids ts | some i ↦ i ∷ target_ids ts ]

  pub target_ids-append :
      (ts us : List (Target R)) → target_ids (ts ++ us) ≡ target_ids ts ++ target_ids us
  unfolding target_ids
  target_ids-append [] us = refl
  target_ids-append (t ∷ ts) us = ground (arith, target_ids-append ts us)

  pub target_ids-without :
      (id : Str) (ts : List (Target R)) → target_ids (without id ts) ≡ remove id (target_ids ts)
  unfolding target_ids without remove
  target_ids-without id [] = refl
  target_ids-without id (t ∷ ts) = ground (arith, target_ids-without id ts)

  pub has_target_lem : (id : Str) (ts : List (Target R)) → has_target id ts ≡ mem id (target_ids ts)
  unfolding target_ids has_target mem
  has_target_lem id [] = refl
  has_target_lem id (t ∷ ts) = ground (arith, has_target_lem id ts)

  pub unless_exists_old :
      (id : Str) (ts : List (Target R))
      → mem id (target_ids ts) ≡ true
      → unless_exists id ts ≡ err already_exists
  unfolding target_ids unless_exists mem
  unless_exists_old id [] h = cc
  unless_exists_old id (t ∷ ts) h = ground (arith, unless_exists_old id ts)

  -- The targets with an ID.
  unfoldable pub with_id : List (Target R) → List (Target R)
  with_id [] = []
  with_id (t ∷ ts) = elim t.id [ none ↦ with_id ts | some i ↦ t ∷ with_id ts ]

  pub target_ids-with_id : (ts : List (Target R)) → target_ids (with_id ts) ≡ target_ids ts
  unfolding target_ids with_id
  target_ids-with_id [] = refl
  target_ids-with_id (t ∷ ts) = ground (arith, target_ids-with_id ts)

  pub unless_exists_new :
      (id : Str) (ts : List (Target R))
      → mem id (target_ids ts) ≡ false
      → unless_exists id ts ≡ ok (with_id ts)
  unfolding target_ids unless_exists mem with_id
  unless_exists_new id [] h = refl
  unless_exists_new id (t ∷ ts) h = ground (arith, unless_exists_new id ts)
