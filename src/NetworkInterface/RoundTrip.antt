-- ===== src/NetworkInterface/RoundTrip.antt =====
-- A create and then a delete, on a network interface.
use terraform_provider_azure.Base.{
  ◌≡◌, refl, true, false, some, List, [], ◌∷◌, ◌++◌, arith, inl, inr, ap, ◌∙◌, sym, Option-cases,
  Str, str_eq_iff, str_eq_self, Outcome, ok, err, panic,
}
use mathlib.Core.Path.{fun_ext}
use terraform_provider_azure.Helpers.NetworkInterface.{find_ip_configuration}
use terraform_provider_azure.NetworkInterface.Model.{
  Nic, NicError, Kind, configurations, list_or_empty, associate, dissociate, is_associated,
}
use terraform_provider_azure.NetworkInterface.Targets.{
  Associations, mem, remove, update, add, drop_id, has_target_lem,
}
use terraform_provider_azure.NetworkInterface.Refinement.{
  targets_in, associations, seen, associate-add, dissociate-refines,
}

mem-remove : (x : Str) (ys : List Str) → mem x (remove x ys) ≡ false
unfolding mem remove
mem-remove x [] = refl
mem-remove x (y ∷ ys) = ground (arith, mem-remove x ys)

mem-append_self : (x : Str) (ys : List Str) → mem x (ys ++ x ∷ []) ≡ true
unfolding mem
mem-append_self x [] = ground (arith, str_eq_self x)
mem-append_self x (y ∷ ys) = ground (arith, mem-append_self x ys)

remove-append_self : (x : Str) (ys : List Str) → mem x ys ≡ false → remove x (ys ++ x ∷ []) ≡ ys
unfolding mem remove
remove-append_self x [] h = ground (arith, str_eq_self x)
remove-append_self x (y ∷ ys) h = ground (arith, remove-append_self x ys)

-- An ID that is added and dropped again.
update-update :
    (m : Associations) (name : Str) (ids other : List Str)
    → m name ≡ some ids
    → update (update m name other) name ids ≡ m
update-update m name ids other h =
    fun_ext λ n. ground (arith, str_eq_iff name n, ap m {x = name} {y = n})

abbrev value_or : {A : Type 0} → A → Outcome (Unit {0}) A → A
value_or a (ok b) = b
value_or a (err e) = a
value_or a panic = a

add_new :
    (name id : Str) (m : Associations) (ids : List Str)
    → m name ≡ some ids
    → mem id ids ≡ false
    → add name id m ≡ ok (update m name (ids ++ id ∷ []))
add_new name id m ids e new = ground arith

-- An `add` that returned.
add-eq-ok :
    (name id : Str) (m m' : Associations)
    → add name id m ≡ ok m'
    → (ids : List Str) × (m name ≡ some ids)
      × (mem id ids ≡ false)
      × (m' ≡ update m name (ids ++ id ∷ []))
add-eq-ok name id m m' h = elim (Option-cases (m name)) [
  | inl e ↦ ground arith
  | inr (ids, e) ↦
      (ids, e, ground arith, ap (value_or m) (sym h ∙ add_new name id m ids e (ground arith)))
]

module _ {R : Type 0} (kind : Kind R) where
  is_associated_lem :
      (name id : Str) (nic : Nic R) (ids : List Str)
      → associations kind nic name ≡ some ids
      → is_associated kind name id nic ≡ ok (mem id ids)
  unfolding is_associated configurations associations targets_in
  is_associated_lem name id nic ids h = elim (Option-cases nic.properties) [
    | inl e ↦ ground arith
    | inr (props, e) ↦ elim (Option-cases props.ip_configurations) [
      | inl e' ↦ ground arith
      | inr (configs, e') ↦ elim (Option-cases (find_ip_configuration (some configs) name)) [
        | inl e2 ↦ ground arith
        | inr (c, e2) ↦ elim (Option-cases c.properties) [
          | inl e3 ↦ ground arith
          | inr (p, e3) ↦ ground (arith, has_target_lem id (list_or_empty (kind.targets p)))
        ]
      ]
    ]
  ]

  seen-eq-ok :
      (m : Outcome NicError (Nic R)) (v : Associations)
      → seen kind m ≡ ok v
      → (nic : Nic R) × (m ≡ ok nic) × (associations kind nic ≡ v)
  seen-eq-ok (ok nic) v h = (nic, refl, ground arith)
  seen-eq-ok (err e) v h = cc
  seen-eq-ok panic v h = cc

  associated :
      (name id : Str) (nic nic' : Nic R)
      → associate kind name id nic ≡ ok nic'
      → (ids : List Str) × (associations kind nic name ≡ some ids)
        × (mem id ids ≡ false)
        × (associations kind nic' ≡ update (associations kind nic) name (ids ++ id ∷ []))
  associated name id nic nic' h =
      add-eq-ok name id (associations kind nic) (associations kind nic')
        (sym (associate-add kind name id nic) ∙ ap (seen kind) h)

  dropped :
      (name id : Str) (nic nic' : Nic R) (m : Associations) (ids : List Str)
      → associations kind nic' ≡ update m name (ids ++ id ∷ [])
      → m name ≡ some ids
      → mem id ids ≡ false
      → drop_id name id (associations kind nic') ≡ ok m
  dropped name id nic nic' m ids e at_name new =
      ap (drop_id name id) e
      ∙ ground (
        arith,
        str_eq_self name,
        remove-append_self id ids new,
        update-update m name ids (ids ++ id ∷ []) at_name,
      )

  -- After a create, a read finds the association; a delete then returns, the associations of every
  -- configuration are as they were before the create, and a read finds this one no more.
  pub dissociate-associate :
      (name id : Str) (nic nic' : Nic R)
      → associate kind name id nic ≡ ok nic'
      → (back : Nic R) × (is_associated kind name id nic' ≡ ok true)
        × (dissociate kind name id nic' ≡ ok back)
        × (associations kind back ≡ associations kind nic)
        × (is_associated kind name id back ≡ ok false)
  dissociate-associate name id nic nic' h =
      let (ids, at_name, new, after) = associated name id nic nic' h in
      let (back, returned, same) =
        seen-eq-ok (dissociate kind name id nic') (associations kind nic) (
          dissociate-refines kind name id nic'
          ∙ dropped name id nic nic' (associations kind nic) ids after at_name new) in
      (
        back,
        is_associated_lem name id nic' (ids ++ id ∷ [])
              (ap (λ m. m name) after ∙ ground (arith, str_eq_self name))
            ∙ ap ok (mem-append_self id ids),
        returned,
        same,
        is_associated_lem name id back ids (ap (λ m. m name) same ∙ at_name) ∙ ap ok new,
      )
