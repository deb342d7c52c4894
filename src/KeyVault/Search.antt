-- ===== src/KeyVault/Search.antt =====
-- The search for the access policy of a resource: `findKeyVaultAccessPolicy`.
use terraform_provider_azure.Base.{
  ◌≡◌, refl, true, Option, none, some, List, [], ◌∷◌, ◌++◌, arith, ap, sym, inl, inr, Bool-cases,
  ◌⊎◌, Option-cases, if◌then◌else◌, Str, All,
}
use mathlib.Core.Path.{subst}
use terraform_provider_azure.Authentication.Tokens.{equal_fold}
use terraform_provider_azure.KeyVault.Policies.{Uuids, AccessPolicy}

module _ (uuids : Uuids) where
  abbrev pub application_text : Option uuids.Uuid → Str
  application_text none = []
  application_text (some u) = uuids.to_string u

  unfoldable pub find_from : List (AccessPolicy uuids) → Str → Str → Option (AccessPolicy uuids)
  find_from [] object application = none
  find_from (p ∷ ps) object application =
      let rest = find_from ps object application in
      elim p.object_id [
        | none ↦ rest
        | some id ↦
            if equal_fold id object
            then if equal_fold (application_text p.application_id) application then some p else rest
            else rest
      ]

  -- `findKeyVaultAccessPolicy`, which never returns an error
  unfoldable pub find_access_policy :
      Option (List (AccessPolicy uuids)) → Str → Str → Option (AccessPolicy uuids)
  unfolding find_from
  find_access_policy none object application = none
  find_access_policy (some ps) object application = find_from ps object application

  -- A policy is of an object and an application, but for the case of the letters; of no application
  -- where the text is empty.
  abbrev pub IsOf : Str → Str → AccessPolicy uuids → Type 0
  IsOf object application p =
      (id : Str) × (p.object_id ≡ some id)
      × (equal_fold id object ≡ true)
      × (equal_fold (application_text p.application_id) application ≡ true)

  -- The policy is the first of the list that is of the object and the application.
  abbrev pub IsFirst : Str → Str → List (AccessPolicy uuids) → Option (AccessPolicy uuids) → Type 0
  IsFirst object application ps none = All (λ p. IsOf object application p → ⊥) ps
  IsFirst object application ps (some p) =
      (front : List (AccessPolicy uuids)) × (back : List (AccessPolicy uuids)) × (ps
        ≡ front ++ p ∷ back)
      × IsOf object application p
      × All (λ q. IsOf object application q → ⊥) front

  IsOf-found :
      (object application : Str) (p : AccessPolicy uuids) (ps : List (AccessPolicy uuids))
      → IsOf object application p
      → find_from (p ∷ ps) object application ≡ some p
  unfolding find_from
  IsOf-found object application p ps (id, has_id, same_object, same_application) = ground arith

  IsOf-cases :
      (object application : Str) (p : AccessPolicy uuids) (ps : List (AccessPolicy uuids))
      → IsOf object application p
        ⊎ ((IsOf object application p → ⊥)
            × (find_from (p ∷ ps) object application ≡ find_from ps object application))
  unfolding find_from
  IsOf-cases object application p ps = elim (Option-cases p.object_id) [
    | inl e ↦ inr ((λ (id, has_id, o, a). ground arith), ground arith)
    | inr (id, e) ↦ elim (Bool-cases (equal_fold id object)) [
      | inr differs ↦ inr ((λ (i, has_id, o, a). ground arith), ground arith)
      | inl as_object ↦
          elim (Bool-cases (equal_fold (application_text p.application_id) application)) [
            | inr differs ↦ inr ((λ (i, has_id, o, a). ground arith), ground arith)
            | inl as_application ↦ inl (id, e, as_object, as_application)
          ]
    ]
  ]

  find_from-nil : (object application : Str) → find_from [] object application ≡ none
  unfolding find_from
  find_from-nil object application = refl

  IsFirst-cons :
      (object application : Str) (p : AccessPolicy uuids) (ps : List (AccessPolicy uuids))
      (r : Option (AccessPolicy uuids))
      → (IsOf object application p → ⊥)
      → IsFirst object application ps r
      → IsFirst object application (p ∷ ps) r
  IsFirst-cons object application p ps none differs h = (differs, h)
  IsFirst-cons object application p ps (some q) differs (front, back, e, is_of, skipped) =
      (p ∷ front, back, ap (λ r. p ∷ r) e, is_of, (differs, skipped))

  found-IsFirst :
      (object application : Str) (ps : List (AccessPolicy uuids))
      → IsFirst object application ps (find_from ps object application)
  found-IsFirst object application [] =
      subst (IsFirst object application []) (sym (find_from-nil object application)) tt
  found-IsFirst object application (p ∷ ps) = elim (IsOf-cases object application p ps) [
    | inl is_of ↦
        subst (IsFirst object application (p ∷ ps)) (sym (IsOf-found object application p ps is_of))
          ([], ps, refl, is_of, tt)
    | inr (differs, skips) ↦
        subst (IsFirst object application (p ∷ ps)) (sym skips)
          (IsFirst-cons object application p ps _ differs (found-IsFirst object application ps))
  ]

  -- The search gives the first policy of the object and the application, where case does not count and a
  -- policy of no application is one with an empty text; it gives none only where no policy is such.
  pub find_access_policy-IsFirst :
      (ps : List (AccessPolicy uuids)) (object application : Str)
      → IsFirst object application ps (find_access_policy (some ps) object application)
  unfolding find_access_policy
  find_access_policy-IsFirst ps object application = found-IsFirst object application ps
