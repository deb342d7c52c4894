-- ===== src/LogicApp/Concurrent.antt =====
-- Updates of components of one workflow that run side by side.
use terraform_provider_azure.Base.{
  ℕ, ◌≡◌, refl, true, Option, none, some, List, [], ◌∷◌, arith, ap, ◌∙◌, ◌==◌, inl, inr,
  Option-cases, Outcome-cases, Bool-cases, if◌then◌else◌, Str, str_eq, str_eq_iff, str_eq_self,
  bytes, lookup, get_or_empty, Outcome, ok, err, panic,
}
use terraform_provider_azure.ResourceId.{ResourceId, parse_azure_resource_id}
use terraform_provider_azure.Handler.{Api, Store, Env}
use terraform_provider_azure.Handler.Interleaving.{Change, Resources, System, Reach, apply, run_all}
use terraform_provider_azure.Handler.Serial.{mem, effective, handlers-serial}
use terraform_provider_azure.LogicApp.Model.{
  Json, object, Fields, LogicError, Workflow, set_component,
}
use terraform_provider_azure.LogicApp.Component.{Data, logic_app, update_body, update_component}
use terraform_provider_azure.LogicApp.Refinement.{
  Components, update, components, set_component-refines,
}

abbrev or_none : {A : Type 0} → Outcome LogicError A → Option A
or_none (ok a) = some a
or_none (err e) = none
or_none panic = none

-- What an update does to a workflow.
abbrev pub update_change : {R : Type 0} → Str → Str → Str → Str → Fields → Change (Workflow R)
update_change group app property name vals = record {
  group = group;
  name = app;
  change = λ wf. or_none (set_component property name vals wf);
}

module _ {R F : Type 0} (api : Api (Workflow R)) (store : Store api) where
  -- An update on a cloud that holds what is put changes it in one step as `apply` does, also where the workflow
  -- is gone or its definition is none.
  pub held-update_component :
      (property name : Str) (vals : Fields) (e : Env api (Data F)) (id : ResourceId) (g n : Str)
      → parse_azure_resource_id api.parse_authority e.data_.logic_app_id ≡ ok id
      → store.held (update_component api property e.data_.logic_app_id name vals e).1.cloud g n
        ≡ apply
            (update_change id.group
              (get_or_empty (lookup (bytes "workflows") id.path))
              property
              name
              vals)
            (store.held e.cloud)
            g
            n
  unfolding update_component update_body apply
  held-update_component property name vals e id g n h =
      let app = get_or_empty (lookup (bytes "workflows") id.path) in
      elim (Option-cases (store.held e.cloud id.group app)) [
        | inl gone ↦ ground (arith, store.get_held id.group app e.cloud)
        | inr (wf, there) ↦ elim (Outcome-cases (set_component property name vals wf)) [
          | inl (wf', e1) ↦ ground (
            arith,
            store.get_held id.group app e.cloud,
            store.create_put id.group app wf' e.cloud,
            store.held_put id.group app g n wf' e.cloud,
            Bool-cases e.data_.is_new,
            Option-cases wf.id,
          )
          | inr (inl (x, e1)) ↦ ground (arith, store.get_held id.group app e.cloud)
          | inr (inr e1) ↦ ground (arith, store.get_held id.group app e.cloud)
        ]
      ]

-- Updates of one workflow, by their number, seen from a name.
module _ (names : ℕ → Str) (vals : ℕ → Fields) where
  -- The value of a name behind updates one after the other.
  last_value : Str → List ℕ → Option Json → Option Json
  last_value n [] v = v
  last_value n (i ∷ is) v =
      last_value n is (if str_eq (names i) n then some (object (vals i)) else v)

  last_value-kept :
      (i : ℕ) (is : List ℕ)
      → ((j : ℕ) → names j ≡ names i → j ≡ i)
      → last_value (names i) is (some (object (vals i))) ≡ some (object (vals i))
  unfolding last_value
  last_value-kept i [] alone = refl
  last_value-kept i (j ∷ is) alone = ground (
    arith,
    alone j,
    last_value-kept i is alone,
    str_eq_iff (names j) (names i),
    ap vals {x = j} {y = i},
  )

  last_value-mem :
      (i : ℕ) (is : List ℕ) (v : Option Json)
      → ((j : ℕ) → names j ≡ names i → j ≡ i)
      → mem i is ≡ true
      → last_value (names i) is v ≡ some (object (vals i))
  unfolding last_value mem
  last_value-mem i [] v alone h = cc
  last_value-mem i (j ∷ is) v alone h = elim (Bool-cases (j == i)) [
    | inl e ↦ ground (
      arith,
      last_value-kept i is alone,
      str_eq_self (names i),
      ap names {x = j} {y = i},
      ap vals {x = j} {y = i},
    )
    | inr e ↦ ground (
      arith,
      last_value-mem i is (if str_eq (names j) (names i) then some (object (vals j)) else v) alone,
    )
  ]

-- The updates of one workflow, by their number.
module _ {R : Type 0} (group app property : Str) (names : ℕ → Str) (vals : ℕ → Fields) where
  abbrev pub updates : ℕ → Change (Workflow R)
  updates i = update_change group app property (names i) (vals i)

  run_all-components :
      (is : List ℕ) (c : Resources (Workflow R)) (wf : Workflow R) (m : Components)
      → c group app ≡ some wf
      → components wf property ≡ some m
      → (wf' : Workflow R) × (m' : Components) × (run_all updates is c group app ≡ some wf')
        × (components wf' property ≡ some m')
        × ((n : Str) → m' n ≡ last_value names vals n is (m n))
  unfolding run_all apply last_value
  run_all-components [] c wf m there h = (wf, m, there, h, λ n. refl)
  run_all-components (i ∷ is) c wf m there h =
      let (wf1, runs, holds) = set_component-refines property (names i) (vals i) wf m h in
      let at_ : apply (updates i) c group app ≡ some wf1 =
        ground (arith, str_eq_self group, str_eq_self app) in
      let (wf', m', e1, e2, e3) =
        run_all-components is (apply (updates i) c) wf1
          (update m (names i) (some (object (vals i)))) at_
          (holds property ∙ ground (arith, str_eq_self property)) in
      (wf', m', e1, e2, e3)

  -- No update is lost: where updates of components of different names run side by side, on a workflow that has
  -- the map of components, and an update has had its effect, the workflow holds the values of that update
  -- under its name.
  pub updates-kept :
      (c : Resources (Workflow R)) (s : System (Workflow R)) (wf : Workflow R) (m : Components)
      (i : ℕ)
      → c group app ≡ some wf
      → components wf property ≡ some m
      → ((j k : ℕ) → names j ≡ names k → j ≡ k)
      → Reach logic_app updates c s
      → effective (s.phase i) ≡ true
      → (wf' : Workflow R) × (m' : Components) × (s.cloud group app ≡ some wf')
        × (components wf' property ≡ some m')
        × (m' (names i) ≡ some (object (vals i)))
  updates-kept c s wf m i there h distinct reached effect =
      let (same, logged) = handlers-serial logic_app updates c s reached in
      let (wf', m', e1, e2, e3) = run_all-components s.log c wf m there h in
      (
        wf',
        m',
        ap (λ d. d group app) same ∙ e1,
        e2,
        e3 (names i)
            ∙ last_value-mem names vals i s.log (m (names i)) (λ j. distinct j i)
                (logged i ∙ effect),
      )
