-- ===== src/LogicApp/Model.antt =====
-- Workflows, and the changes of one component of a workflow's definition.
use terraform_provider_azure.Base.{
  ℕ, ◌≡◌, refl, ap, Bool, Option, none, some, [], ◌∷◌, Str, Dict, lookup, insert, erase, Outcome,
  ok, err, panic, ◌>>=◌,
}
use terraform_provider_azure.ResourceId.{IdError}

-- A dynamic value, as it stands in JSON; `null` is `nil`.
mutual
  pub data Json : Type 0 where
    null : Json
    flag : Bool → Json
    number : ℕ → Json
    text : Str → Json
    array : Items → Json
    object : Fields → Json

  pub data Items : Type 0 where
    no_items : Items
    item : Json → Items → Items

  pub data Fields : Type 0 where
    no_fields : Fields
    field : Str → Json → Fields → Fields

-- The fields of an object as a map, and back.
abbrev pub to_map : Fields → Dict Json
to_map no_fields = []
to_map (field k v fs) = (k, v) ∷ to_map fs

abbrev pub of_map : Dict Json → Fields
of_map [] = no_fields
of_map ((k, v) ∷ m) = field k v (of_map m)

pub to_map-of_map : (m : Dict Json) → to_map (of_map m) ≡ m
to_map-of_map [] = refl
to_map-of_map ((k, v) ∷ m) = ap (λ r. (k, v) ∷ r) (to_map-of_map m)

pub data LogicError : Type 0 where
  bad_id : IdError → LogicError
  workflow_missing get_failed put_failed no_properties no_definition : LogicError
  wrong_type no_inputs bad_inputs no_recurrence bad_recurrence bad_headers bad_json : LogicError

-- `logic.WorkflowProperties`; `rest` is what the handlers do not name.
pub record WorkflowProperties (R : Type 0) : Type 0 where
  pub definition : Json
  pub parameters : Option Json
  pub rest : Option R

pub record Workflow (R : Type 0) : Type 0 where
  pub id : Option Str
  pub location : Option Str
  pub tags : Dict Str
  pub properties : Option (WorkflowProperties R)

-- `x.(map[string]interface{})`, which panics on another type, and on nil.
abbrev pub as_map : {E : Type 0} → Json → Outcome E (Dict Json)
as_map (object fs) = ok (to_map fs)
as_map _ = panic

abbrev pub or_null : Option Json → Json
or_null none = null
or_null (some v) = v

abbrev pub is_null : Json → Option Json
is_null null = none
is_null v = some v

module _ {R : Type 0} where
  -- The properties, and the definition, which must not be nil.
  unfoldable pub definition_of : Workflow R → Outcome LogicError (WorkflowProperties R × Dict Json)
  definition_of wf = elim wf.properties [
    | none ↦ err no_properties
    | some p ↦ elim (is_null p.definition) [
      | none ↦ err no_definition
      | some v ↦ do m ← as_map v; ok (p, m)
    ]
  ]

  -- The workflow that is written: only these properties are sent.
  abbrev pub rewritten : Workflow R → WorkflowProperties R → Dict Json → Workflow R
  rewritten wf p m = record {
    id = none;
    location = wf.location;
    tags = wf.tags;
    properties =
        some (record { definition = object (of_map m); parameters = p.parameters; rest = none });
  }

  -- The definition with one of its maps of components changed.
  unfoldable pub change_components :
      Str → (Dict Json → Dict Json) → Workflow R → Outcome LogicError (Workflow R)
  unfolding definition_of
  change_components property change wf = do
    found ← definition_of wf
    vs ← as_map (or_null (lookup property found.1))
    ok (rewritten wf found.0 (insert property (object (of_map (change vs))) found.1))

  -- `vs[name] = vals`
  unfoldable pub set_component : Str → Str → Fields → Workflow R → Outcome LogicError (Workflow R)
  unfolding change_components
  set_component property name vals = change_components property (insert name (object vals))

  -- `delete(vs, name)`
  unfoldable pub delete_component : Str → Str → Workflow R → Outcome LogicError (Workflow R)
  unfolding change_components
  delete_component property name = change_components property (erase name)

  -- The component with the name, if it is there.
  unfoldable pub component : Str → Str → Workflow R → Outcome LogicError (Option (Dict Json))
  unfolding definition_of
  component property name wf = do
    found ← definition_of wf
    vs ← as_map (or_null (lookup property found.1))
    elim (is_null (or_null (lookup name vs))) [
      | none ↦ ok none
      | some v ↦ do m ← as_map v; ok (some m)
    ]
