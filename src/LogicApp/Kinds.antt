-- ===== src/LogicApp/Kinds.antt =====
-- The five resources: azurerm/resource_arm_logic_app_action_{http,custom}.go and
-- azurerm/resource_arm_logic_app_trigger_{custom,recurrence,http_request}.go. Reading and writing JSON texts is
-- a parameter. A number stands for the `float64` that is decoded, which an `int` keeps below 2^53.
use terraform_provider_azure.Base.{
  ℕ, ◌≡◌, refl, Option, none, some, [], ◌∷◌, ◌++◌, Str, bytes, str_eq, Dict, lookup, Outcome, ok,
  err, panic, ◌>>=◌,
}
use terraform_provider_azure.Helpers.Tags.{TagValue}
use terraform_provider_azure.LogicApp.Model.{
  Json, number, text, object, Fields, to_map, of_map, LogicError, no_recurrence, bad_recurrence,
  bad_json, or_null, is_null,
}
use terraform_provider_azure.LogicApp.Component.{actions, triggers}
use terraform_provider_azure.LogicApp.Http.{
  HttpFields, set_text, object_or, inputs_of, expand_http, flatten_http,
}
use terraform_provider_azure.LogicApp.Resource.{ComponentKind}

pub record RecurrenceFields : Type 0 where
  pub frequency : Str
  pub interval : ℕ

-- `x.(float64)`, as an `int`
abbrev as_number : Json → Outcome LogicError ℕ
as_number (number n) = ok n
as_number _ = panic

unfoldable pub set_number : Str → ℕ → Dict Json → Outcome LogicError ℕ
set_number key old m = elim (is_null (or_null (lookup key m))) [
  | none ↦ ok old
  | some v ↦ as_number v
]

unfoldable pub expand_recurrence : RecurrenceFields → Outcome LogicError Fields
expand_recurrence d = ok (
    of_map (
      (
        bytes "recurrence",
        object (
            of_map
              ((bytes "frequency", text d.frequency) ∷ (bytes "interval", number d.interval) ∷ [])),
      )
      ∷ (bytes "type", text (bytes "Recurrence"))
      ∷ []))

unfoldable pub flatten_recurrence :
    Dict Json → RecurrenceFields → Outcome LogicError RecurrenceFields
unfolding set_number
flatten_recurrence trigger d = do
  recurrence ←
      object_or no_recurrence bad_recurrence (or_null (lookup (bytes "recurrence") trigger))
  frequency ← set_text (bytes "frequency") d.frequency recurrence
  interval ← set_number (bytes "interval") d.interval recurrence
  ok (record { frequency = frequency; interval = interval })

-- A trigger that is retrieved as it was sent gives back the frequency and the interval, whatever the state
-- held before.
pub flatten_recurrence-expand_recurrence :
    (d old : RecurrenceFields)
    → (fs : Fields) × (expand_recurrence d ≡ ok fs) × (flatten_recurrence (to_map fs) old ≡ ok d)
unfolding expand_recurrence flatten_recurrence set_text set_number lookup str_eq
flatten_recurrence-expand_recurrence d old = (_, refl, refl)

pub record RequestFields : Type 0 where
  pub schema : Str
  pub method : Str
  pub relative_path : Str

-- `if v, ok := d.GetOk(…); ok { inputs[key] = v }`
abbrev optional_text : Str → Str → Dict Json
optional_text key [] = []
optional_text key (c ∷ s) = (key, text (c ∷ s)) ∷ []

module _ (unmarshal : Str → Option Fields) (marshal : Json → Option Str) where
  unfoldable pub expand_custom : Str → Outcome LogicError Fields
  expand_custom body = elim (unmarshal body) [ none ↦ err bad_json | some fs ↦ ok fs ]

  unfoldable pub flatten_custom : Dict Json → Str → Outcome LogicError Str
  flatten_custom action body = elim (marshal (object (of_map action))) [
    | none ↦ err bad_json
    | some s ↦ ok s
  ]

  unfoldable pub expand_request : RequestFields → Outcome LogicError Fields
  expand_request d = elim (unmarshal d.schema) [
    | none ↦ err bad_json
    | some schema ↦ ok (
        of_map (
          (
            bytes "inputs",
            object (
                of_map (
                  (bytes "schema", object schema)
                  ∷ (optional_text (bytes "method") d.method
                      ++ optional_text (bytes "relativePath") d.relative_path))),
          )
          ∷ (bytes "kind", text (bytes "Http"))
          ∷ (bytes "type", text (bytes "Request"))
          ∷ []))
  ]

  unfoldable pub flatten_request : Dict Json → RequestFields → Outcome LogicError RequestFields
  flatten_request trigger d = do
    inputs ← inputs_of trigger
    method ← set_text (bytes "method") d.method inputs
    relative_path ← set_text (bytes "relativePath") d.relative_path inputs
    schema ← elim (is_null (or_null (lookup (bytes "schema") inputs))) [
      | none ↦ ok d.schema
      | some v ↦ elim (marshal v) [ none ↦ err bad_json | some s ↦ ok s ]
    ]
    ok (record { schema = schema; method = method; relative_path = relative_path })

  abbrev pub action_custom_kind : ComponentKind Str
  action_custom_kind = record {
    property = actions;
    expand = expand_custom;
    flatten = flatten_custom;
  }

  abbrev pub trigger_custom_kind : ComponentKind Str
  trigger_custom_kind = record {
    property = triggers;
    expand = expand_custom;
    flatten = flatten_custom;
  }

  abbrev pub trigger_request_kind : ComponentKind RequestFields
  trigger_request_kind = record {
    property = triggers;
    expand = expand_request;
    flatten = flatten_request;
  }

abbrev pub trigger_recurrence_kind : ComponentKind RecurrenceFields
trigger_recurrence_kind = record {
  property = triggers;
  expand = expand_recurrence;
  flatten = flatten_recurrence;
}

abbrev pub action_http_kind :
    {Int : Type 0}
    → (Int → Str)
    → (Dict Json → Option (Dict (TagValue Int)))
    → ComponentKind (HttpFields Int)
action_http_kind sprint set_headers = record {
  property = actions;
  expand = expand_http sprint;
  flatten = flatten_http sprint set_headers;
}
