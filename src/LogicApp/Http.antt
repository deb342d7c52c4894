-- ===== src/LogicApp/Http.antt =====
-- The HTTP action: azurerm/resource_arm_logic_app_action_http.go. The formatting of an `int` header,
-- and Terraform's reading of a map of strings, are parameters.
use terraform_provider_azure.Base.{
  ◌≡◌, refl, not, Option, none, some, [], ◌∷◌, arith, ap, ◌∙◌, if◌then◌else◌, Str, bytes, str_eq,
  Dict, lookup, Outcome, ok, err, panic, ◌>>=◌, ◌>>◌, fail_if,
}
use terraform_provider_azure.Text.{to_lower}
use terraform_provider_azure.Authentication.Tokens.{equal_fold}
use terraform_provider_azure.Helpers.Tags.{TagValue, tag_value_to_string}
use terraform_provider_azure.LogicApp.Model.{
  Json, null, text, object, Fields, to_map, of_map, to_map-of_map, LogicError, wrong_type,
  no_inputs, bad_inputs, bad_headers, as_map, or_null, is_null,
}

pub record HttpFields (Int : Type 0) : Type 0 where
  pub method : Str
  pub uri : Str
  pub body : Str
  pub headers : Dict (TagValue Int)

-- `x.(string)`
abbrev pub as_text : {E : Type 0} → Json → Outcome E Str
as_text (text s) = ok s
as_text _ = panic

abbrev texts : Dict Str → Dict Json
texts [] = []
texts ((k, s) ∷ m) = (k, text s) ∷ texts m

-- `if v := m[key]; v != nil { d.Set(key, v.(string)) }`: the old value, or the new one.
unfoldable pub set_text : Str → Str → Dict Json → Outcome LogicError Str
set_text key old m = elim (is_null (or_null (lookup key m))) [ none ↦ ok old | some v ↦ as_text v ]

-- A value that must be there, and be an object.
abbrev pub object_or : LogicError → LogicError → Json → Outcome LogicError (Dict Json)
object_or absent wrong null = err absent
object_or absent wrong (object fs) = ok (to_map fs)
object_or absent wrong _ = err wrong

-- The inputs of a component.
unfoldable pub inputs_of : Dict Json → Outcome LogicError (Dict Json)
inputs_of action = object_or no_inputs bad_inputs (or_null (lookup (bytes "inputs") action))

module _ {Int : Type 0} (sprint : Int → Str) where
  -- `expandLogicAppActionHttpHeaders`
  unfoldable pub expand_headers : Dict (TagValue Int) → Outcome LogicError (Dict Str)
  expand_headers [] = ok []
  expand_headers ((k, v) ∷ m) =
      let rest = expand_headers m in
      elim (tag_value_to_string sprint v) [
        | none ↦ err bad_headers
        | some s ↦ do ws ← rest; ok ((k, s) ∷ ws)
      ]

  -- The inputs of the action that a create sends; an empty body is left out.
  abbrev http_inputs : HttpFields Int → Dict Str → Dict Json
  http_inputs d headers =
      (bytes "method", text d.method)
      ∷ (bytes "uri", text d.uri)
      ∷ (bytes "headers", object (of_map (texts headers)))
      ∷ (if str_eq d.body [] then [] else (bytes "body", text d.body) ∷ [])

  unfoldable pub expand_http : HttpFields Int → Outcome LogicError Fields
  unfolding expand_headers
  expand_http d = do
    headers ← expand_headers d.headers
    ok (
        of_map (
          (bytes "inputs", object (of_map (http_inputs d headers)))
          ∷ (bytes "type", text (bytes "http"))
          ∷ []))

  module _ (set_headers : Dict Json → Option (Dict (TagValue Int))) where
    unfoldable pub flatten_headers :
        Dict (TagValue Int) → Dict Json → Outcome LogicError (Dict (TagValue Int))
    flatten_headers old m = elim (is_null (or_null (lookup (bytes "headers") m))) [
      | none ↦ ok old
      | some v ↦ do
        hv ← as_map v
        elim (set_headers hv) [ none ↦ err bad_headers | some hs ↦ ok hs ]
    ]

    unfoldable pub flatten_inputs : Dict Json → HttpFields Int → Outcome LogicError (HttpFields Int)
    unfolding set_text flatten_headers
    flatten_inputs inputs d = do
      uri ← set_text (bytes "uri") d.uri inputs
      method ← set_text (bytes "method") d.method inputs
      body ← set_text (bytes "body") d.body inputs
      headers ← flatten_headers d.headers inputs
      ok (record { method = method; uri = uri; body = body; headers = headers })

    -- What a read makes of a retrieved action.
    unfoldable pub flatten_http : Dict Json → HttpFields Int → Outcome LogicError (HttpFields Int)
    unfolding flatten_inputs inputs_of
    flatten_http action d = do
      kind ← as_text (or_null (lookup (bytes "type") action))
      fail_if (not (equal_fold kind (bytes "http"))) wrong_type
      inputs ← inputs_of action
      flatten_inputs inputs d

    body-sent :
        (d : HttpFields Int) (body : Str) (headers : Dict Str)
        → set_text (bytes "body") body (http_inputs (record d { body = body }) headers) ≡ ok body
    unfolding set_text lookup str_eq
    body-sent d [] headers = refl
    body-sent d (c ∷ s) headers = refl

    headers-sent :
        (d : HttpFields Int) (headers : Dict Str) (hs : Dict (TagValue Int))
        → set_headers (texts headers) ≡ some hs
        → flatten_headers d.headers (http_inputs d headers) ≡ ok hs
    unfolding flatten_headers lookup str_eq
    headers-sent d headers hs h = rw (to_map-of_map (texts headers), h) refl

    first-sent :
        (d : HttpFields Int) (headers : Dict Str)
        → (set_text (bytes "uri") d.uri (http_inputs d headers) ≡ ok d.uri)
          × (set_text (bytes "method") d.method (http_inputs d headers) ≡ ok d.method)
    unfolding set_text lookup str_eq
    first-sent d headers = (refl, refl)

    inputs-sent :
        (d : HttpFields Int) (headers : Dict Str) (hs : Dict (TagValue Int))
        → set_headers (texts headers) ≡ some hs
        → flatten_inputs (http_inputs d headers) d ≡ ok (record d { headers = hs })
    unfolding flatten_inputs
    inputs-sent d headers hs h =
        let (uri_sent, method_sent) = first-sent d headers in
        ground
          (arith, uri_sent, method_sent, body-sent d d.body headers, headers-sent d headers hs h)

    -- An action that is retrieved as it was sent leaves the method, the URI and the body of the
    -- configuration as they are, also a body that was not sent; the headers are what Terraform
    -- reads from the expanded ones.
    pub flatten_http-expand_http :
        (d : HttpFields Int) (headers : Dict Str) (hs : Dict (TagValue Int))
        → expand_headers d.headers ≡ ok headers
        → set_headers (texts headers) ≡ some hs
        → (fs : Fields) × (expand_http d ≡ ok fs)
          × (flatten_http (to_map fs) d ≡ ok (record d { headers = hs }))
    unfolding expand_http flatten_http inputs_of lookup str_eq equal_fold to_lower
    flatten_http-expand_http d headers hs h1 h2 = (
      of_map (
          (bytes "inputs", object (of_map (http_inputs d headers)))
          ∷ (bytes "type", text (bytes "http"))
          ∷ []),
      rw h1 refl,
      ap (λ m. flatten_inputs m d) (to_map-of_map (http_inputs d headers))
          ∙ inputs-sent d headers hs h2,
    )
