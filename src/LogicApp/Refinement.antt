-- ===== src/LogicApp/Refinement.antt =====
-- A workflow as maps of components: for `actions` and for `triggers`, a map from names. The changes of a
-- workflow are changes of one entry of one map.
use terraform_provider_azure.Base.{
  ◌≡◌, refl, Option, none, some, arith, ap, ◌∙◌, sym, inl, inr, Option-cases, if◌then◌else◌, Str,
  str_eq, Dict, lookup, insert, erase, lookup-insert, lookup-erase, Outcome, ok, panic, ◌>>=◌,
}
use mathlib.Core.Path.{fun_ext}
use terraform_provider_azure.LogicApp.Model.{
  Json, null, flag, number, text, array, object, Fields, to_map, of_map, to_map-of_map, LogicError,
  WorkflowProperties, Workflow, as_map, or_null, is_null, definition_of, rewritten,
  change_components, set_component, delete_component, component,
}

-- The components of one property.
abbrev pub Components : Type 0
Components = Str → Option Json

abbrev pub update : Components → Str → Option Json → Components
update m name v other = if str_eq name other then v else m other

abbrev object_of : Json → Option Fields
object_of (object fs) = some fs
object_of _ = none

object_of-eq-some : (v : Json) (fs : Fields) → object_of v ≡ some fs → v ≡ object fs
object_of-eq-some (object gs) fs h = ground arith
object_of-eq-some null fs h = cc
object_of-eq-some (flag b) fs h = cc
object_of-eq-some (number n) fs h = cc
object_of-eq-some (text s) fs h = cc
object_of-eq-some (array xs) fs h = cc

value_or : {A : Type 0} → A → Option A → A
value_or a none = a
value_or a (some b) = b

same_value : {A : Type 0} (o : Option A) (a b : A) → o ≡ some a → o ≡ some b → a ≡ b
unfolding value_or
same_value o a b h h' = ap (value_or a) (sym h ∙ h')

-- The map of components under a property of a definition.
abbrev under : Str → Dict Json → Option Components
under property m = elim (object_of (or_null (lookup property m))) [
  | none ↦ none
  | some vs ↦ some (λ name. lookup name (to_map vs))
]

under-insert :
    (property other : Str) (vs m : Dict Json)
    → under other (insert property (object (of_map vs)) m)
      ≡ (if str_eq property other then some (λ name. lookup name vs) else under other m)
under-insert property other vs m =
    ground (arith, lookup-insert property other (object (of_map vs)) m, to_map-of_map vs)

-- What a retrieval makes of a value: a component is an object.
abbrev pub retrieved : Json → Outcome LogicError (Option (Dict Json))
retrieved null = ok none
retrieved (object fs) = ok (some (to_map fs))
retrieved _ = panic

retrieved_lem :
    (v : Json)
    → elim (is_null v) [ none ↦ ok none | some w ↦ do m ← as_map w; ok (some m) ] ≡ retrieved v
retrieved_lem null = refl
retrieved_lem (flag b) = refl
retrieved_lem (number n) = refl
retrieved_lem (text s) = refl
retrieved_lem (array xs) = refl
retrieved_lem (object fs) = refl

module _ {R : Type 0} where
  unfoldable pub components : Workflow R → Str → Option Components
  components wf property = elim wf.properties [
    | none ↦ none
    | some p ↦ elim (object_of p.definition) [ none ↦ none | some fs ↦ under property (to_map fs) ]
  ]

  -- What a workflow with components under a property holds.
  record HasComponents (wf : Workflow R) (property : Str) (m : Components) : Type 0 where
    p : WorkflowProperties R
    defined : Fields
    vs : Fields
    has_properties : wf.properties ≡ some p
    is_object : p.definition ≡ object defined
    at_property : or_null (lookup property (to_map defined)) ≡ object vs
    means : (λ name. lookup name (to_map vs)) ≡ m

  components-HasComponents :
      (wf : Workflow R) (property : Str) (m : Components)
      → components wf property ≡ some m
      → HasComponents wf property m
  unfolding components
  components-HasComponents wf property m h = elim (Option-cases wf.properties) [
    | inl e ↦ ground arith
    | inr (q, e) ↦ elim (Option-cases (object_of q.definition)) [
      | inl e1 ↦ ground arith
      | inr (fs, e1) ↦ elim (Option-cases (object_of (or_null (lookup property (to_map fs))))) [
        | inl e2 ↦ ground arith
        | inr (ws, e2) ↦ record {
          p = q;
          defined = fs;
          vs = ws;
          has_properties = e;
          is_object = object_of-eq-some q.definition fs e1;
          at_property = object_of-eq-some _ ws e2;
          means = same_value (components wf property) _ m (ground arith) h;
        }
      ]
    ]
  ]

  -- A change that is known on maps.
  change-refines :
      (property : Str) (change : Dict Json → Dict Json) (changed m : Components) (wf : Workflow R)
      → components wf property ≡ some m
      → ((vs : Dict Json)
          → (λ name. lookup name vs) ≡ m
          → (λ name. lookup name (change vs)) ≡ changed)
      → (wf' : Workflow R) × (change_components property change wf ≡ ok wf')
        × ((other : Str)
            → components wf' other
              ≡ (if str_eq property other then some changed else components wf other))
  unfolding change_components definition_of components
  change-refines property change changed m wf h on_maps =
      let c = components-HasComponents wf property m h in
      (
        rewritten wf c.p
            (insert property (object (of_map (change (to_map c.vs)))) (to_map c.defined)),
        ground (arith, c.has_properties, c.is_object, c.at_property),
        λ other.
            ap (under other) (to_map-of_map _)
            ∙ under-insert property other (change (to_map c.vs)) (to_map c.defined)
            ∙ ground (arith, on_maps (to_map c.vs) c.means, c.has_properties, c.is_object),
      )

  -- An update puts the component under its name, and changes no other component of any property. It
  -- returns for every workflow whose definition has the map of components.
  pub set_component-refines :
      (property name : Str) (vals : Fields) (wf : Workflow R) (m : Components)
      → components wf property ≡ some m
      → (wf' : Workflow R) × (set_component property name vals wf ≡ ok wf')
        × ((other : Str)
            → components wf' other ≡ (
                if str_eq property other
                then some (update m name (some (object vals)))
                else components wf other))
  unfolding set_component
  set_component-refines property name vals wf m h =
      change-refines property (insert name (object vals)) _ m wf h λ vs e. fun_ext λ other.
        lookup-insert name other (object vals) vs
        ∙ ap (λ f. update f name (some (object vals)) other) e

  -- A removal takes the component of the name away, and changes no other.
  pub delete_component-refines :
      (property name : Str) (wf : Workflow R) (m : Components)
      → components wf property ≡ some m
      → (wf' : Workflow R) × (delete_component property name wf ≡ ok wf')
        × ((other : Str)
            → components wf' other
              ≡ (if str_eq property other then some (update m name none) else components wf other))
  unfolding delete_component
  delete_component-refines property name wf m h =
      change-refines property (erase name) _ m wf h
        λ vs e. fun_ext λ other. lookup-erase name other vs ∙ ap (λ f. update f name none other) e

  -- A retrieval gives the component of the name.
  pub component-refines :
      (property name : Str) (wf : Workflow R) (m : Components)
      → components wf property ≡ some m
      → component property name wf ≡ retrieved (or_null (m name))
  unfolding component definition_of
  component-refines property name wf m h =
      let c = components-HasComponents wf property m h in
      ground (
        arith,
        c.has_properties,
        c.is_object,
        c.at_property,
        ap (λ f. f name) c.means,
        retrieved_lem (or_null (m name)),
      )
