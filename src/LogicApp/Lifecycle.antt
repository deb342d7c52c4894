-- ===== src/LogicApp/Lifecycle.antt =====
-- The handlers of components on a cloud that holds what is put.
use terraform_provider_azure.Base.{
  ◌≡◌, refl, Option, none, some, [], ◌∷◌, ◌++◌, arith, ◌∙◌, if◌then◌else◌, Str, str_eq, str_eq_self,
  Dict, ok, bytes, lookup, get_or_empty, Bool-cases,
}
use mathlib.Core.Path.{fun_ext}
use terraform_provider_azure.ResourceId.{ResourceId, parse_azure_resource_id}
use terraform_provider_azure.Locks.Handlers.{key_of}
use terraform_provider_azure.Handler.{Api, Store, Env, lock, unlock, written}
use terraform_provider_azure.LogicApp.Model.{
  Json, object, Fields, to_map, Workflow, set_component, delete_component, component,
}
use terraform_provider_azure.LogicApp.Component.{
  Data, logic_app, update_body, update_component, remove_body, remove_component, retrieve_body,
  retrieve_component,
}
use terraform_provider_azure.LogicApp.Refinement.{
  Components, update, components, set_component-refines, delete_component-refines,
  component-refines,
}

update-update :
    (m : Components) (name : Str) (v w : Option Json)
    → update (update m name v) name w ≡ update m name w
update-update m name v w = fun_ext λ n. ground arith

module _ {R F : Type 0} (api : Api (Workflow R)) (store : Store api) (group app : Str) where
  -- The state of a handler behind the lock, one write of the workflow, and the unlock.
  abbrev pub after_write : Workflow R → Env api (Data F) → Env api (Data F)
  after_write wf e = record e {
    cloud = store.put group app wf e.cloud;
    events =
        ((e.events ++ lock (key_of app logic_app) ∷ []) ++ written group app wf ∷ [])
        ++ unlock (key_of app logic_app) ∷ [];
  }

  abbrev pub after_read : Env api (Data F) → Env api (Data F)
  after_read e = record e {
    events = (e.events ++ lock (key_of app logic_app) ∷ []) ++ unlock (key_of app logic_app) ∷ [];
  }

  -- The ID of a new component's resource.
  abbrev pub identified : Str → Str → Str → Data F → Data F
  identified own property name d =
      if d.is_new then record d { id = own ++ b'/' ∷ property ++ b'/' ∷ name } else d

  update-after_write :
      (property name own : Str) (vals : Fields) (e : Env api (Data F)) (id : ResourceId)
      (wf wf' : Workflow R)
      → parse_azure_resource_id api.parse_authority e.data_.logic_app_id ≡ ok id
      → id.group ≡ group
      → get_or_empty (lookup (bytes "workflows") id.path) ≡ app
      → store.held e.cloud group app ≡ some wf
      → wf.id ≡ some own
      → set_component property name vals wf ≡ ok wf'
      → update_component api property e.data_.logic_app_id name vals e
        ≡ (ok tt, record (after_write wf' e) { data_ = identified own property name e.data_ })
  unfolding update_component update_body
  update-after_write property name own vals e id wf wf' h1 h2 h3 h4 h5 h6 = ground (
    arith,
    store.get_held group app e.cloud,
    store.create_put group app wf' e.cloud,
    Bool-cases e.data_.is_new,
  )

  remove-after_write :
      (property name : Str) (e : Env api (Data F)) (wf wf' : Workflow R)
      → store.held e.cloud group app ≡ some wf
      → delete_component property name wf ≡ ok wf'
      → remove_component api property group app name e ≡ (ok tt, after_write wf' e)
  unfolding remove_component remove_body
  remove-after_write property name e wf wf' h1 h2 =
      ground (arith, store.get_held group app e.cloud, store.create_put group app wf' e.cloud)

  retrieve-some :
      (property name : Str) (e : Env api (Data F)) (wf : Workflow R) (v : Dict Json)
      → store.held e.cloud group app ≡ some wf
      → component property name wf ≡ ok (some v)
      → retrieve_component api property group app name e ≡ (ok (some (v, wf)), after_read e)
  unfolding retrieve_component retrieve_body
  retrieve-some property name e wf v h1 h2 = ground (arith, store.get_held group app e.cloud)

  retrieve-none :
      (property name : Str) (e : Env api (Data F)) (wf : Workflow R)
      → store.held e.cloud group app ≡ some wf
      → component property name wf ≡ ok none
      → retrieve_component api property group app name e ≡ (ok none, after_read e)
  unfolding retrieve_component retrieve_body
  retrieve-none property name e wf h1 h2 = ground (arith, store.get_held group app e.cloud)

  held-after_write :
      (wf : Workflow R) (e : Env api (Data F))
      → store.held (after_write wf e).cloud group app ≡ some wf
  held-after_write wf e =
      ground
        (arith, store.held_put group app group app wf e.cloud, str_eq_self group, str_eq_self app)

  -- On a cloud that holds the workflow, with the property's map of components: an update writes the workflow
  -- once, under its lock, and returns; a retrieval then gives the values of the update; a removal
  -- returns, and a retrieval after it gives nothing. All other components are as before.
  pub update-retrieve-remove :
      (property name own : Str) (vals : Fields) (e : Env api (Data F)) (id : ResourceId)
      (wf : Workflow R) (m : Components)
      → parse_azure_resource_id api.parse_authority e.data_.logic_app_id ≡ ok id
      → id.group ≡ group
      → get_or_empty (lookup (bytes "workflows") id.path) ≡ app
      → store.held e.cloud group app ≡ some wf
      → wf.id ≡ some own
      → components wf property ≡ some m
      → (a : Workflow R) × (b : Workflow R) × (e' : Env api (Data F)) × (update_component api
            property e.data_.logic_app_id name vals e
          ≡ (ok tt, e'))
        × (e' ≡ record (after_write a e) { data_ = identified own property name e.data_ })
        × (retrieve_component api property group app name e'
            ≡ (ok (some (to_map vals, a)), after_read e'))
        × (remove_component api property group app name e' ≡ (ok tt, after_write b e'))
        × (retrieve_component api property group app name (after_write b e')
            ≡ (ok none, after_read (after_write b e')))
        × ((other : Str)
            → components b other
              ≡ (if str_eq property other then some (update m name none) else components wf other))
  update-retrieve-remove property name own vals e id wf m h1 h2 h3 h4 h5 h6 =
      let (a, ra, sa) = set_component-refines property name vals wf m h6 in
      let at_a : components a property ≡ some (update m name (some (object vals))) =
        sa property ∙ ground (arith, str_eq_self property) in
      let (b, rb, sb) = delete_component-refines property name a _ at_a in
      let at_b : components b property
          ≡ some (update (update m name (some (object vals))) name none) =
        sb property ∙ ground (arith, str_eq_self property) in
      let e' : Env api (Data F) = record (after_write a e) {
        data_ = identified own property name e.data_;
      } in
      let there : store.held e'.cloud group app ≡ some a = held-after_write a e in
      (
        a,
        b,
        e',
        update-after_write property name own vals e id wf a h1 h2 h3 h4 h5 ra,
        refl,
        retrieve-some property name e' a (to_map vals) there
            (component-refines property name a _ at_a ∙ ground (arith, str_eq_self name)),
        remove-after_write property name e' a b there rb,
        retrieve-none property name (after_write b e') b (held-after_write b e')
            (component-refines property name b _ at_b ∙ ground (arith, str_eq_self name)),
        λ other. ground (arith, sa other, sb other, update-update m name (some (object vals)) none),
      )
