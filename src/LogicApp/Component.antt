-- ===== src/LogicApp/Component.antt =====
-- The handlers that read and write one component of a logic app.
use terraform_provider_azure.Base.{
  Bool, Option, none, some, [], ◌∷◌, ◌++◌, if◌then◌else◌, Str, bytes, Dict, lookup, get_or_empty,
  ok, err, wrap, deref,
}
use terraform_provider_azure.ResourceId.{parse_azure_resource_id}
use terraform_provider_azure.Handler.{
  Api, Action, found, missing, failed, ◌>>=◌, ◌>>◌, lift, pure, gets, modify, with_lock_by_name,
  get, put,
}
use terraform_provider_azure.LogicApp.Model.{
  Json, Fields, LogicError, bad_id, workflow_missing, get_failed, put_failed, Workflow,
  set_component, delete_component, component,
}

-- The state of the resource of a component; `fields` are those of its own type.
pub record Data (F : Type 0) : Type 0 where
  pub id : Str
  pub is_new : Bool
  pub name : Str
  pub logic_app_id : Str
  pub fields : F

abbrev pub logic_app : Str
logic_app = bytes "azurerm_logic_app"

abbrev pub actions : Str
actions = bytes "actions"

abbrev pub triggers : Str
triggers = bytes "triggers"

module _ {R F : Type 0} (api : Api (Workflow R)) where
  -- What the update does under the lock.
  unfoldable pub update_body :
      Str → Str → Str → Str → Fields → Action api (Data F) LogicError (Unit {0})
  update_body property group app name vals = do
    answer ← get group app
    elim answer [
      | missing ↦ lift (err workflow_missing)
      | failed ↦ lift (err get_failed)
      | found wf ↦ do
        changed ← lift (set_component property name vals wf)
        put group app changed put_failed
        is_new ← gets (λ d. d.is_new)
        own ← lift (if is_new then deref wf.id else ok [])
        modify (λ d. if is_new then record d { id = own ++ b'/' ∷ property ++ b'/' ∷ name } else d)
    ]

  -- `resourceLogicAppComponentUpdate`
  unfoldable pub update_component :
      Str → Str → Str → Fields → Action api (Data F) LogicError (Unit {0})
  unfolding update_body
  update_component property logic_app_id name vals = do
    id ← lift (wrap bad_id (parse_azure_resource_id api.parse_authority logic_app_id))
    let app = get_or_empty (lookup (bytes "workflows") id.path)
    with_lock_by_name app logic_app (update_body property id.group app name vals)

  -- What the removal does under the lock.
  unfoldable pub remove_body : Str → Str → Str → Str → Action api (Data F) LogicError (Unit {0})
  remove_body property group app name = do
    answer ← get group app
    elim answer [
      | missing ↦ modify (λ d. record d { id = [] })
      | failed ↦ lift (err get_failed)
      | found wf ↦ do
        changed ← lift (delete_component property name wf)
        put group app changed put_failed
    ]

  -- `resourceLogicAppComponentRemove`
  unfoldable pub remove_component :
      Str → Str → Str → Str → Action api (Data F) LogicError (Unit {0})
  unfolding remove_body
  remove_component property group app name =
      with_lock_by_name app logic_app (remove_body property group app name)

  -- What the retrieval does under the lock.
  unfoldable pub retrieve_body :
      Str → Str → Str → Str → Action api (Data F) LogicError (Option (Dict Json × Workflow R))
  retrieve_body property group app name = do
    answer ← get group app
    elim answer [
      | missing ↦ pure none
      | failed ↦ lift (err get_failed)
      | found wf ↦ do
        v ← lift (component property name wf)
        elim v [ none ↦ pure none | some m ↦ pure (some (m, wf)) ]
    ]

  -- `retrieveLogicAppComponent`
  unfoldable pub retrieve_component :
      Str → Str → Str → Str → Action api (Data F) LogicError (Option (Dict Json × Workflow R))
  unfolding retrieve_body
  retrieve_component property group app name =
      with_lock_by_name app logic_app (retrieve_body property group app name)
