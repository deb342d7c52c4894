-- ===== src/LogicApp/Resource.antt =====
-- The handlers of a resource that is one component of a logic app. The five resources differ in
-- where the component lives, in what they send and in what they read; a `ComponentKind` says how.
use terraform_provider_azure.Base.{
  none, some, [], Str, bytes, Dict, lookup, get_or_empty, Outcome, wrap,
}
use terraform_provider_azure.ResourceId.{ResourceId, parse_azure_resource_id}
use terraform_provider_azure.Handler.{Api, Action, ◌>>=◌, ◌>>◌, lift, gets, modify}
use terraform_provider_azure.LogicApp.Model.{Json, Fields, LogicError, bad_id, Workflow}
use terraform_provider_azure.LogicApp.Component.{
  Data, update_component, remove_component, retrieve_component,
}

-- The property of the definition, which is also the key of the name in the resource's ID; the value that is
-- sent; and the fields that are read from a retrieved value.
pub record ComponentKind (F : Type 0) : Type 0 where
  pub property : Str
  pub expand : F → Outcome LogicError Fields
  pub flatten : Dict Json → F → Outcome LogicError F

module _ {R F : Type 0} (kind : ComponentKind F) (api : Api (Workflow R)) where
  -- The parts of the resource's ID.
  own_id : Action api (Data F) LogicError ResourceId
  own_id = do
    own ← gets (λ d. d.id)
    lift (wrap bad_id (parse_azure_resource_id api.parse_authority own))

  -- `resourceArmLogicApp…Read`
  unfoldable pub read_resource : Action api (Data F) LogicError (Unit {0})
  unfolding own_id
  read_resource = do
    id ← own_id
    let name = get_or_empty (lookup kind.property id.path)
    t ←
        retrieve_component api kind.property id.group
          (get_or_empty (lookup (bytes "workflows") id.path)) name
    elim t [
      | none ↦ modify (λ d. record d { id = [] })
      | some (m, wf) ↦ do
        modify (λ d. record d { name = name; logic_app_id = get_or_empty wf.id })
        old ← gets (λ d. d.fields)
        new ← lift (kind.flatten m old)
        modify (λ d. record d { fields = new })
    ]

  -- `resourceArmLogicApp…CreateUpdate`
  unfoldable pub save_resource : Action api (Data F) LogicError (Unit {0})
  unfolding read_resource
  save_resource = do
    fields ← gets (λ d. d.fields)
    vals ← lift (kind.expand fields)
    logic_app_id ← gets (λ d. d.logic_app_id)
    name ← gets (λ d. d.name)
    update_component api kind.property logic_app_id name vals
    read_resource

  -- `resourceArmLogicApp…Delete`
  unfoldable pub delete_resource : Action api (Data F) LogicError (Unit {0})
  unfolding own_id
  delete_resource = do
    id ← own_id
    remove_component api kind.property id.group (get_or_empty (lookup (bytes "workflows") id.path))
        (get_or_empty (lookup kind.property id.path))
