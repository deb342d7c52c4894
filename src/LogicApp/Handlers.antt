-- ===== src/LogicApp/Handlers.antt =====
-- The handlers of the five resources.
use terraform_provider_azure.Base.{Option, Str, Dict}
use terraform_provider_azure.Helpers.Tags.{TagValue}
use terraform_provider_azure.Handler.{Api, Action}
use terraform_provider_azure.LogicApp.Model.{Json, Fields, LogicError, Workflow}
use terraform_provider_azure.LogicApp.Component.{Data}
use terraform_provider_azure.LogicApp.Http.{HttpFields}
use terraform_provider_azure.LogicApp.Resource.{save_resource, read_resource, delete_resource}
use terraform_provider_azure.LogicApp.Kinds.{
  RecurrenceFields, RequestFields, action_http_kind, action_custom_kind, trigger_custom_kind,
  trigger_recurrence_kind, trigger_request_kind,
}

module _ {R : Type 0} (api : Api (Workflow R)) where
  module _ {Int : Type 0} (sprint : Int → Str)
      (set_headers : Dict Json → Option (Dict (TagValue Int))) where
    abbrev action_http_save : Action api (Data (HttpFields Int)) LogicError (Unit {0})
    action_http_save = save_resource (action_http_kind sprint set_headers) api

    abbrev action_http_read : Action api (Data (HttpFields Int)) LogicError (Unit {0})
    action_http_read = read_resource (action_http_kind sprint set_headers) api

    abbrev action_http_delete : Action api (Data (HttpFields Int)) LogicError (Unit {0})
    action_http_delete = delete_resource (action_http_kind sprint set_headers) api

  module _ (unmarshal : Str → Option Fields) (marshal : Json → Option Str) where
    abbrev action_custom_save : Action api (Data Str) LogicError (Unit {0})
    action_custom_save = save_resource (action_custom_kind unmarshal marshal) api

    abbrev action_custom_read : Action api (Data Str) LogicError (Unit {0})
    action_custom_read = read_resource (action_custom_kind unmarshal marshal) api

    abbrev action_custom_delete : Action api (Data Str) LogicError (Unit {0})
    action_custom_delete = delete_resource (action_custom_kind unmarshal marshal) api

    abbrev trigger_custom_save : Action api (Data Str) LogicError (Unit {0})
    trigger_custom_save = save_resource (trigger_custom_kind unmarshal marshal) api

    abbrev trigger_custom_read : Action api (Data Str) LogicError (Unit {0})
    trigger_custom_read = read_resource (trigger_custom_kind unmarshal marshal) api

    abbrev trigger_custom_delete : Action api (Data Str) LogicError (Unit {0})
    trigger_custom_delete = delete_resource (trigger_custom_kind unmarshal marshal) api

    abbrev trigger_request_save : Action api (Data RequestFields) LogicError (Unit {0})
    trigger_request_save = save_resource (trigger_request_kind unmarshal marshal) api

    abbrev trigger_request_read : Action api (Data RequestFields) LogicError (Unit {0})
    trigger_request_read = read_resource (trigger_request_kind unmarshal marshal) api

    abbrev trigger_request_delete : Action api (Data RequestFields) LogicError (Unit {0})
    trigger_request_delete = delete_resource (trigger_request_kind unmarshal marshal) api

  abbrev trigger_recurrence_save : Action api (Data RecurrenceFields) LogicError (Unit {0})
  trigger_recurrence_save = save_resource trigger_recurrence_kind api

  abbrev trigger_recurrence_read : Action api (Data RecurrenceFields) LogicError (Unit {0})
  trigger_recurrence_read = read_resource trigger_recurrence_kind api

  abbrev trigger_recurrence_delete : Action api (Data RecurrenceFields) LogicError (Unit {0})
  trigger_recurrence_delete = delete_resource trigger_recurrence_kind api
