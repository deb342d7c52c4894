-- ===== src/LogicApp/Tests.antt =====
-- The components of a workflow on a cloud that is a map.
use terraform_provider_azure.Base.{
  ◌≡◌, refl, true, none, some, [], ◌∷◌, if◌then◌else◌, Str, bytes, str_eq, lookup, insert, erase,
  get_or_empty, ok,
}
use terraform_provider_azure.Text.{
  split, trim_space, trim_prefix, trim_suffix, has_prefix, to_lower,
}
use terraform_provider_azure.Url.{parse_request_uri, before, unescape}
use terraform_provider_azure.ResourceId.{ResourceId, bare_path, segments, parse_azure_resource_id}
use terraform_provider_azure.Handler.{Api, Store, Env}
use terraform_provider_azure.Handler.MapCloud.{map_cloud, map_store, set_resource}
use terraform_provider_azure.Helpers.Tags.{TagValue}
use terraform_provider_azure.LogicApp.Model.{
  text, object, Fields, no_fields, field, to_map, Workflow, set_component,
}
use terraform_provider_azure.LogicApp.Component.{
  Data, actions, update_component, remove_component, retrieve_component,
}
use terraform_provider_azure.LogicApp.Refinement.{
  Components, update, components, set_component-refines,
}
use terraform_provider_azure.LogicApp.Lifecycle.{
  after_write, after_read, identified, update-retrieve-remove,
}
use terraform_provider_azure.LogicApp.Http.{HttpFields}

abbrev pub one_action : Fields
one_action = field (bytes "old") (object no_fields) no_fields

abbrev pub workflow : Workflow (Unit {0})
workflow = record {
  id = some (bytes "/w");
  location = none;
  tags = [];
  properties = some (record {
    definition = object (
        field (bytes "actions") (object one_action)
          (field (bytes "triggers") (object no_fields) no_fields));
    parameters = none;
    rest = none;
  });
}

abbrev pub old_components : Components
old_components name = lookup name (to_map one_action)

abbrev pub vals : Fields
vals = field (bytes "type") (text (bytes "http")) no_fields

pub workflow-components : components workflow actions ≡ some old_components
unfolding components lookup str_eq
workflow-components = refl

set_component-refines_example :
    (wf' : Workflow (Unit {0})) × (set_component actions (bytes "new") vals workflow ≡ ok wf')
    × ((other : Str)
        → components wf' other ≡ (
            if str_eq actions other
            then some (update old_components (bytes "new") (some (object vals)))
            else components workflow other))
set_component-refines_example =
    set_component-refines actions (bytes "new") vals workflow old_components workflow-components

abbrev pub workflow_cloud : Api (Workflow (Unit {0}))
workflow_cloud = map_cloud (Workflow (Unit {0}))

abbrev pub workflow_store : Store workflow_cloud
workflow_store = map_store (Workflow (Unit {0}))

abbrev pub app_id : Str
app_id = bytes "/subscriptions/1/resourceGroups/g/providers/Microsoft.Logic/workflows/app"

abbrev pub start : Env workflow_cloud (Data (Unit {0}))
start = record {
  cloud = set_resource (bytes "g") (bytes "app") workflow (λ g n. none);
  data_ = record { id = []; is_new = true; name = bytes "new"; logic_app_id = app_id; fields = tt };
  events = [];
}

abbrev pub app_parsed : ResourceId
app_parsed = record {
  subscription = bytes "1";
  group = bytes "g";
  provider = bytes "Microsoft.Logic";
  path = (bytes "workflows", bytes "app") ∷ [];
}

pub app_id_parsed : parse_azure_resource_id workflow_cloud.parse_authority app_id ≡ ok app_parsed
unfolding parse_azure_resource_id parse_request_uri bare_path segments split trim_space trim_prefix
    trim_suffix has_prefix to_lower before unescape str_eq lookup insert erase
app_id_parsed = refl

workflow_held : workflow_store.held start.cloud (bytes "g") (bytes "app") ≡ some workflow
unfolding str_eq
workflow_held = refl

app_named : get_or_empty (lookup (bytes "workflows") app_parsed.path) ≡ bytes "app"
unfolding lookup str_eq
app_named = refl

update-retrieve-remove_example :
    (a : Workflow (Unit {0})) × (b : Workflow (Unit {0})) × (e' : Env workflow_cloud
      (Data (Unit {0})))
    × (update_component workflow_cloud actions app_id (bytes "new") vals start ≡ (ok tt, e'))
    × (e' ≡ record (after_write workflow_cloud workflow_store (bytes "g") (bytes "app") a start) {
      data_ =
          identified workflow_cloud workflow_store
            (bytes "g")
            (bytes "app")
            (bytes "/w")
            actions
            (bytes "new")
            start.data_;
    })
    × (retrieve_component workflow_cloud actions (bytes "g") (bytes "app") (bytes "new") e' ≡ (
      ok (some (to_map vals, a)),
      after_read workflow_cloud workflow_store (bytes "g") (bytes "app") e',
    ))
    × (remove_component workflow_cloud actions (bytes "g") (bytes "app") (bytes "new") e'
        ≡ (ok tt, after_write workflow_cloud workflow_store (bytes "g") (bytes "app") b e'))
    × (retrieve_component workflow_cloud actions
          (bytes "g")
          (bytes "app")
          (bytes "new")
          (after_write workflow_cloud workflow_store (bytes "g") (bytes "app") b e')
        ≡ (
          ok none,
          after_read workflow_cloud workflow_store
              (bytes "g")
              (bytes "app")
              (after_write workflow_cloud workflow_store (bytes "g") (bytes "app") b e'),
        ))
    × ((other : Str)
        → components b other ≡ (
            if str_eq actions other
            then some (update old_components (bytes "new") none)
            else components workflow other))
update-retrieve-remove_example =
    update-retrieve-remove workflow_cloud workflow_store (bytes "g") (bytes "app") actions
      (bytes "new") (bytes "/w") vals start app_parsed workflow old_components app_id_parsed refl
      app_named workflow_held refl workflow-components

abbrev fields : HttpFields (Unit {0})
fields = record {
  method = bytes "GET";
  uri = bytes "http://example.com";
  body = [];
  headers = (bytes "Accept", TagValue.number tt) ∷ [];
}
