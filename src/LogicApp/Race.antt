-- ===== src/LogicApp/Race.antt =====
-- Two updates of one workflow: the first has its effect while the second waits.
use terraform_provider_azure.Base.{
  ℕ, ◌≡◌, refl, true, none, some, [], ◌∷◌, ◌++◌, arith, Str, bytes, str_eq, lookup, insert,
}
use terraform_provider_azure.Handler.Interleaving.{
  Change, locked, fetched, finished, Resources, put_at, System, set_phase, set_owner, key, acquires,
  reads, writes, started, Reach, at_start, then_step, run_all,
}
use terraform_provider_azure.Handler.Serial.{mem, effective, handlers-serial}
use terraform_provider_azure.LogicApp.Model.{
  object, Fields, no_fields, field, text, Workflow, set_component, change_components, definition_of,
}
use terraform_provider_azure.LogicApp.Component.{logic_app, actions}
use terraform_provider_azure.LogicApp.Refinement.{Components, components}
use terraform_provider_azure.LogicApp.Tests.{workflow, old_components, workflow-components}
use terraform_provider_azure.LogicApp.Concurrent.{updates, updates-kept}

-- The names of the components are their numbers, as bytes.
abbrev names : ℕ → Str
names i = i ∷ []

abbrev values : ℕ → Fields
values i = field (names i) (text (names i)) no_fields

abbrev ops : ℕ → Change (Workflow (Unit {0}))
ops = updates (bytes "g") (bytes "app") actions names values

abbrev cloud : Resources (Workflow (Unit {0}))
cloud = put_at (bytes "g") (bytes "app") workflow (λ g n. none)

abbrev s0 : System (Workflow (Unit {0}))
s0 = started logic_app ops cloud

abbrev s1 : System (Workflow (Unit {0}))
s1 = record s0 {
  phase = set_phase 0 locked s0.phase;
  owner = set_owner (key logic_app ops 0) (some 0) s0.owner;
}

abbrev s2 : System (Workflow (Unit {0}))
s2 = record s1 { phase = set_phase 0 (fetched workflow) s1.phase }

abbrev workflow' : Workflow (Unit {0})
workflow' = record {
  id = none;
  location = none;
  tags = [];
  properties = some (record {
    definition = object (
        field (bytes "actions")
          (object (
            field (bytes "old") (object no_fields) (field (names 0) (object (values 0)) no_fields)))
          (field (bytes "triggers") (object no_fields) no_fields));
    parameters = none;
    rest = none;
  });
}

abbrev s3 : System (Workflow (Unit {0}))
s3 = record s2 {
  phase = set_phase 0 (finished true) s2.phase;
  cloud = put_at (bytes "g") (bytes "app") workflow' s2.cloud;
  log = s2.log ++ 0 ∷ [];
}

there : cloud (bytes "g") (bytes "app") ≡ some workflow
unfolding str_eq
there = refl

changes : (ops 0).change workflow ≡ some workflow'
unfolding set_component change_components definition_of lookup insert str_eq
changes = refl

reached : Reach logic_app ops cloud s3
reached =
    then_step s2 s3
      (then_step s1 s2 (then_step s0 s1 at_start (acquires 0 refl refl))
        (reads 0 workflow refl there))
      (writes 0 workflow workflow' refl changes)

handlers-serial_example :
    (s3.cloud ≡ run_all ops s3.log cloud) × ((i : ℕ) → mem i s3.log ≡ effective (s3.phase i))
handlers-serial_example = handlers-serial logic_app ops cloud s3 reached

updates-kept_example :
    (wf' : Workflow (Unit {0})) × (m' : Components) × (s3.cloud (bytes "g") (bytes "app")
      ≡ some wf')
    × (components wf' actions ≡ some m')
    × (m' (names 0) ≡ some (object (values 0)))
updates-kept_example =
    updates-kept (bytes "g") (bytes "app") actions names values cloud s3 workflow old_components 0
      there workflow-components (λ j k e. ground arith) reached refl
