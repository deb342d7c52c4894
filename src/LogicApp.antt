-- ===== src/LogicApp.antt =====
-- The components of a logic app, its actions and triggers: azurerm/logic_apps.go,
-- azurerm/resource_arm_logic_app_action_http.go and
-- azurerm/resource_arm_logic_app_trigger_recurrence.go. The API has no call for one component: it is
-- read and written with the whole workflow, under a mutex.
pub mod Model
pub mod Component
pub mod Refinement
pub mod Lifecycle
pub mod Concurrent
pub mod Http
pub mod Resource
pub mod Kinds
pub mod Handlers
mod Tests
mod Race
