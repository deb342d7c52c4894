-- ===== src/LoadBalancer.antt =====
-- Load balancers and the five resources that live inside one: azurerm/loadbalancer.go and
-- azurerm/resource_arm_loadbalancer_{rule,backend_address_pool,nat_rule,nat_pool,probe}.go.
-- `Model` has the SDK's types and the lookups by name, `Client` the handlers' state and the calls of
-- the API, `Child` the create, read and delete that the five handlers share line by line, and the
-- other modules the five resources; the rest proves what the handlers do.
pub mod Import
pub mod Model
pub mod Client
pub mod Child
mod Fields
pub mod Rule
pub mod NatRule
pub mod NatPool
pub mod Probe
pub mod BackendPool
mod Tests
