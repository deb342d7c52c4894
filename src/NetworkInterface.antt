-- ===== src/NetworkInterface.antt =====
-- The associations of a network interface's IP configurations with load balancers' NAT rules and
-- backend pools and with application gateways' backend pools:
-- azurerm/resource_arm_network_interface_nat_rule_association.go,
-- azurerm/resource_arm_network_interface_backend_address_pool_association.go and
-- azurerm/resource_arm_network_interface_application_gateway_association.go. The three files are the
-- same code on different lists of a configuration; a `Kind` says on which.
pub mod Model
pub mod Reference
pub mod Names
pub mod Targets
pub mod Refinement
pub mod Whole
pub mod RoundTrip
pub mod Resources
mod Tests
pub mod Lifecycle
pub mod Association
