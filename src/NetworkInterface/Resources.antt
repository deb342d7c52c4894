-- ===== src/NetworkInterface/Resources.antt =====
-- The handlers of the three resources.
use terraform_provider_azure.Handler.{Api, Action}
use terraform_provider_azure.NetworkInterface.Model.{
  Nic, NicError, nat_rule_kind, backend_address_pool_kind, application_gateway_kind,
}
use terraform_provider_azure.NetworkInterface.Association.{Data, create, read, delete}

module _ {R : Type 0} (api : Api (Nic R)) where
  abbrev nat_rule_association_create : Action api Data NicError (Unit {0})
  nat_rule_association_create = create nat_rule_kind api

  abbrev nat_rule_association_read : Action api Data NicError (Unit {0})
  nat_rule_association_read = read nat_rule_kind api

  abbrev nat_rule_association_delete : Action api Data NicError (Unit {0})
  nat_rule_association_delete = delete nat_rule_kind api

  abbrev backend_address_pool_association_create : Action api Data NicError (Unit {0})
  backend_address_pool_association_create = create backend_address_pool_kind api

  abbrev backend_address_pool_association_read : Action api Data NicError (Unit {0})
  backend_address_pool_association_read = read backend_address_pool_kind api

  abbrev backend_address_pool_association_delete : Action api Data NicError (Unit {0})
  backend_address_pool_association_delete = delete backend_address_pool_kind api

  abbrev application_gateway_association_create : Action api Data NicError (Unit {0})
  application_gateway_association_create = create application_gateway_kind api

  abbrev application_gateway_association_read : Action api Data NicError (Unit {0})
  application_gateway_association_read = read application_gateway_kind api

  abbrev application_gateway_association_delete : Action api Data NicError (Unit {0})
  application_gateway_association_delete = delete application_gateway_kind api
