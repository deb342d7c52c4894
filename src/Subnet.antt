-- ===== src/Subnet.antt =====
-- Subnets of virtual networks: azurerm/resource_arm_subnet.go, and their associations with security groups and
-- route tables, azurerm/resource_arm_subnet_network_security_group_association.go and
-- azurerm/resource_arm_subnet_route_table_association.go. The two associations are the same code on
-- different fields of a subnet; a `Kind` says on which.
pub mod Association
mod Tests
pub mod Locking
pub mod Lifecycle
pub mod Endpoints
pub mod Resource
pub mod Handlers
use terraform_provider_azure.Base.{
  ◌≡◌, Option, none, some, List, [], ◌++◌, Str, bytes, Outcome, ok, panic,
}
use terraform_provider_azure.ResourceId.{
  IdError, parse_network_security_group_name, parse_route_table_name,
}
use terraform_provider_azure.Locks.Handlers.{network_security_group, route_table}

-- The SDK's structs; `R` stands for the fields that the source leaves as they are.
pub record Linked (R : Type 0) : Type 0 where
  pub id : Option Str
  pub rest : Option R

pub record ServiceEndpoint (R : Type 0) : Type 0 where
  pub service : Option Str
  pub rest : Option R

pub record IpConfiguration (R : Type 0) : Type 0 where
  pub id : Option Str
  pub rest : Option R

pub record SubnetProperties (R : Type 0) : Type 0 where
  pub address_prefix : Option Str
  pub network_security_group : Option (Linked R)
  pub route_table : Option (Linked R)
  pub service_endpoints : Option (List (ServiceEndpoint R))
  pub ip_configurations : Option (List (IpConfiguration R))
  pub rest : Option R

pub record Subnet (R : Type 0) : Type 0 where
  pub id : Option Str
  pub name : Option Str
  pub properties : Option (SubnetProperties R)

pub data SubnetError : Type 0 where
  bad_id : IdError → SubnetError
  subnet_missing get_failed put_failed delete_failed completion_failed properties_nil id_nil :
      SubnetError

-- The SDK's path of a subnet in its resource group, from the two names that its calls take.
abbrev pub subnet_path : Str → Str → Str
subnet_path vnet name = vnet ++ bytes "/subnets/" ++ name

-- What the two files differ in.
pub record Kind (R : Type 0) : Type 0 where
  pub linked : SubnetProperties R → Option (Linked R)
  pub set_linked : Option (Linked R) → SubnetProperties R → SubnetProperties R
  pub parse_name : (Str → Option Str) → Str → Outcome IdError Str
  pub resource_type : Str

-- What a kind's field is to its struct.
pub record IsField {R : Type 0} (kind : Kind R) : Type 0 where
  pub linked-set :
      (x : Option (Linked R)) (p : SubnetProperties R) → kind.linked (kind.set_linked x p) ≡ x
  pub set-set :
      (x y : Option (Linked R)) (p : SubnetProperties R)
      → kind.set_linked x (kind.set_linked y p) ≡ kind.set_linked x p

abbrev pub security_group_kind : {R : Type 0} → Kind R
security_group_kind = record {
  linked = λ p. p.network_security_group;
  set_linked = λ x p. record p { network_security_group = x };
  parse_name = parse_network_security_group_name;
  resource_type = network_security_group;
}

abbrev pub route_table_kind : {R : Type 0} → Kind R
route_table_kind = record {
  linked = λ p. p.route_table;
  set_linked = λ x p. record p { route_table = x };
  parse_name = parse_route_table_name;
  resource_type = route_table;
}

module _ {R : Type 0} (kind : Kind R) where
  -- The assignment of a create, which does nothing where the subnet has no properties.
  unfoldable pub link : Str → Subnet R → Subnet R
  link id s = elim s.properties [
    | none ↦ s
    | some p ↦ record s {
      properties = some (kind.set_linked (some (record { id = some id; rest = none })) p);
    }
  ]

  -- The assignment of a delete, which dereferences the properties.
  unfoldable pub unlink : Subnet R → Outcome SubnetError (Subnet R)
  unlink s = elim s.properties [
    | none ↦ panic
    | some p ↦ ok (record s { properties = some (kind.set_linked none p) })
  ]
