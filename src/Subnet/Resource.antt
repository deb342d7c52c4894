-- ===== src/Subnet/Resource.antt =====
-- The handlers of a subnet: azurerm/resource_arm_subnet.go.
use terraform_provider_azure.Base.{
  Bool, Option, none, some, List, [], ◌∷◌, Str, Outcome, err, wrap, get_or_empty,
}
use terraform_provider_azure.ResourceId.{
  ResourceId, IdError, parse_azure_resource_id, parse_network_security_group_name,
  parse_route_table_name,
}
use terraform_provider_azure.Locks.Handlers.{
  network_security_group, route_table, virtual_network, subnet,
}
use terraform_provider_azure.Handler.{
  Api, Action, found, missing, failed, ◌>>=◌, ◌>>◌, lift, pure, gets, modify, with_lock_by_name,
  get, call, save, emit, removed,
}
use terraform_provider_azure.Subnet.{
  Linked, Subnet, SubnetProperties, SubnetError, bad_id, get_failed, put_failed, delete_failed,
  completion_failed, id_nil, subnet_path,
}
use terraform_provider_azure.Subnet.Endpoints.{
  expand_service_endpoints, flatten_service_endpoints, flatten_ip_configurations,
}
use terraform_provider_azure.Subnet.Association.{vnet_of, name_of, path_of}

-- The state of the resource. The set of IP configurations is the list that it is set from.
pub record Data : Type 0 where
  pub id : Str
  pub name : Str
  pub resource_group_name : Str
  pub virtual_network_name : Str
  pub address_prefix : Str
  pub network_security_group_id : Str
  pub route_table_id : Str
  pub ip_configurations : List Str
  pub service_endpoints : List Str

-- `d.GetOk(key)` of an ID, as the struct that refers to it.
abbrev pub configured : {R : Type 0} → Str → Option (Linked R)
configured [] = none
configured (b ∷ bs) = some (record { id = some (b ∷ bs); rest = none })

-- What a create sends.
abbrev pub new_subnet : {R : Type 0} → Data → Subnet R
new_subnet d = record {
  id = none;
  name = some d.name;
  properties = some (record {
    address_prefix = some d.address_prefix;
    network_security_group = configured d.network_security_group_id;
    route_table = configured d.route_table_id;
    service_endpoints = some (expand_service_endpoints d.service_endpoints);
    ip_configurations = none;
    rest = none;
  });
}

-- The ID of a route table, or an empty text.
abbrev pub text_of : {R : Type 0} → Option (Linked R) → Str
text_of none = []
text_of (some x) = get_or_empty x.id

-- The ID of a security group; a subnet that has none leaves what is there.
abbrev pub set_linked_id : {R : Type 0} → Option (Linked R) → Str → Str
set_linked_id none old = old
set_linked_id (some x) old = get_or_empty x.id

module _ {R : Type 0} (api : Api (Subnet R)) where
  -- The lock of a security group or a route table, where its ID is configured.
  abbrev pub with_configured :
      (Str → Outcome IdError Str)
      → Str
      → Str
      → Action api Data SubnetError (Unit {0})
      → Action api Data SubnetError (Unit {0})
  with_configured parse_name resource_type [] body = body
  with_configured parse_name resource_type (b ∷ bs) body = do
    name ← lift (wrap bad_id (parse_name (b ∷ bs)))
    with_lock_by_name name resource_type body

  -- What a read sets for the properties. `d.Set` of a nil pointer removes the value.
  unfoldable pub show_properties : SubnetProperties R → Action api Data SubnetError (Unit {0})
  show_properties p = do
    modify (λ d. record d {
      address_prefix = get_or_empty p.address_prefix;
      network_security_group_id =
          set_linked_id p.network_security_group d.network_security_group_id;
      route_table_id = text_of p.route_table;
    })
    ips ← lift (flatten_ip_configurations p.ip_configurations)
    modify (λ d. record d { ip_configurations = ips })
    endpoints ← lift (flatten_service_endpoints p.service_endpoints)
    modify (λ d. record d { service_endpoints = endpoints })

  unfoldable pub show : ResourceId → Subnet R → Action api Data SubnetError (Unit {0})
  unfolding show_properties
  show id s = do
    modify (λ d. record d {
      name = name_of id;
      resource_group_name = id.group;
      virtual_network_name = vnet_of id;
    })
    elim s.properties [ none ↦ pure tt | some p ↦ show_properties p ]

  -- `resourceArmSubnetRead`
  unfoldable pub read : Action api Data SubnetError (Unit {0})
  unfolding show
  read = do
    own ← gets (λ d. d.id)
    id ← lift (wrap bad_id (parse_azure_resource_id api.parse_authority own))
    answer ← get id.group (path_of id)
    elim answer [
      | missing ↦ modify (λ d. record d { id = [] })
      | failed ↦ lift (err get_failed)
      | found s ↦ show id s
    ]

  -- The ID that a create sets, which it gets.
  unfoldable pub adopt_id : Str → Str → Action api Data SubnetError (Unit {0})
  adopt_id group path = do
    answer ← get group path
    elim answer [
      | missing ↦ lift (err get_failed)
      | failed ↦ lift (err get_failed)
      | found s ↦ elim s.id [
        | none ↦ lift (err id_nil)
        | some own ↦ modify (λ d. record d { id = own })
      ]
    ]

  -- What a create does under the locks.
  unfoldable pub create_body : Data → Action api Data SubnetError (Unit {0})
  unfolding save adopt_id read
  create_body d = do
    save d.resource_group_name (subnet_path d.virtual_network_name d.name) (new_subnet d) put_failed
        completion_failed
    adopt_id d.resource_group_name (subnet_path d.virtual_network_name d.name)
    read

  -- `resourceArmSubnetCreate`, which is the update too.
  unfoldable pub create : Action api Data SubnetError (Unit {0})
  unfolding create_body
  create = do
    d ← gets (λ d. d)
    with_lock_by_name d.virtual_network_name virtual_network (
        with_configured (parse_network_security_group_name api.parse_authority)
          network_security_group d.network_security_group_id
          (with_configured (parse_route_table_name api.parse_authority) route_table d.route_table_id
            (create_body d)))

  -- The two calls of a delete; `remove` is `client.Delete`.
  unfoldable pub delete_body :
      (Str → Str → api.Cloud → Bool × api.Cloud)
      → ResourceId
      → Action api Data SubnetError (Unit {0})
  delete_body remove id = do
    emit (removed id.group (path_of id))
    call (remove id.group (path_of id)) delete_failed
    call (api.wait_for_completion id.group (path_of id)) completion_failed

  -- `resourceArmSubnetDelete`
  unfoldable pub delete :
      (Str → Str → api.Cloud → Bool × api.Cloud) → Action api Data SubnetError (Unit {0})
  unfolding delete_body
  delete remove = do
    d ← gets (λ d. d)
    id ← lift (wrap bad_id (parse_azure_resource_id api.parse_authority d.id))
    with_configured (parse_network_security_group_name api.parse_authority) network_security_group
        d.network_security_group_id
        (with_configured (parse_route_table_name api.parse_authority) route_table d.route_table_id (
          with_lock_by_name (vnet_of id) virtual_network
            (with_lock_by_name (name_of id) subnet (delete_body remove id))))
