-- ===== src/Subnet/Tests.antt =====
-- A subnet in a cloud that is a map, its association with a security group, and the handlers of the subnet.
use terraform_provider_azure.Base.{
  ◌≡◌, refl, true, none, some, [], ◌∷◌, Str, bytes, lookup, insert, erase, str_eq, ok,
}
use terraform_provider_azure.Text.{
  split, trim_space, trim_prefix, trim_suffix, has_prefix, to_lower,
}
use terraform_provider_azure.Url.{before, parse_request_uri, unescape}
use terraform_provider_azure.ResourceId.{
  ResourceId, parse_azure_resource_id, bare_path, segments, path_item,
  parse_network_security_group_name,
}
use terraform_provider_azure.Locks.Handlers.{
  subnet_create_locks, subnet_delete_locks, association_delete_locks, network_security_group,
}
use terraform_provider_azure.Handler.{Env, found}
use terraform_provider_azure.Handler.Locking.{LocksBy}
use terraform_provider_azure.Handler.MapCloud.{map_cloud, map_store, set_resource}
use terraform_provider_azure.Subnet.{Subnet, SubnetProperties, security_group_kind, IsField}
use terraform_provider_azure.Subnet.Association.{Data, vnet_of, name_of, path_of, create, delete}
use terraform_provider_azure.Subnet.Locking.{parsed, parsed_name, linked_of, delete-LocksBy}
use terraform_provider_azure.Subnet.Lifecycle.{with_link, without_link, create-delete_association}
use terraform_provider_azure.Subnet.Resource.{
  Data as SubnetData, new_subnet, create as subnet_create, delete as subnet_delete,
  read as subnet_read,
}
use terraform_provider_azure.Subnet.Handlers.{
  security_group_name, route_table_name, create-LocksBy_subnet, delete-LocksBy_subnet,
  read-new_subnet,
}

abbrev subnet_id : Str
subnet_id =
    bytes
      "/subscriptions/1/resourceGroups/g/providers/Microsoft.Network/virtualNetworks/net/subnets/sub"

abbrev group_id : Str
group_id =
    bytes "/subscriptions/1/resourceGroups/g/providers/Microsoft.Network/networkSecurityGroups/nsg"

abbrev id : ResourceId
id = record {
  subscription = bytes "1";
  group = bytes "g";
  provider = bytes "Microsoft.Network";
  path = (bytes "virtualNetworks", bytes "net") ∷ (bytes "subnets", bytes "sub") ∷ [];
}

id_parsed : parse_azure_resource_id (λ s. none) subnet_id ≡ ok id
unfolding parse_azure_resource_id parse_request_uri bare_path segments split trim_space trim_prefix
    trim_suffix has_prefix to_lower before unescape str_eq lookup insert erase
id_parsed = refl

group_named : parse_network_security_group_name (λ s. none) group_id ≡ ok (bytes "nsg")
unfolding parse_network_security_group_name path_item parse_azure_resource_id parse_request_uri
    bare_path segments split trim_space trim_prefix trim_suffix has_prefix to_lower before unescape
    str_eq lookup insert erase
group_named = refl

abbrev properties : SubnetProperties (Unit {0})
properties = record {
  address_prefix = some (bytes "10.0.1.0/24");
  network_security_group = none;
  route_table = none;
  service_endpoints = some [];
  ip_configurations = none;
  rest = none;
}

abbrev old_subnet : Subnet (Unit {0})
old_subnet = record { id = some subnet_id; name = some (bytes "sub"); properties = some properties }

abbrev start : Env (map_cloud (Subnet (Unit {0}))) Data
start = record {
  cloud = set_resource (bytes "g") (path_of id) old_subnet (λ g n. none);
  data_ = record { id = []; subnet_id = subnet_id; linked_id = group_id };
  events = [];
}

security_group-IsField : IsField (security_group_kind {R = Unit {0}})
security_group-IsField = record { linked-set = λ x p. refl; set-set = λ x y p. refl }

old_subnet_held : start.cloud (bytes "g") (path_of id) ≡ some old_subnet
unfolding str_eq lookup
old_subnet_held = refl

create-delete_association_example :
    let api = map_cloud (Subnet (Unit {0})) in
    let done = create security_group_kind api start in
    let gone = delete security_group_kind api done.1 in
    (done.0 ≡ ok tt)
    × (done.1.data_ ≡ record { id = subnet_id; subnet_id = subnet_id; linked_id = group_id })
    × (done.1.cloud id.group (path_of id)
        ≡ some (with_link security_group_kind group_id old_subnet properties))
    × (gone.0 ≡ ok tt)
    × (gone.1.cloud id.group (path_of id)
        ≡ some (without_link security_group_kind old_subnet properties))
create-delete_association_example =
    create-delete_association security_group_kind security_group-IsField
      (map_cloud (Subnet (Unit {0}))) (map_store (Subnet (Unit {0}))) id subnet_id (bytes "nsg")
      old_subnet properties start id_parsed id_parsed group_named old_subnet_held refl refl

abbrev d : SubnetData
d = record {
  id = subnet_id;
  name = bytes "sub";
  resource_group_name = bytes "g";
  virtual_network_name = bytes "net";
  address_prefix = bytes "10.0.2.0/24";
  network_security_group_id = group_id;
  route_table_id = [];
  ip_configurations = [];
  service_endpoints = bytes "Microsoft.Sql" ∷ bytes "Microsoft.Storage" ∷ [];
}

-- The cloud has given the subnet that a create sent its ID.
abbrev created : Env (map_cloud (Subnet (Unit {0}))) SubnetData
created = record {
  cloud =
      set_resource (bytes "g") (path_of id) (record (new_subnet d) { id = some subnet_id })
        (λ g n. none);
  data_ = d;
  events = [];
}

delete-LocksBy_example :
    let api = map_cloud (Subnet (Unit {0})) in
    let e = (create security_group_kind api start).1 in
    LocksBy (delete security_group_kind api) e (
      association_delete_locks network_security_group
        (parsed_name security_group_kind api (
          linked_of security_group_kind api
            (api.get
              (parsed security_group_kind api e.data_.id).group
              (path_of (parsed security_group_kind api e.data_.id))
              e.cloud).0))
        (vnet_of (parsed security_group_kind api e.data_.id))
        (name_of (parsed security_group_kind api e.data_.id)))
delete-LocksBy_example =
    delete-LocksBy security_group_kind (map_cloud (Subnet (Unit {0})))
      (create security_group_kind (map_cloud (Subnet (Unit {0}))) start).1

create-LocksBy_subnet_example : LocksBy (subnet_create (map_cloud (Subnet (Unit {0})))) created (
    subnet_create_locks
      (bytes "net")
      (security_group_name (map_cloud (Subnet (Unit {0}))) group_id)
      (route_table_name (map_cloud (Subnet (Unit {0}))) []))
create-LocksBy_subnet_example = create-LocksBy_subnet (map_cloud (Subnet (Unit {0}))) created

delete-LocksBy_subnet_example :
    LocksBy (subnet_delete (map_cloud (Subnet (Unit {0}))) (λ g n c. (true, c))) created (
      subnet_delete_locks
        (name_of id)
        (vnet_of id)
        (security_group_name (map_cloud (Subnet (Unit {0}))) group_id)
        (route_table_name (map_cloud (Subnet (Unit {0}))) []))
delete-LocksBy_subnet_example =
    delete-LocksBy_subnet (map_cloud (Subnet (Unit {0}))) (λ g n c. (true, c)) created id id_parsed

net_named : vnet_of id ≡ bytes "net"
unfolding lookup str_eq
net_named = refl

sub_named : name_of id ≡ bytes "sub"
unfolding lookup str_eq
sub_named = refl

-- The state of a subnet that is imported.
abbrev imported : Env (map_cloud (Subnet (Unit {0}))) SubnetData
imported = record created {
  data_ = record {
    id = subnet_id;
    name = [];
    resource_group_name = [];
    virtual_network_name = [];
    address_prefix = [];
    network_security_group_id = [];
    route_table_id = [];
    ip_configurations = [];
    service_endpoints = [];
  };
}

created_got :
    (map_cloud (Subnet (Unit {0}))).get id.group (path_of id) created.cloud
    ≡ (found (record (new_subnet d) { id = some subnet_id }), created.cloud)
unfolding lookup str_eq
created_got = refl

read-new_subnet_example : subnet_read (map_cloud (Subnet (Unit {0}))) imported ≡ (ok tt, created)
read-new_subnet_example =
    read-new_subnet (map_cloud (Subnet (Unit {0}))) d subnet_id id imported created.cloud id_parsed
      refl net_named sub_named refl (λ h. refl) created_got
