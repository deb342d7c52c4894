-- ===== src/Subnet/Association.antt =====
-- The handlers of an association.
use terraform_provider_azure.Base.{
  none, some, [], Str, bytes, lookup, get_or_empty, err, wrap, deref,
}
use terraform_provider_azure.ResourceId.{ResourceId, parse_azure_resource_id}
use terraform_provider_azure.Locks.Handlers.{virtual_network, subnet}
use terraform_provider_azure.Handler.{
  Api, Action, found, missing, failed, ◌>>=◌, ◌>>◌, lift, pure, gets, modify, with_lock_by_name,
  get, save,
}
use terraform_provider_azure.Subnet.{
  Kind, Subnet, SubnetError, bad_id, subnet_missing, get_failed, put_failed, completion_failed,
  properties_nil, subnet_path, link, unlink,
}

-- The state of the resource; `linked_id` is `network_security_group_id` or `route_table_id`.
pub record Data : Type 0 where
  pub id : Str
  pub subnet_id : Str
  pub linked_id : Str

abbrev pub vnet_of : ResourceId → Str
vnet_of id = get_or_empty (lookup (bytes "virtualNetworks") id.path)

abbrev pub name_of : ResourceId → Str
name_of id = get_or_empty (lookup (bytes "subnets") id.path)

abbrev pub path_of : ResourceId → Str
path_of id = subnet_path (vnet_of id) (name_of id)

module _ {R : Type 0} (kind : Kind R) (api : Api (Subnet R)) where
  -- What a read sets for a subnet that is there. `d.Set` of a nil pointer removes the value.
  unfoldable pub show : Subnet R → Action api Data SubnetError (Unit {0})
  show s = elim s.properties [
    | none ↦ lift (err properties_nil)
    | some p ↦ elim (kind.linked p) [
      | none ↦ modify (λ d. record d { id = [] })
      | some x ↦
          modify (λ d. record d { subnet_id = get_or_empty s.id; linked_id = get_or_empty x.id })
    ]
  ]

  -- `resourceArmSubnet…AssociationRead`
  unfoldable pub read : Action api Data SubnetError (Unit {0})
  unfolding show
  read = do
    own ← gets (λ d. d.id)
    id ← lift (wrap bad_id (parse_azure_resource_id api.parse_authority own))
    answer ← get id.group (path_of id)
    elim answer [
      | missing ↦ modify (λ d. record d { id = [] })
      | failed ↦ lift (err get_failed)
      | found s ↦ show s
    ]

  -- The ID that a create sets: that of the subnet, which it gets again.
  unfoldable pub adopt_id : Str → Str → Action api Data SubnetError (Unit {0})
  adopt_id group path = do
    answer ← get group path
    elim answer [
      | missing ↦ lift (err get_failed)
      | failed ↦ lift (err get_failed)
      | found s ↦ do own ← lift (deref s.id); modify (λ d. record d { id = own })
    ]

  -- What a create does under the locks.
  unfoldable pub create_body : ResourceId → Str → Action api Data SubnetError (Unit {0})
  unfolding save adopt_id read
  create_body id linked_id = do
    answer ← get id.group (path_of id)
    elim answer [
      | missing ↦ lift (err subnet_missing)
      | failed ↦ lift (err get_failed)
      | found s ↦ do
        save id.group (path_of id) (link kind linked_id s) put_failed completion_failed
        adopt_id id.group (path_of id)
        read
    ]

  -- `resourceArmSubnet…AssociationCreate`
  unfoldable pub create : Action api Data SubnetError (Unit {0})
  unfolding create_body
  create = do
    subnet_id ← gets (λ d. d.subnet_id)
    linked_id ← gets (λ d. d.linked_id)
    id ← lift (wrap bad_id (parse_azure_resource_id api.parse_authority subnet_id))
    name ← lift (wrap bad_id (kind.parse_name api.parse_authority linked_id))
    with_lock_by_name name kind.resource_type
        (with_lock_by_name (vnet_of id) virtual_network (create_body id linked_id))

  -- What a delete does under the locks: it gets the subnet again.
  unfoldable pub delete_body : ResourceId → Action api Data SubnetError (Unit {0})
  unfolding save
  delete_body id = do
    answer ← get id.group (path_of id)
    elim answer [
      | missing ↦ pure tt
      | failed ↦ lift (err get_failed)
      | found s ↦ do
        changed ← lift (unlink kind s)
        save id.group (path_of id) changed put_failed completion_failed
    ]

  -- The locks of a delete, by the name of the security group or the route table that the subnet has.
  unfoldable pub delete_linked : ResourceId → Str → Action api Data SubnetError (Unit {0})
  unfolding delete_body
  delete_linked id linked_id = do
    name ← lift (wrap bad_id (kind.parse_name api.parse_authority linked_id))
    with_lock_by_name name kind.resource_type (
        with_lock_by_name (vnet_of id) virtual_network
          (with_lock_by_name (name_of id) subnet (delete_body id)))

  -- A delete of a subnet that is there.
  unfoldable pub delete_found : ResourceId → Subnet R → Action api Data SubnetError (Unit {0})
  unfolding delete_linked
  delete_found id s = elim s.properties [
    | none ↦ lift (err properties_nil)
    | some p ↦ elim (kind.linked p) [
      | none ↦ pure tt
      | some x ↦ elim x.id [ none ↦ pure tt | some linked_id ↦ delete_linked id linked_id ]
    ]
  ]

  -- `resourceArmSubnet…AssociationDelete`
  unfoldable pub delete : Action api Data SubnetError (Unit {0})
  unfolding delete_found
  delete = do
    own ← gets (λ d. d.id)
    id ← lift (wrap bad_id (parse_azure_resource_id api.parse_authority own))
    answer ← get id.group (path_of id)
    elim answer [ missing ↦ pure tt | failed ↦ lift (err get_failed) | found s ↦ delete_found id s ]
