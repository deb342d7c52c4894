-- ===== src/NetworkInterface/Association.antt =====
-- The handlers of an association.
use terraform_provider_azure.Base.{
  none, some, [], if◌then◌else◌, Str, bytes, lookup, get_or_empty, err, wrap,
}
use terraform_provider_azure.ResourceId.{parse_azure_resource_id}
use terraform_provider_azure.Locks.Handlers.{network_interface}
use terraform_provider_azure.Handler.{
  Api, Action, found, missing, failed, ◌>>=◌, ◌>>◌, lift, pure, gets, modify, with_lock_by_name,
  get, save,
}
use terraform_provider_azure.NetworkInterface.Reference.{Reference, association_id, reference_of}
use terraform_provider_azure.NetworkInterface.Model.{
  Kind, Nic, NicError, nic_missing, get_failed, put_failed, completion_failed, bad_id, associate,
  dissociate, is_associated,
}

-- The state of the resource; `target_id` is `nat_rule_id` or `backend_address_pool_id`.
pub record Data : Type 0 where
  pub id : Str
  pub network_interface_id : Str
  pub ip_configuration_name : Str
  pub target_id : Str

module _ {R : Type 0} (kind : Kind R) (api : Api (Nic R)) where
  -- `client.Get`, where a network interface that is gone is an error.
  unfoldable pub retrieve : Str → Str → Action api Data NicError (Nic R)
  retrieve group name = do
    answer ← get group name
    elim answer [
      | found nic ↦ pure nic
      | missing ↦ lift (err nic_missing)
      | failed ↦ lift (err get_failed)
    ]

  -- `resourceArmNetworkInterface…AssociationRead`
  unfoldable pub read : Action api Data NicError (Unit {0})
  unfolding reference_of retrieve
  read = do
    own ← gets (λ d. d.id)
    r ← lift (reference_of api.parse_authority own)
    nic ← retrieve r.group r.nic
    there ← lift (is_associated kind r.configuration r.target nic)
    modify (λ d.
        if there
        then record d {
          ip_configuration_name = r.configuration;
          target_id = r.target;
          network_interface_id = elim nic.id [ none ↦ d.network_interface_id | some i ↦ i ];
        }
        else record d { id = [] })

  -- What a create does under the lock.
  unfoldable pub create_body : Str → Str → Action api Data NicError (Unit {0})
  unfolding retrieve save association_id read
  create_body group name = do
    nic_id ← gets (λ d. d.network_interface_id)
    configuration ← gets (λ d. d.ip_configuration_name)
    target ← gets (λ d. d.target_id)
    nic ← retrieve group name
    changed ← lift (associate kind configuration target nic)
    save group name changed put_failed completion_failed
    modify (λ d. record d { id = association_id nic_id configuration target })
    read

  -- `resourceArmNetworkInterface…AssociationCreate`
  unfoldable pub create : Action api Data NicError (Unit {0})
  unfolding create_body
  create = do
    nic_id ← gets (λ d. d.network_interface_id)
    id ← lift (wrap bad_id (parse_azure_resource_id api.parse_authority nic_id))
    let name = get_or_empty (lookup (bytes "networkInterfaces") id.path)
    with_lock_by_name name network_interface (create_body id.group name)

  -- What a delete does under the lock.
  unfoldable pub delete_body : Reference → Action api Data NicError (Unit {0})
  unfolding retrieve save
  delete_body r = do
    nic ← retrieve r.group r.nic
    changed ← lift (dissociate kind r.configuration r.target nic)
    save r.group r.nic changed put_failed completion_failed

  -- `resourceArmNetworkInterface…AssociationDelete`
  unfoldable pub delete : Action api Data NicError (Unit {0})
  unfolding delete_body reference_of
  delete = do
    own ← gets (λ d. d.id)
    r ← lift (reference_of api.parse_authority own)
    with_lock_by_name r.nic network_interface (delete_body r)
