-- ===== src/DataDisk/Attachment.antt =====
-- The handlers of an attachment.
use terraform_provider_azure.Base.{
  ℕ, Bool, false, Option, none, some, [], ◌++◌, Str, bytes, lookup, get_or_empty, ok, err, wrap,
  deref,
}
use terraform_provider_azure.ResourceId.{ResourceId, parse_azure_resource_id}
use terraform_provider_azure.LoadBalancer.Model.{int32, of_int32}
use terraform_provider_azure.Handler.{
  Api, Action, Fetched, found, missing, failed, ◌>>=◌, ◌>>◌, lift, pure, gets, modify,
  with_lock_by_name, get, save,
}
use terraform_provider_azure.DataDisk.{
  DataDisk, VirtualMachine, ManagedDisk, DiskError, bad_id, bad_disk_id, machine_missing,
  get_failed, disk_missing, get_disk_failed, sku_nil, put_failed, completion_failed, attach, detach,
  attached,
}

abbrev pub virtual_machine : Str
virtual_machine = bytes "azurerm_virtual_machine"

-- The state of the resource; `is_new` is `d.IsNewResource()`.
pub record Data : Type 0 where
  pub id : Str
  pub is_new : Bool
  pub virtual_machine_id : Str
  pub managed_disk_id : Str
  pub lun : ℕ
  pub caching : Str
  pub create_option : Str
  pub write_accelerator_enabled : Bool

abbrev pub machine_of : ResourceId → Str
machine_of id = get_or_empty (lookup (bytes "virtualMachines") id.path)

abbrev pub disk_of : ResourceId → Str
disk_of id = get_or_empty (lookup (bytes "dataDisks") id.path)

-- The disk that a create or an update sends.
abbrev pub expanded_disk : {R : Type 0} → Data → Str → Str → DataDisk R
expanded_disk d name sku = record {
  name = some name;
  caching = d.caching;
  create_option = d.create_option;
  lun = some (int32 d.lun);
  managed_disk = some (record { id = some d.managed_disk_id; storage_account_type = sku });
  write_accelerator_enabled = some d.write_accelerator_enabled;
  rest = none;
}

abbrev pub attachment_id : Str → Str → Str
attachment_id machine_id name = machine_id ++ bytes "/dataDisks/" ++ name

-- What a read sets for a disk that is attached. `d.Set` of a nil pointer removes the value.
abbrev pub flattened : {R : Type 0} → Option Str → DataDisk R → Data → Data
flattened machine_id x d = record d {
  virtual_machine_id = get_or_empty machine_id;
  caching = x.caching;
  create_option = x.create_option;
  write_accelerator_enabled = elim x.write_accelerator_enabled [ none ↦ false | some b ↦ b ];
  managed_disk_id = elim x.managed_disk [ none ↦ d.managed_disk_id | some m ↦ get_or_empty m.id ];
  lun = elim x.lun [ none ↦ d.lun | some n ↦ of_int32 n ];
}

module _ {R : Type 0} (api : Api (VirtualMachine R))
    (get_disk : Str → Str → api.Cloud → Fetched ManagedDisk × api.Cloud) where
  -- `retrieveDataDiskAttachmentManagedDisk`; `get_disk` is the `Get` of the client for disks.
  unfoldable pub retrieve_disk : Str → Action api Data DiskError ManagedDisk
  retrieve_disk disk_id = do
    id ← lift (wrap bad_disk_id (parse_azure_resource_id api.parse_authority disk_id))
    answer ← (λ e.
        let (f, c) = get_disk id.group (get_or_empty (lookup (bytes "disks") id.path)) e.cloud in
        (ok f, record e { cloud = c }))
    elim answer [
      | found m ↦ pure m
      | missing ↦ lift (err disk_missing)
      | failed ↦ lift (err get_disk_failed)
    ]

  -- `client.Get`, where a virtual machine that is gone is an error.
  unfoldable pub retrieve : Str → Str → Action api Data DiskError (VirtualMachine R)
  retrieve group name = do
    answer ← get group name
    elim answer [
      | found vm ↦ pure vm
      | missing ↦ lift (err machine_missing)
      | failed ↦ lift (err get_failed)
    ]

  -- `resourceArmVirtualMachineDataDiskAttachmentRead`
  unfoldable pub read : Action api Data DiskError (Unit {0})
  unfolding retrieve
  read = do
    own ← gets (λ d. d.id)
    id ← lift (wrap bad_id (parse_azure_resource_id api.parse_authority own))
    vm ← retrieve id.group (machine_of id)
    disk ← lift (attached (disk_of id) vm)
    modify (λ d. elim disk [ none ↦ record d { id = [] } | some x ↦ flattened vm.id x d ])

  -- What a create or an update does under the lock.
  unfoldable pub create_update_body : ResourceId → Action api Data DiskError (Unit {0})
  unfolding retrieve retrieve_disk save read
  create_update_body id = do
    d ← gets (λ d. d)
    vm ← retrieve id.group (machine_of id)
    disk ← retrieve_disk d.managed_disk_id
    sku ← lift (elim disk.sku [ none ↦ err sku_nil | some s ↦ ok s ])
    name ← lift (deref disk.name)
    changed ← lift (attach d.is_new name (expanded_disk d name sku) vm)
    save id.group (machine_of id) changed put_failed completion_failed
    modify (λ d. record d { id = attachment_id d.virtual_machine_id name })
    read

  -- `resourceArmVirtualMachineDataDiskAttachmentCreateUpdate`
  unfoldable pub create_update : Action api Data DiskError (Unit {0})
  unfolding create_update_body
  create_update = do
    machine_id ← gets (λ d. d.virtual_machine_id)
    id ← lift (wrap bad_id (parse_azure_resource_id api.parse_authority machine_id))
    with_lock_by_name (machine_of id) virtual_machine (create_update_body id)

  -- What a delete does under the lock.
  unfoldable pub delete_body : ResourceId → Action api Data DiskError (Unit {0})
  unfolding retrieve save
  delete_body id = do
    vm ← retrieve id.group (machine_of id)
    changed ← lift (detach (disk_of id) vm)
    save id.group (machine_of id) changed put_failed completion_failed

  -- `resourceArmVirtualMachineDataDiskAttachmentDelete`
  unfoldable pub delete : Action api Data DiskError (Unit {0})
  unfolding delete_body
  delete = do
    own ← gets (λ d. d.id)
    id ← lift (wrap bad_id (parse_azure_resource_id api.parse_authority own))
    with_lock_by_name (machine_of id) virtual_machine (delete_body id)
