-- ===== src/DataDisk/Tests.antt =====
-- A virtual machine with one data disk, to which a second one is attached.
use terraform_provider_azure.Base.{
  ◌≡◌, refl, true, false, none, some, List, [], ◌∷◌, ◌++◌, arith, if◌then◌else◌, Str, bytes, str_eq,
  lookup, insert, erase, ok, ◌<◌, ◌^◌,
}
use terraform_provider_azure.Text.{
  split, trim_space, trim_prefix, trim_suffix, has_prefix, to_lower,
}
use terraform_provider_azure.Url.{before, parse_request_uri, unescape}
use terraform_provider_azure.ResourceId.{ResourceId, parse_azure_resource_id, bare_path, segments}
use terraform_provider_azure.Handler.{Env, Fetched, found, missing}
use terraform_provider_azure.Handler.MapCloud.{ResourceMap, map_cloud, map_store, set_resource}
use terraform_provider_azure.DataDisk.{
  DataDisk, StorageProfile, VirtualMachine, ManagedDisk, with_disks, find_disk, attach, detach,
}
use terraform_provider_azure.DataDisk.Disks.{all_named}
use terraform_provider_azure.DataDisk.Refinement.{
  DiskMap, HasDisks, with_entry, attach-refines, detach-refines,
}
use terraform_provider_azure.DataDisk.Attachment.{
  Data, machine_of, disk_of, expanded_disk, attachment_id, retrieve_disk, create_update, delete,
}
use terraform_provider_azure.DataDisk.Lifecycle.{attachment_create-delete}

abbrev disk_named : Str → DataDisk (Unit {0})
disk_named n = record {
  name = some n;
  caching = bytes "None";
  create_option = bytes "Attach";
  lun = some 0;
  managed_disk = none;
  write_accelerator_enabled = none;
  rest = none;
}

abbrev machine_id : Str
machine_id =
    bytes "/subscriptions/1/resourceGroups/g/providers/Microsoft.Compute/virtualMachines/vm"

abbrev profile : StorageProfile (Unit {0})
profile = record { data_disks = some (disk_named (bytes "old") ∷ []); rest = none }

abbrev vm : VirtualMachine (Unit {0})
vm = record {
  id = some machine_id;
  storage_profile = some profile;
  resources = some tt;
  rest = none;
}

abbrev old_disks : DiskMap (Unit {0})
old_disks n = if str_eq (bytes "old") n then some (disk_named (bytes "old")) else none

vm-HasDisks : HasDisks vm profile (disk_named (bytes "old") ∷ []) old_disks
unfolding find_disk all_named
vm-HasDisks = record {
  has_profile = refl;
  has_disks = refl;
  all_are_named = refl;
  finds = λ n. ground arith;
}

attach-refines_example :
    let x = disk_named (bytes "new") in
    (zs : List (DataDisk (Unit {0}))) × (attach true (bytes "new") x vm
      ≡ ok (with_disks vm profile zs))
    × HasDisks
        (with_disks vm profile zs)
        (record profile { data_disks = some zs })
        zs
        (with_entry old_disks (bytes "new") (some x))
unfolding str_eq
attach-refines_example =
    attach-refines true (bytes "new") (disk_named (bytes "new")) vm profile
      (disk_named (bytes "old") ∷ []) old_disks vm-HasDisks refl refl

detach-refines_example :
    (zs : List (DataDisk (Unit {0}))) × (detach (bytes "old") vm ≡ ok (with_disks vm profile zs))
    × HasDisks
        (with_disks vm profile zs)
        (record profile { data_disks = some zs })
        zs
        (with_entry old_disks (bytes "old") none)
detach-refines_example =
    detach-refines (bytes "old") vm profile (disk_named (bytes "old") ∷ []) old_disks vm-HasDisks

abbrev disk_id : Str
disk_id = bytes "/subscriptions/1/resourceGroups/g/providers/Microsoft.Compute/disks/new"

abbrev id : ResourceId
id = record {
  subscription = bytes "1";
  group = bytes "g";
  provider = bytes "Microsoft.Compute";
  path = (bytes "virtualMachines", bytes "vm") ∷ [];
}

abbrev own : ResourceId
own = record {
  subscription = bytes "1";
  group = bytes "g";
  provider = bytes "Microsoft.Compute";
  path = (bytes "virtualMachines", bytes "vm") ∷ (bytes "dataDisks", bytes "new") ∷ [];
}

id_parsed : parse_azure_resource_id (λ s. none) machine_id ≡ ok id
unfolding parse_azure_resource_id parse_request_uri bare_path segments split trim_space trim_prefix
    trim_suffix has_prefix to_lower before unescape str_eq lookup insert erase
id_parsed = refl

own_parsed : parse_azure_resource_id (λ s. none) (attachment_id machine_id (bytes "new")) ≡ ok own
unfolding parse_azure_resource_id parse_request_uri bare_path segments split trim_space trim_prefix
    trim_suffix has_prefix to_lower before unescape str_eq lookup insert erase
own_parsed = refl

abbrev managed_disk : ManagedDisk
managed_disk = record { name = some (bytes "new"); sku = some (bytes "Premium_LRS") }

abbrev Machines : Type 0
Machines = ResourceMap (VirtualMachine (Unit {0}))

abbrev get_disk : Str → Str → Machines → Fetched ManagedDisk × Machines
get_disk g n c = (if str_eq n (bytes "new") then found managed_disk else missing, c)

abbrev start : Env (map_cloud (VirtualMachine (Unit {0}))) Data
start = record {
  cloud = set_resource (bytes "g") (bytes "vm") vm (λ g n. none);
  data_ = record {
    id = [];
    is_new = true;
    virtual_machine_id = machine_id;
    managed_disk_id = disk_id;
    lun = 1;
    caching = bytes "ReadWrite";
    create_option = bytes "Attach";
    write_accelerator_enabled = false;
  };
  events = [];
}

disk_retrieved :
    (e : Env (map_cloud (VirtualMachine (Unit {0}))) Data)
    → retrieve_disk (map_cloud (VirtualMachine (Unit {0}))) get_disk disk_id e
      ≡ (ok managed_disk, e)
unfolding retrieve_disk parse_azure_resource_id parse_request_uri bare_path segments split
    trim_space trim_prefix trim_suffix has_prefix to_lower before unescape str_eq lookup insert
    erase
disk_retrieved e = refl

machine_named : machine_of own ≡ machine_of id
unfolding lookup str_eq
machine_named = refl

disk_name : disk_of own ≡ bytes "new"
unfolding lookup str_eq
disk_name = refl

vm_held : start.cloud id.group (machine_of id) ≡ some vm
unfolding lookup str_eq
vm_held = refl

small : start.data_.lun < 2 ^ 31
small = ground arith

all_ : all_named (disk_named (bytes "old") ∷ []) ≡ true
unfolding all_named
all_ = refl

absent : find_disk (bytes "new") (disk_named (bytes "old") ∷ []) ≡ ok none
unfolding find_disk str_eq
absent = refl

attachment_create-delete_example :
    let api = map_cloud (VirtualMachine (Unit {0})) in
    let d = start.data_ in
    let done = create_update api get_disk start in
    let gone = delete api get_disk done.1 in
    let old = disk_named (bytes "old") ∷ [] in
    (done.0 ≡ ok tt)
    × (done.1.data_ ≡ record d { id = attachment_id machine_id (bytes "new") })
    × (done.1.cloud id.group (machine_of id)
        ≡ some (
            with_disks vm profile
              (old ++ expanded_disk d (bytes "new") (bytes "Premium_LRS") ∷ [])))
    × (gone.0 ≡ ok tt)
    × (gone.1.cloud id.group (machine_of id) ≡ some (with_disks vm profile old))
attachment_create-delete_example =
    attachment_create-delete (map_cloud (VirtualMachine (Unit {0}))) get_disk
      (map_store (VirtualMachine (Unit {0}))) id own start vm profile
      (disk_named (bytes "old") ∷ []) managed_disk (bytes "new") (bytes "Premium_LRS")
      disk_retrieved refl refl refl small id_parsed own_parsed refl machine_named disk_name vm_held
      refl refl refl all_ absent
