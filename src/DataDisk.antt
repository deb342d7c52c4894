-- ===== src/DataDisk.antt =====
-- The attachment of data disks to virtual machines:
-- azurerm/resource_arm_virtual_machine_data_disk_attachment.go. This file has what the handlers do to a
-- virtual machine.
pub mod Disks
pub mod Refinement
pub mod Lifecycle
mod Tests
pub mod Attachment
use terraform_provider_azure.Base.{
  ℕ, Bool, Option, none, some, List, [], ◌∷◌, ◌++◌, if◌then◌else◌, Str, str_eq, Outcome, ok, err,
  ◌>>=◌, deref,
}
use terraform_provider_azure.ResourceId.{IdError}

-- The SDK's structs; `R` stands for the fields that the source leaves as they are.
pub record ManagedDiskParameters : Type 0 where
  pub id : Option Str
  pub storage_account_type : Str

pub record DataDisk (R : Type 0) : Type 0 where
  pub name : Option Str
  pub caching : Str
  pub create_option : Str
  pub lun : Option ℕ
  pub managed_disk : Option ManagedDiskParameters
  pub write_accelerator_enabled : Option Bool
  pub rest : Option R

pub record StorageProfile (R : Type 0) : Type 0 where
  pub data_disks : Option (List (DataDisk R))
  pub rest : Option R

pub record VirtualMachine (R : Type 0) : Type 0 where
  pub id : Option Str
  pub storage_profile : Option (StorageProfile R)
  pub resources : Option R
  pub rest : Option R

-- A managed disk; `sku` is the name of its SKU.
pub record ManagedDisk : Type 0 where
  pub name : Option Str
  pub sku : Option Str

pub data DiskError : Type 0 where
  bad_id bad_disk_id : IdError → DiskError
  machine_missing get_failed disk_missing get_disk_failed sku_nil not_attached put_failed
        completion_failed :
      DiskError

module _ {R : Type 0} where
  -- The loop that swaps a disk in place: the first of the name.
  unfoldable pub replace_disk :
      Str → DataDisk R → List (DataDisk R) → Outcome DiskError (List (DataDisk R))
  replace_disk name x [] = err not_attached
  replace_disk name x (y ∷ ys) =
      let rest = replace_disk name x ys in
      deref y.name >>= λ n. if str_eq n name then ok (x ∷ ys) else rest >>= λ zs. ok (y ∷ zs)

  -- The loop of a read: the first disk of the name.
  unfoldable pub find_disk : Str → List (DataDisk R) → Outcome DiskError (Option (DataDisk R))
  find_disk name [] = ok none
  find_disk name (y ∷ ys) =
      let rest = find_disk name ys in
      deref y.name >>= λ n. if str_eq n name then ok (some y) else rest

  -- The loop of a delete: the disks of other names.
  unfoldable pub without_disk : Str → List (DataDisk R) → Outcome DiskError (List (DataDisk R))
  without_disk name [] = ok []
  without_disk name (y ∷ ys) =
      let rest = without_disk name ys in
      deref y.name >>= λ n. rest >>= λ zs. ok (if str_eq n name then zs else y ∷ zs)

  -- The virtual machine with other data disks, and without its resources.
  abbrev pub with_disks : VirtualMachine R → StorageProfile R → List (DataDisk R) → VirtualMachine R
  with_disks vm profile disks = record vm {
    storage_profile = some (record profile { data_disks = some disks });
    resources = none;
  }

  -- What a create or an update does: a new resource is a disk at the end.
  unfoldable pub attach :
      Bool → Str → DataDisk R → VirtualMachine R → Outcome DiskError (VirtualMachine R)
  unfolding replace_disk
  attach is_new name x vm = do
    profile ← deref vm.storage_profile
    disks ← deref profile.data_disks
    disks' ← (if is_new then ok (disks ++ x ∷ []) else replace_disk name x disks)
    ok (with_disks vm profile disks')

  -- What a delete does.
  unfoldable pub detach : Str → VirtualMachine R → Outcome DiskError (VirtualMachine R)
  unfolding without_disk
  detach name vm = do
    profile ← deref vm.storage_profile
    disks ← deref profile.data_disks
    disks' ← without_disk name disks
    ok (with_disks vm profile disks')

  -- What a read looks for, where the virtual machine has data disks.
  unfoldable pub attached : Str → VirtualMachine R → Outcome DiskError (Option (DataDisk R))
  unfolding find_disk
  attached name vm = elim vm.storage_profile [
    | none ↦ ok none
    | some profile ↦ elim profile.data_disks [ none ↦ ok none | some disks ↦ find_disk name disks ]
  ]
