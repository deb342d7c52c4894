-- ===== src/DataDisk/Refinement.antt =====
-- A virtual machine's data disks as a map from names to disks.
use terraform_provider_azure.Base.{
  ◌≡◌, refl, Bool, true, false, Option, Bool-cases, inl, inr, none, some, List, [], ◌∷◌, ◌++◌,
  arith, if◌then◌else◌, Str, str_eq, str_eq_iff, ok, ap, ◌∙◌,
}
use terraform_provider_azure.DataDisk.{
  DataDisk, StorageProfile, VirtualMachine, with_disks, find_disk, attach, detach,
}
use terraform_provider_azure.DataDisk.Disks.{
  all_named, all_named-append, find-append, find-append_other, find-without, find-replace,
}

abbrev pub DiskMap : Type 0 → Type 0
DiskMap R = Str → Option (DataDisk R)

module _ {R : Type 0} where
  abbrev pub with_entry : DiskMap R → Str → Option (DataDisk R) → DiskMap R
  with_entry m name v other = if str_eq name other then v else m other

  -- The virtual machine has these data disks, all of them named, and they are this map.
  pub record HasDisks (vm : VirtualMachine R) (profile : StorageProfile R) (ys : List (DataDisk R))
      (m : DiskMap R) : Type 0 where
    pub has_profile : vm.storage_profile ≡ some profile
    pub has_disks : profile.data_disks ≡ some ys
    pub all_are_named : all_named ys ≡ true
    pub finds : (name : Str) → find_disk name ys ≡ ok (m name)

  HasDisks-with_disks :
      (vm : VirtualMachine R) (profile : StorageProfile R) (ys zs : List (DataDisk R))
      (m : DiskMap R) (name : Str) (v : Option (DataDisk R))
      → HasDisks vm profile ys m
      → all_named zs ≡ true
      → find_disk name zs ≡ ok v
      → ((other : Str) → str_eq name other ≡ false → find_disk other zs ≡ find_disk other ys)
      → HasDisks
          (with_disks vm profile zs)
          (record profile { data_disks = some zs })
          zs
          (with_entry m name v)
  HasDisks-with_disks vm profile ys zs m name v h named here others = record {
    has_profile = refl;
    has_disks = refl;
    all_are_named = named;
    finds = λ other. elim (Bool-cases (str_eq name other)) [
      | inl same ↦ ground (arith, str_eq_iff name other)
      | inr distinct ↦ ground (arith, others other distinct, h.finds other)
    ];
  }

  -- Of a virtual machine whose data disks all have names, a new attachment whose name no disk has, and a change
  -- of an attachment whose name a disk has, succeed; the disks by their names are then as before, but for
  -- the disk under that name.
  pub attach-refines :
      (is_new : Bool) (name : Str) (x : DataDisk R) (vm : VirtualMachine R)
      (profile : StorageProfile R) (ys : List (DataDisk R)) (m : DiskMap R)
      → HasDisks vm profile ys m
      → x.name ≡ some name
      → (if is_new then m name ≡ none else (old : DataDisk R) × (m name ≡ some old))
      → (zs : List (DataDisk R)) × (attach is_new name x vm ≡ ok (with_disks vm profile zs))
        × HasDisks
            (with_disks vm profile zs)
            (record profile { data_disks = some zs })
            zs
            (with_entry m name (some x))
  unfolding attach
  attach-refines true name x vm profile ys m h named absent =
      let e = h.finds name ∙ ap (λ v. ok v) absent in
      (
        ys ++ x ∷ [],
        ground (arith, h.has_profile, h.has_disks),
        HasDisks-with_disks vm profile ys (ys ++ x ∷ []) m name (some x) h
            (all_named-append ys name x named h.all_are_named)
            (find-append ys name x named h.all_are_named e)
            (λ other d. find-append_other ys name other x named d h.all_are_named),
      )
  attach-refines false name x vm profile ys m h named (old, there) =
      let (zs, e1, e2, e3, e4) =
        find-replace ys name x old named h.all_are_named (h.finds name ∙ ap (λ v. ok v) there) in
      (
        zs,
        ground (arith, h.has_profile, h.has_disks),
        HasDisks-with_disks vm profile ys zs m name (some x) h e4 e2 e3,
      )

  -- A detachment from a virtual machine whose data disks all have names succeeds, also where none has the name;
  -- the disks by their names are then as before, but that none has that name.
  pub detach-refines :
      (name : Str) (vm : VirtualMachine R) (profile : StorageProfile R) (ys : List (DataDisk R))
      (m : DiskMap R)
      → HasDisks vm profile ys m
      → (zs : List (DataDisk R)) × (detach name vm ≡ ok (with_disks vm profile zs))
        × HasDisks
            (with_disks vm profile zs)
            (record profile { data_disks = some zs })
            zs
            (with_entry m name none)
  unfolding detach
  detach-refines name vm profile ys m h =
      let (zs, e1, e2, e3, e4) = find-without ys name h.all_are_named in
      (
        zs,
        ground (arith, h.has_profile, h.has_disks),
        HasDisks-with_disks vm profile ys zs m name none h e4 e2 e3,
      )
