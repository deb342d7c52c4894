-- ===== src/DataDisk/Lifecycle.antt =====
-- A create and a delete of an attachment on a cloud that holds what is put.
use terraform_provider_azure.Base.{
  ℕ, ◌<◌, ◌^◌, ◌≡◌, refl, true, none, some, List, [], ◌∷◌, ◌++◌, arith, ap, ◌∙◌, Str, ok,
}
use terraform_provider_azure.ResourceId.{ResourceId, parse_azure_resource_id}
use terraform_provider_azure.LoadBalancer.Model.{int32, of_int32}
use terraform_provider_azure.Locks.Handlers.{key_of}
use terraform_provider_azure.Handler.{Api, Store, Env, Fetched, lock}
use terraform_provider_azure.Handler.Stored.{saved, save-saved, held-saved}
use terraform_provider_azure.DataDisk.{
  put_failed, completion_failed, DataDisk, StorageProfile, VirtualMachine, ManagedDisk, find_disk,
  without_disk, with_disks, attach, detach, attached,
}
use terraform_provider_azure.DataDisk.Disks.{all_named, find-append, without-append}
use terraform_provider_azure.DataDisk.Attachment.{
  Data, virtual_machine, machine_of, disk_of, expanded_disk, attachment_id, flattened,
  retrieve_disk, retrieve, read, create_update_body, create_update, delete_body, delete,
}

module _ {R : Type 0} (api : Api (VirtualMachine R))
    (get_disk : Str → Str → api.Cloud → Fetched ManagedDisk × api.Cloud) (store : Store api) where
  retrieve-held :
      (g n : Str) (e : Env api Data) (vm : VirtualMachine R)
      → store.held e.cloud g n ≡ some vm
      → retrieve api get_disk g n e ≡ (ok vm, e)
  unfolding retrieve
  retrieve-held g n e vm h = ground (arith, store.get_held g n e.cloud)

  attached-disk :
      (vm : VirtualMachine R) (profile : StorageProfile R) (ys : List (DataDisk R)) (name : Str)
      → attached name (with_disks vm profile ys) ≡ find_disk name ys
  unfolding attached
  attached-disk vm profile ys name = refl

  attach-new :
      (vm : VirtualMachine R) (profile : StorageProfile R) (ys : List (DataDisk R)) (name : Str)
      (x : DataDisk R)
      → vm.storage_profile ≡ some profile
      → profile.data_disks ≡ some ys
      → attach true name x vm ≡ ok (with_disks vm profile (ys ++ x ∷ []))
  unfolding attach
  attach-new vm profile ys name x h h' = ground arith

  detach-disks :
      (vm : VirtualMachine R) (profile : StorageProfile R) (ys zs : List (DataDisk R)) (name : Str)
      → without_disk name ys ≡ ok zs
      → detach name (with_disks vm profile ys) ≡ ok (with_disks vm profile zs)
  unfolding detach
  detach-disks vm profile ys zs name h = ground arith

  of_int32-int32 : (n : ℕ) → n < 2 ^ 31 → of_int32 (int32 n) ≡ n
  of_int32-int32 n h = ground arith

  flattened-expanded_disk :
      (d : Data) (name sku own : Str)
      → d.lun < 2 ^ 31
      → flattened {R = R}
          (some d.virtual_machine_id)
          (expanded_disk d name sku)
          (record d { id = own })
        ≡ record d { id = own }
  flattened-expanded_disk d name sku own small = ground (arith, of_int32-int32 d.lun small)

  read-held :
      (id : ResourceId) (e : Env api Data) (vm : VirtualMachine R) (x : DataDisk R)
      → parse_azure_resource_id api.parse_authority e.data_.id ≡ ok id
      → store.held e.cloud id.group (machine_of id) ≡ some vm
      → attached (disk_of id) vm ≡ ok (some x)
      → read api get_disk e ≡ (ok tt, record e { data_ = flattened vm.id x e.data_ })
  unfolding read
  read-held id e vm x h1 h2 h3 = ground (arith, retrieve-held id.group (machine_of id) e vm h2)

  delete-held :
      (id : ResourceId) (e : Env api Data) (vm : VirtualMachine R) (profile : StorageProfile R)
      (ys zs : List (DataDisk R))
      → parse_azure_resource_id api.parse_authority e.data_.id ≡ ok id
      → store.held e.cloud id.group (machine_of id) ≡ some (with_disks vm profile ys)
      → without_disk (disk_of id) ys ≡ ok zs
      → ((delete api get_disk e).0 ≡ ok tt)
        × ((delete api get_disk e).1.cloud
            ≡ store.put id.group (machine_of id) (with_disks vm profile zs) e.cloud)
  unfolding delete delete_body
  delete-held id e vm profile ys zs h1 h2 h3 =
      let e1 = record e {
        events = e.events ++ lock (key_of (machine_of id) virtual_machine) ∷ [];
      } in
      let got = retrieve-held id.group (machine_of id) e1 (with_disks vm profile ys) h2 in
      let detached = detach-disks vm profile ys zs (disk_of id) h3 in
      let done =
        save-saved store id.group (machine_of id) (with_disks vm profile zs) put_failed
          completion_failed e1 in
      (ground (arith, got, detached, done), ground (arith, got, detached, done))

  -- What a create behind the lock leaves on the cloud.
  create_update_body-held :
      (id own : ResourceId) (e : Env api Data) (vm : VirtualMachine R) (profile : StorageProfile R)
      (ys : List (DataDisk R)) (disk : ManagedDisk) (name sku : Str)
      → ((e' : Env api Data)
          → retrieve_disk api get_disk e.data_.managed_disk_id e' ≡ (ok disk, e'))
      → disk.name ≡ some name
      → disk.sku ≡ some sku
      → e.data_.is_new ≡ true
      → e.data_.lun < 2 ^ 31
      → parse_azure_resource_id api.parse_authority (attachment_id e.data_.virtual_machine_id name)
        ≡ ok own
      → own.group ≡ id.group
      → machine_of own ≡ machine_of id
      → disk_of own ≡ name
      → store.held e.cloud id.group (machine_of id) ≡ some vm
      → vm.id ≡ some e.data_.virtual_machine_id
      → vm.storage_profile ≡ some profile
      → profile.data_disks ≡ some ys
      → all_named ys ≡ true
      → find_disk name ys ≡ ok none
      → create_update_body api get_disk id e ≡ (
        ok tt,
        record (saved store id.group
            (machine_of id)
            (with_disks vm profile (ys ++ expanded_disk e.data_ name sku ∷ []))
            e) { data_ = record e.data_ { id = attachment_id e.data_.virtual_machine_id name } },
      )
  unfolding create_update_body
  create_update_body-held id own e vm profile ys disk name sku got named priced fresh small h1
        same_group same_machine same_disk there vm_id h2 h3 all_ absent =
      let x : DataDisk R = expanded_disk e.data_ name sku in
      let vm' : VirtualMachine R = with_disks vm profile (ys ++ x ∷ []) in
      let e1 = saved store id.group (machine_of id) vm' e in
      let e2 = record e1 {
        data_ = record e.data_ { id = attachment_id e.data_.virtual_machine_id name };
      } in
      let held_now : store.held e2.cloud own.group (machine_of own) ≡ some vm' =
        ap (λ g. store.held e2.cloud g (machine_of own)) same_group
        ∙ ap (λ n. store.held e2.cloud id.group n) same_machine
        ∙ held-saved store id.group (machine_of id) vm' e in
      let found_now : attached (disk_of own) vm' ≡ ok (some x) =
        ap (λ n. attached n vm') same_disk
        ∙ attached-disk vm profile (ys ++ x ∷ []) name
        ∙ find-append ys name x refl all_ absent in
      ground (
        arith,
        retrieve-held id.group (machine_of id) e vm there,
        got e,
        attach-new vm profile ys name x h2 h3,
        save-saved store id.group (machine_of id) vm' put_failed completion_failed e,
        read-held own e2 vm' x h1 held_now found_now,
        flattened-expanded_disk e.data_ name sku (attachment_id e.data_.virtual_machine_id name)
            small,
      )

  -- On a cloud that holds what is put, with a virtual machine whose data disks have names, none of them that of
  -- the managed disk, and IDs that parse: the create of a new attachment succeeds, the machine then has the
  -- disk behind the others and is otherwise as before but for its resources, and the state is the
  -- configuration with the ID; a delete behind it succeeds, and the machine has the disks it had before.
  pub attachment_create-delete :
      (id own : ResourceId) (e : Env api Data) (vm : VirtualMachine R) (profile : StorageProfile R)
      (ys : List (DataDisk R)) (disk : ManagedDisk) (name sku : Str)
      → ((e' : Env api Data)
          → retrieve_disk api get_disk e.data_.managed_disk_id e' ≡ (ok disk, e'))
      → disk.name ≡ some name
      → disk.sku ≡ some sku
      → e.data_.is_new ≡ true
      → e.data_.lun < 2 ^ 31
      → parse_azure_resource_id api.parse_authority e.data_.virtual_machine_id ≡ ok id
      → parse_azure_resource_id api.parse_authority (attachment_id e.data_.virtual_machine_id name)
        ≡ ok own
      → own.group ≡ id.group
      → machine_of own ≡ machine_of id
      → disk_of own ≡ name
      → store.held e.cloud id.group (machine_of id) ≡ some vm
      → vm.id ≡ some e.data_.virtual_machine_id
      → vm.storage_profile ≡ some profile
      → profile.data_disks ≡ some ys
      → all_named ys ≡ true
      → find_disk name ys ≡ ok none
      → ((create_update api get_disk e).0 ≡ ok tt)
        × ((create_update api get_disk e).1.data_
            ≡ record e.data_ { id = attachment_id e.data_.virtual_machine_id name })
        × (store.held (create_update api get_disk e).1.cloud id.group (machine_of id)
            ≡ some (with_disks vm profile (ys ++ expanded_disk e.data_ name sku ∷ [])))
        × ((delete api get_disk (create_update api get_disk e).1).0 ≡ ok tt)
        × (store.held
              (delete api get_disk (create_update api get_disk e).1).1.cloud
              id.group
              (machine_of id)
            ≡ some (with_disks vm profile ys))
  unfolding create_update
  attachment_create-delete id own e vm profile ys disk name sku got named priced fresh small h0 h1
        same_group same_machine same_disk there vm_id h2 h3 all_ absent =
      let x : DataDisk R = expanded_disk e.data_ name sku in
      let vm' : VirtualMachine R = with_disks vm profile (ys ++ x ∷ []) in
      let e1 = record e {
        events = e.events ++ lock (key_of (machine_of id) virtual_machine) ∷ [];
      } in
      let body =
        create_update_body-held id own e1 vm profile ys disk name sku got named priced fresh small
          h1 same_group same_machine same_disk there vm_id h2 h3 all_ absent in
      let fine : (create_update api get_disk e).0 ≡ ok tt = ground (arith, body) in
      let data_ : (create_update api get_disk e).1.data_
          ≡ record e.data_ { id = attachment_id e.data_.virtual_machine_id name } =
        ground (arith, body) in
      let cloud : (create_update api get_disk e).1.cloud
          ≡ store.put id.group (machine_of id) vm' e.cloud =
        ground (arith, body) in
      let e2 = (create_update api get_disk e).1 in
      let held_now : store.held e2.cloud id.group (machine_of id) ≡ some vm' =
        ap (λ c. store.held c id.group (machine_of id)) cloud
        ∙ held-saved store id.group (machine_of id) vm' e in
      let (fine', cloud') =
        delete-held own e2 vm profile (ys ++ x ∷ []) ys
          (ap (λ d. parse_azure_resource_id api.parse_authority d.id) data_ ∙ h1)
          (ap (λ g. store.held e2.cloud g (machine_of own)) same_group
            ∙ ap (λ n. store.held e2.cloud id.group n) same_machine
            ∙ held_now)
          (ap (λ n. without_disk n (ys ++ x ∷ [])) same_disk
            ∙ without-append ys name x refl all_ absent) in
      (
        fine,
        data_,
        held_now,
        fine',
        ap (λ c. store.held c id.group (machine_of id)) cloud'
            ∙ ap
                (λ g.
                  store.held (store.put g (machine_of own) (with_disks vm profile ys) e2.cloud)
                    id.group (machine_of id))
                same_group
            ∙ ap
                (λ n.
                  store.held (store.put id.group n (with_disks vm profile ys) e2.cloud) id.group
                    (machine_of id))
                same_machine
            ∙ held-saved store id.group (machine_of id) (with_disks vm profile ys) e2,
      )
