-- ===== src/Subnet/Lifecycle.antt =====
-- A create and a delete of an association on a cloud that holds what is put.
use terraform_provider_azure.Base.{◌≡◌, refl, none, some, [], ◌∷◌, ◌++◌, arith, ap, ◌∙◌, Str, ok}
use terraform_provider_azure.ResourceId.{ResourceId, parse_azure_resource_id}
use terraform_provider_azure.Locks.Handlers.{key_of, virtual_network, subnet}
use terraform_provider_azure.Handler.{Api, Store, Env, lock}
use terraform_provider_azure.Handler.Stored.{saved, save-saved, held-saved}
use terraform_provider_azure.Subnet.{
  put_failed, completion_failed, Kind, IsField, Linked, Subnet, SubnetProperties, link, unlink,
}
use terraform_provider_azure.Subnet.Association.{
  Data, path_of, vnet_of, name_of, show, read, adopt_id, create_body, create, delete_body,
  delete_linked, delete_found, delete,
}

-- The subnet behind a create, and behind a delete.
abbrev pub with_link : {R : Type 0} → Kind R → Str → Subnet R → SubnetProperties R → Subnet R
with_link kind linked_id s p = record s {
  properties = some (kind.set_linked (some (record { id = some linked_id; rest = none })) p);
}

abbrev pub without_link : {R : Type 0} → Kind R → Subnet R → SubnetProperties R → Subnet R
without_link kind s p = record s { properties = some (kind.set_linked none p) }

module _ {R : Type 0} (kind : Kind R) (field : IsField kind) (api : Api (Subnet R))
    (store : Store api) where
  link-properties :
      (linked_id : Str) (s : Subnet R) (p : SubnetProperties R)
      → s.properties ≡ some p
      → link kind linked_id s ≡ record s {
        properties = some (kind.set_linked (some (record { id = some linked_id; rest = none })) p);
      }
  unfolding link
  link-properties linked_id s p h = rw h refl

  adopt_id-held :
      (g p own : Str) (s : Subnet R) (e : Env api Data)
      → store.held e.cloud g p ≡ some s
      → s.id ≡ some own
      → adopt_id kind api g p e ≡ (ok tt, record e { data_ = record e.data_ { id = own } })
  unfolding adopt_id
  adopt_id-held g p own s e h h' = ground (arith, store.get_held g p e.cloud)

  read-held :
      (id : ResourceId) (s : Subnet R) (p : SubnetProperties R) (x : Linked R) (own linked_id : Str)
      (e : Env api Data)
      → parse_azure_resource_id api.parse_authority e.data_.id ≡ ok id
      → store.held e.cloud id.group (path_of id) ≡ some s
      → s.properties ≡ some p
      → kind.linked p ≡ some x
      → s.id ≡ some own
      → x.id ≡ some linked_id
      → read kind api e
        ≡ (ok tt, record e { data_ = record e.data_ { subnet_id = own; linked_id = linked_id } })
  unfolding read show
  read-held id s p x own linked_id e h1 h2 h3 h4 h5 h6 =
      ground (arith, store.get_held id.group (path_of id) e.cloud)

  create_body-held :
      (id : ResourceId) (linked_id own : Str) (s : Subnet R) (p : SubnetProperties R)
      (e : Env api Data)
      → parse_azure_resource_id api.parse_authority own ≡ ok id
      → store.held e.cloud id.group (path_of id) ≡ some s
      → s.properties ≡ some p
      → s.id ≡ some own
      → create_body kind api id linked_id e ≡ (
        ok tt,
        record (saved store id.group (path_of id) (with_link kind linked_id s p) e) {
          data_ = record { id = own; subnet_id = own; linked_id = linked_id };
        },
      )
  unfolding create_body
  create_body-held id linked_id own s p e h1 h2 h3 h4 =
      let e1 = saved store id.group (path_of id) (with_link kind linked_id s p) e in
      let e2 = record e1 { data_ = record e1.data_ { id = own } } in
      let x : Linked R = record { id = some linked_id; rest = none } in
      ground (
        arith,
        store.get_held id.group (path_of id) e.cloud,
        link-properties linked_id s p h3,
        save-saved store id.group (path_of id) (with_link kind linked_id s p) put_failed
            completion_failed e,
        adopt_id-held id.group (path_of id) own (with_link kind linked_id s p) e1
            (held-saved store id.group (path_of id) (with_link kind linked_id s p) e) h4,
        read-held id (with_link kind linked_id s p) (kind.set_linked (some x) p) x own linked_id e2
            h1 (held-saved store id.group (path_of id) (with_link kind linked_id s p) e) refl
            (field.linked-set (some x) p) h4 refl,
      )

  create-held :
      (id : ResourceId) (own name : Str) (s : Subnet R) (p : SubnetProperties R) (e : Env api Data)
      → parse_azure_resource_id api.parse_authority e.data_.subnet_id ≡ ok id
      → parse_azure_resource_id api.parse_authority own ≡ ok id
      → kind.parse_name api.parse_authority e.data_.linked_id ≡ ok name
      → store.held e.cloud id.group (path_of id) ≡ some s
      → s.properties ≡ some p
      → s.id ≡ some own
      → ((create kind api e).0 ≡ ok tt)
        × ((create kind api e).1.data_
            ≡ record { id = own; subnet_id = own; linked_id = e.data_.linked_id })
        × ((create kind api e).1.cloud
            ≡ store.put id.group (path_of id) (with_link kind e.data_.linked_id s p) e.cloud)
  unfolding create
  create-held id own name s p e h0 h1 h h2 h3 h4 =
      let e1 = record e {
        events =
            (e.events ++ lock (key_of name kind.resource_type) ∷ [])
            ++ lock (key_of (vnet_of id) virtual_network) ∷ [];
      } in
      let body = create_body-held id e.data_.linked_id own s p e1 h1 h2 h3 h4 in
      (ground (arith, body), ground (arith, body), ground (arith, body))

  unlink-properties :
      (s : Subnet R) (p : SubnetProperties R)
      → s.properties ≡ some p
      → unlink kind s ≡ ok (without_link kind s p)
  unfolding unlink
  unlink-properties s p h = rw h refl

  delete_body-held :
      (id : ResourceId) (s : Subnet R) (p : SubnetProperties R) (e : Env api Data)
      → store.held e.cloud id.group (path_of id) ≡ some s
      → s.properties ≡ some p
      → delete_body kind api id e
        ≡ (ok tt, saved store id.group (path_of id) (without_link kind s p) e)
  unfolding delete_body
  delete_body-held id s p e h h' = ground (
    arith,
    store.get_held id.group (path_of id) e.cloud,
    unlink-properties s p h',
    save-saved store id.group (path_of id) (without_link kind s p) put_failed completion_failed e,
  )

  delete-held :
      (id : ResourceId) (linked_id name : Str) (s : Subnet R) (p : SubnetProperties R)
      (x : Linked R) (e : Env api Data)
      → parse_azure_resource_id api.parse_authority e.data_.id ≡ ok id
      → kind.parse_name api.parse_authority linked_id ≡ ok name
      → store.held e.cloud id.group (path_of id) ≡ some s
      → s.properties ≡ some p
      → kind.linked p ≡ some x
      → x.id ≡ some linked_id
      → ((delete kind api e).0 ≡ ok tt)
        × ((delete kind api e).1.cloud
            ≡ store.put id.group (path_of id) (without_link kind s p) e.cloud)
  unfolding delete delete_found delete_linked
  delete-held id linked_id name s p x e h1 h2 h3 h4 h5 h6 =
      let e1 = record e {
        events =
            ((e.events ++ lock (key_of name kind.resource_type) ∷ [])
              ++ lock (key_of (vnet_of id) virtual_network) ∷ [])
            ++ lock (key_of (name_of id) subnet) ∷ [];
      } in
      let body = delete_body-held id s p e1 h3 h4 in
      (
        ground (arith, store.get_held id.group (path_of id) e.cloud, body),
        ground (arith, store.get_held id.group (path_of id) e.cloud, body),
      )

  -- On a cloud that holds what is put, with a subnet that has properties and its own ID, and names that parse:
  -- a create succeeds, the subnet then has the configured ID in the kind's field and is otherwise as before,
  -- and the resource's state is the subnet's ID and the configured ID; a delete behind it succeeds, and the
  -- subnet is as before but for the field, which is empty.
  pub create-delete_association :
      (id : ResourceId) (own name : Str) (s : Subnet R) (p : SubnetProperties R) (e : Env api Data)
      → parse_azure_resource_id api.parse_authority e.data_.subnet_id ≡ ok id
      → parse_azure_resource_id api.parse_authority own ≡ ok id
      → kind.parse_name api.parse_authority e.data_.linked_id ≡ ok name
      → store.held e.cloud id.group (path_of id) ≡ some s
      → s.properties ≡ some p
      → s.id ≡ some own
      → ((create kind api e).0 ≡ ok tt)
        × ((create kind api e).1.data_
            ≡ record { id = own; subnet_id = own; linked_id = e.data_.linked_id })
        × (store.held (create kind api e).1.cloud id.group (path_of id)
            ≡ some (with_link kind e.data_.linked_id s p))
        × ((delete kind api (create kind api e).1).0 ≡ ok tt)
        × (store.held (delete kind api (create kind api e).1).1.cloud id.group (path_of id)
            ≡ some (without_link kind s p))
  create-delete_association id own name s p e h0 h1 h h2 h3 h4 =
      let (fine, data_, cloud) = create-held id own name s p e h0 h1 h h2 h3 h4 in
      let e1 = (create kind api e).1 in
      let there : store.held e1.cloud id.group (path_of id)
          ≡ some (with_link kind e.data_.linked_id s p) =
        ap (λ c. store.held c id.group (path_of id)) cloud
        ∙ held-saved store id.group (path_of id) (with_link kind e.data_.linked_id s p) e in
      let x : Linked R = record { id = some e.data_.linked_id; rest = none } in
      let (fine', cloud') =
        delete-held id e.data_.linked_id name (with_link kind e.data_.linked_id s p)
          (kind.set_linked (some x) p) x e1
          (ap (λ d. parse_azure_resource_id api.parse_authority d.id) data_ ∙ h1) h there refl
          (field.linked-set (some x) p) refl in
      (
        fine,
        data_,
        there,
        fine',
        ap (λ c. store.held c id.group (path_of id)) cloud'
            ∙ held-saved store id.group (path_of id)
                (without_link kind (with_link kind e.data_.linked_id s p)
                  (kind.set_linked (some x) p))
                e1
            ∙ ap (λ q. some (record s { properties = some q })) (field.set-set none (some x) p),
      )
