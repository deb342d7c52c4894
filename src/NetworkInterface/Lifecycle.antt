-- ===== src/NetworkInterface/Lifecycle.antt =====
-- A create and a delete of an association on a cloud that holds what is put.
use terraform_provider_azure.Base.{
  ◌≡◌, refl, true, none, some, [], ◌∷◌, ◌++◌, arith, ap, ◌∙◌, Str, bytes, lookup, get_or_empty, ok,
}
use terraform_provider_azure.Text.{joined, Avoids}
use terraform_provider_azure.ResourceId.{ResourceId, parse_azure_resource_id}
use terraform_provider_azure.Locks.Handlers.{key_of, network_interface}
use terraform_provider_azure.Handler.{Api, Store, Env, lock, unlock}
use terraform_provider_azure.Handler.Stored.{saved, save-saved, held-saved}
use terraform_provider_azure.NetworkInterface.Model.{
  put_failed, completion_failed, Nic, Kind, associate, dissociate, is_associated,
}
use terraform_provider_azure.NetworkInterface.Reference.{Reference, association_id, reference_of}
use terraform_provider_azure.NetworkInterface.Refinement.{associations}
use terraform_provider_azure.NetworkInterface.RoundTrip.{dissociate-associate}
use terraform_provider_azure.NetworkInterface.Names.{
  IsPart, nic_segments, reference_of-association_id,
}
use terraform_provider_azure.NetworkInterface.Association.{
  Data, retrieve, read, create_body, create, delete_body, delete,
}

module _ {R : Type 0} (kind : Kind R) (api : Api (Nic R)) (store : Store api) where
  retrieve-held :
      (g n : Str) (e : Env api Data) (nic : Nic R)
      → store.held e.cloud g n ≡ some nic
      → retrieve kind api g n e ≡ (ok nic, e)
  unfolding retrieve
  retrieve-held g n e nic h = ground (arith, store.get_held g n e.cloud)

  -- What a read that finds the association sets.
  abbrev refreshed : Reference → Nic R → Data → Data
  refreshed r nic d = record d {
    ip_configuration_name = r.configuration;
    target_id = r.target;
    network_interface_id = elim nic.id [ none ↦ d.network_interface_id | some i ↦ i ];
  }

  read-refreshed :
      (e : Env api Data) (r : Reference) (nic : Nic R)
      → reference_of api.parse_authority e.data_.id ≡ ok r
      → store.held e.cloud r.group r.nic ≡ some nic
      → is_associated kind r.configuration r.target nic ≡ ok true
      → read kind api e ≡ (ok tt, record e { data_ = refreshed r nic e.data_ })
  unfolding read
  read-refreshed e r nic h1 h2 h3 = ground (arith, retrieve-held r.group r.nic e nic h2)

  -- The events of the lock.
  abbrev locked : Str → Env api Data → Env api Data
  locked n e = record e { events = e.events ++ lock (key_of n network_interface) ∷ [] }

  abbrev unlocked : Str → Env api Data → Env api Data
  unlocked n e = record e { events = e.events ++ unlock (key_of n network_interface) ∷ [] }

  abbrev pub deleted : Reference → Nic R → Env api Data → Env api Data
  deleted r back e = unlocked r.nic (saved store r.group r.nic back (locked r.nic e))

  delete-deleted :
      (e : Env api Data) (r : Reference) (nic back : Nic R)
      → reference_of api.parse_authority e.data_.id ≡ ok r
      → store.held e.cloud r.group r.nic ≡ some nic
      → dissociate kind r.configuration r.target nic ≡ ok back
      → delete kind api e ≡ (ok tt, deleted r back e)
  unfolding delete delete_body
  delete-deleted e r nic back h1 h2 h3 = ground (
    arith,
    retrieve-held r.group r.nic (locked r.nic e) nic h2,
    save-saved store r.group r.nic back put_failed completion_failed (locked r.nic e),
  )

  abbrev pub with_own_id : Data → Data
  with_own_id d = record d {
    id = association_id d.network_interface_id d.ip_configuration_name d.target_id;
  }

  abbrev pub created : Reference → Nic R → Env api Data → Env api Data
  created r nic e =
      let e' = saved store r.group r.nic nic (locked r.nic e) in
      unlocked r.nic (record e' { data_ = refreshed r nic (with_own_id e.data_) })

  create-created :
      (e : Env api Data) (id : ResourceId) (r : Reference) (nic nic' : Nic R)
      → parse_azure_resource_id api.parse_authority e.data_.network_interface_id ≡ ok id
      → id.group ≡ r.group
      → get_or_empty (lookup (bytes "networkInterfaces") id.path) ≡ r.nic
      → e.data_.ip_configuration_name ≡ r.configuration
      → e.data_.target_id ≡ r.target
      → reference_of api.parse_authority (with_own_id e.data_).id ≡ ok r
      → store.held e.cloud r.group r.nic ≡ some nic
      → associate kind r.configuration r.target nic ≡ ok nic'
      → is_associated kind r.configuration r.target nic' ≡ ok true
      → create kind api e ≡ (ok tt, created r nic' e)
  unfolding create create_body
  create-created e id r nic nic' h1 h2 h3 h4 h5 h6 h7 h8 h9 = ground (
    arith,
    retrieve-held r.group r.nic (locked r.nic e) nic h7,
    save-saved store r.group r.nic nic' put_failed completion_failed (locked r.nic e),
    held-saved store r.group r.nic nic' (locked r.nic e),
    read-refreshed
        (record (saved store r.group r.nic nic' (locked r.nic e)) { data_ = with_own_id e.data_ }) r
        nic' h6,
  )

  -- The association of the state of a resource, on a network interface.
  abbrev pub own_reference : Str → Str → Data → Reference
  own_reference group n d = record {
    group = group;
    nic = n;
    configuration = d.ip_configuration_name;
    target = d.target_id;
  }

  -- Where the cloud holds the network interface, and its change returns: a create writes the changed network
  -- interface once, under its lock, and sets an ID from which a delete finds the association; the
  -- delete writes a network interface whose associations are those before the create, under the same lock.
  pub create-delete :
      (e : Env api Data) (sub group provider n : Str) (id : ResourceId) (nic nic' : Nic R)
      → IsPart sub
      → IsPart group
      → IsPart provider
      → IsPart n
      → IsPart e.data_.ip_configuration_name
      → Avoids b'|' e.data_.target_id
      → e.data_.network_interface_id ≡ joined b'/' (nic_segments sub group provider n)
      → parse_azure_resource_id api.parse_authority e.data_.network_interface_id ≡ ok id
      → id.group ≡ group
      → get_or_empty (lookup (bytes "networkInterfaces") id.path) ≡ n
      → store.held e.cloud group n ≡ some nic
      → associate kind e.data_.ip_configuration_name e.data_.target_id nic ≡ ok nic'
      → (back : Nic R) × (create kind api e
          ≡ (ok tt, created (own_reference group n e.data_) nic' e))
        × (delete kind api (created (own_reference group n e.data_) nic' e) ≡ (
          ok tt,
          deleted
              (own_reference group n e.data_)
              back
              (created (own_reference group n e.data_) nic' e),
        ))
        × (associations kind back ≡ associations kind nic)
  create-delete e sub group provider n id nic nic' h1 h2 h3 h4 h5 h6 written_as h7 h8 h9 h10 h11 =
      let r : Reference = own_reference group n e.data_ in
      let reads : reference_of api.parse_authority (with_own_id e.data_).id ≡ ok r =
        ap
          (λ base.
            reference_of api.parse_authority
              (association_id base e.data_.ip_configuration_name e.data_.target_id))
          written_as
        ∙ reference_of-association_id sub group provider n e.data_.ip_configuration_name h1 h2 h3 h4
            h5 api.parse_authority e.data_.target_id h6 in
      let (back, there, returned, same, gone) =
        dissociate-associate kind e.data_.ip_configuration_name e.data_.target_id nic nic' h11 in
      (
        back,
        create-created e id r nic nic' h7 h8 h9 refl refl reads h10 h11 there,
        delete-deleted (created r nic' e) r nic' back reads
            (held-saved store group n nic' (locked n e)) returned,
        same,
      )
