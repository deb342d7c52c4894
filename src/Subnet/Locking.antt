-- ===== src/Subnet/Locking.antt =====
-- Which mutexes the handlers of an association lock, in which order, and under which they write.
use terraform_provider_azure.Base.{
  ◌≡◌, refl, Option-cases, none, some, [], ◌∷◌, arith, ok, err, panic, inl, inr, Outcome-cases, Str,
}
use terraform_provider_azure.ResourceId.{ResourceId, parse_azure_resource_id}
use terraform_provider_azure.Locks.Handlers.{
  one, association_create_locks, association_delete_locks, virtual_network, subnet,
}
use terraform_provider_azure.Handler.{
  save, Api, Env, found, missing, failed, Fetched, Fetched-cases, with_lock_by_name,
}
use terraform_provider_azure.Handler.Locking.{
  save-AddsTo, LocksBy, work-LocksBy, quiet-LocksBy, LocksBy-same, with_lock-LocksBy,
}
use terraform_provider_azure.Subnet.{put_failed, completion_failed, Kind, Subnet, link, unlink}
use terraform_provider_azure.Subnet.Association.{
  Data, path_of, vnet_of, name_of, show, read, adopt_id, create_body, create, delete_body,
  delete_linked, delete_found, delete,
}

module _ {R : Type 0} (kind : Kind R) (api : Api (Subnet R)) where
  show-Quiet : (s : Subnet R) (e : Env api Data) → (show kind api s e).1.events ≡ e.events
  unfolding show
  show-Quiet s e = ground arith

  read-Quiet : (e : Env api Data) → (read kind api e).1.events ≡ e.events
  unfolding read
  read-Quiet e = elim (Outcome-cases (parse_azure_resource_id api.parse_authority e.data_.id)) [
    | inl (id, h) ↦ elim (Fetched-cases (api.get id.group (path_of id) e.cloud).0) [
      | inl (s, h') ↦
          ground
            (arith, show-Quiet s (record e { cloud = (api.get id.group (path_of id) e.cloud).1 }))
      | inr (inl h') ↦ ground arith
      | inr (inr h') ↦ ground arith
    ]
    | inr (inl (x, h)) ↦ ground arith
    | inr (inr h) ↦ ground arith
  ]

  adopt_id-Quiet : (g p : Str) (e : Env api Data) → (adopt_id kind api g p e).1.events ≡ e.events
  unfolding adopt_id
  adopt_id-Quiet g p e = ground arith

  create_body-LocksBy :
      (id : ResourceId) (linked_id : Str) (e : Env api Data)
      → LocksBy (create_body kind api id linked_id) e []
  unfolding create_body
  create_body-LocksBy id linked_id e =
      let m = create_body kind api id linked_id in
      let e1 = record e { cloud = (api.get id.group (path_of id) e.cloud).1 } in
      elim (Fetched-cases (api.get id.group (path_of id) e.cloud).0) [
        | inl (s, h) ↦
            let e2 =
              (save {api = api} id.group (path_of id) (link kind linked_id s) put_failed
                completion_failed e1).1 in
            work-LocksBy m e (
              ground (
                arith,
                save-AddsTo id.group (path_of id) (link kind linked_id s) put_failed
                    completion_failed e1,
                adopt_id-Quiet id.group (path_of id) e2,
                read-Quiet (adopt_id kind api id.group (path_of id) e2).1,
              ))
        | inr (inl h) ↦ quiet-LocksBy m e [] (ground arith)
        | inr (inr h) ↦ quiet-LocksBy m e [] (ground arith)
      ]

  delete_body-LocksBy :
      (id : ResourceId) (e : Env api Data) → LocksBy (delete_body kind api id) e []
  unfolding delete_body
  delete_body-LocksBy id e =
      let m = delete_body kind api id in
      let e1 = record e { cloud = (api.get id.group (path_of id) e.cloud).1 } in
      elim (Fetched-cases (api.get id.group (path_of id) e.cloud).0) [
        | inl (s, h) ↦ elim (Outcome-cases (unlink kind s)) [
          | inl (s', h') ↦
              work-LocksBy m e (
                ground
                  (arith, save-AddsTo id.group (path_of id) s' put_failed completion_failed e1))
          | inr (inl (x, h')) ↦ quiet-LocksBy m e [] (ground arith)
          | inr (inr h') ↦ quiet-LocksBy m e [] (ground arith)
        ]
        | inr (inl h) ↦ quiet-LocksBy m e [] (ground arith)
        | inr (inr h) ↦ quiet-LocksBy m e [] (ground arith)
      ]

  -- The name that a handler locks, once it is parsed.
  abbrev pub parsed_name : Str → Str
  parsed_name id = elim (kind.parse_name api.parse_authority id) [
    | ok n ↦ n
    | err x ↦ []
    | panic ↦ []
  ]

  abbrev pub parsed : Str → ResourceId
  parsed id = elim (parse_azure_resource_id api.parse_authority id) [
    | ok r ↦ r
    | err x ↦ record { subscription = []; group = []; provider = []; path = [] }
    | panic ↦ record { subscription = []; group = []; provider = []; path = [] }
  ]

  -- Whatever the calls of a create return, and at an error or a panic too, it locks the security group or the
  -- route table that is configured and then the virtual network, as far as it gets, and unlocks what it
  -- locked, the last first. It writes at most once, and only while it holds them all.
  pub create-LocksBy :
      (e : Env api Data)
      → LocksBy (create kind api) e (
          association_create_locks kind.resource_type
            (parsed_name e.data_.linked_id)
            (vnet_of (parsed e.data_.subnet_id)))
  unfolding create
  create-LocksBy e =
      elim (Outcome-cases (parse_azure_resource_id api.parse_authority e.data_.subnet_id)) [
        | inr (inl (x, h)) ↦ quiet-LocksBy (create kind api) e _ (ground arith)
        | inr (inr h) ↦ quiet-LocksBy (create kind api) e _ (ground arith)
        | inl (id, h) ↦
            elim (Outcome-cases (kind.parse_name api.parse_authority e.data_.linked_id)) [
              | inr (inl (x, h')) ↦ quiet-LocksBy (create kind api) e _ (ground arith)
              | inr (inr h') ↦ quiet-LocksBy (create kind api) e _ (ground arith)
              | inl (name, h') ↦
                  let body = create_body kind api id e.data_.linked_id in
                  let inner = with_lock_by_name (vnet_of id) virtual_network body in
                  LocksBy-same (create kind api) (with_lock_by_name name kind.resource_type inner) e
                    e _ _
                    (with_lock-LocksBy name kind.resource_type inner e
                      (one (vnet_of id) virtual_network ∷ [])
                      (λ e1.
                        with_lock-LocksBy (vnet_of id) virtual_network body e1 []
                          (create_body-LocksBy id e.data_.linked_id)))
                    (ground arith) refl (ground arith)
            ]
      ]

  -- The ID of the security group or the route table of a subnet that a call gets, where it has one.
  abbrev pub linked_of : Fetched (Subnet R) → Str
  linked_of (found s) = elim s.properties [
    | none ↦ []
    | some p ↦ elim (kind.linked p) [ none ↦ [] | some x ↦ elim x.id [ none ↦ [] | some i ↦ i ] ]
  ]
  linked_of missing = []
  linked_of failed = []

  delete_linked-LocksBy :
      (id : ResourceId) (linked_id : Str) (e : Env api Data)
      → LocksBy (delete_linked kind api id linked_id) e (
          association_delete_locks kind.resource_type
            (parsed_name linked_id)
            (vnet_of id)
            (name_of id))
  unfolding delete_linked
  delete_linked-LocksBy id linked_id e =
      elim (Outcome-cases (kind.parse_name api.parse_authority linked_id)) [
        | inr (inl (x, h)) ↦ quiet-LocksBy (delete_linked kind api id linked_id) e _ (ground arith)
        | inr (inr h) ↦ quiet-LocksBy (delete_linked kind api id linked_id) e _ (ground arith)
        | inl (name, h) ↦
            let body = delete_body kind api id in
            let on_subnet = with_lock_by_name (name_of id) subnet body in
            let inner = with_lock_by_name (vnet_of id) virtual_network on_subnet in
            LocksBy-same (delete_linked kind api id linked_id)
              (with_lock_by_name name kind.resource_type inner) e e _ _
              (with_lock-LocksBy name kind.resource_type inner e
                (one (vnet_of id) virtual_network ∷ one (name_of id) subnet ∷ [])
                (λ e1.
                  with_lock-LocksBy (vnet_of id) virtual_network on_subnet e1
                    (one (name_of id) subnet ∷ [])
                    (λ e2.
                      with_lock-LocksBy (name_of id) subnet body e2 [] (delete_body-LocksBy id))))
              (ground arith) refl (ground arith)
      ]

  delete_found-LocksBy :
      (id : ResourceId) (s : Subnet R) (e : Env api Data)
      → LocksBy (delete_found kind api id s) e (
          association_delete_locks kind.resource_type
            (parsed_name (linked_of (found s)))
            (vnet_of id)
            (name_of id))
  unfolding delete_found
  delete_found-LocksBy id s e = elim (Option-cases s.properties) [
    | inl h ↦ quiet-LocksBy (delete_found kind api id s) e _ (ground arith)
    | inr (p, h) ↦ elim (Option-cases (kind.linked p)) [
      | inl h' ↦ quiet-LocksBy (delete_found kind api id s) e _ (ground arith)
      | inr (x, h') ↦ elim (Option-cases x.id) [
        | inl h'' ↦ quiet-LocksBy (delete_found kind api id s) e _ (ground arith)
        | inr (i, h'') ↦
            LocksBy-same (delete_found kind api id s) (delete_linked kind api id i) e e _ _
              (delete_linked-LocksBy id i e) (ground arith) refl (ground arith)
      ]
    ]
  ]

  -- Whatever the calls of a delete return, and at an error or a panic too, it locks the security group or the
  -- route table that the subnet has at the first call, then the virtual network, then the subnet, as far as it
  -- gets, and unlocks what it locked, the last first. It writes at most once, and only while it holds them
  -- all.
  pub delete-LocksBy :
      (e : Env api Data)
      → LocksBy (delete kind api) e (
          association_delete_locks kind.resource_type
            (parsed_name (
              linked_of
                (api.get (parsed e.data_.id).group (path_of (parsed e.data_.id)) e.cloud).0))
            (vnet_of (parsed e.data_.id))
            (name_of (parsed e.data_.id)))
  unfolding delete
  delete-LocksBy e = elim (Outcome-cases (parse_azure_resource_id api.parse_authority e.data_.id)) [
    | inr (inl (x, h)) ↦ quiet-LocksBy (delete kind api) e _ (ground arith)
    | inr (inr h) ↦ quiet-LocksBy (delete kind api) e _ (ground arith)
    | inl (id, h) ↦ elim (Fetched-cases (api.get id.group (path_of id) e.cloud).0) [
      | inr (inl h') ↦ quiet-LocksBy (delete kind api) e _ (ground arith)
      | inr (inr h') ↦ quiet-LocksBy (delete kind api) e _ (ground arith)
      | inl (s, h') ↦
          let e1 = record e { cloud = (api.get id.group (path_of id) e.cloud).1 } in
          LocksBy-same (delete kind api) (delete_found kind api id s) e e1 _ _
            (delete_found-LocksBy id s e1) (ground arith) refl (ground arith)
    ]
  ]
