-- ===== src/Subnet/Handlers.antt =====
-- The handlers of a subnet: their mutexes, and what a read gives behind a create.
use terraform_provider_azure.Base.{
  ◌≡◌, refl, Option, Option-cases, none, some, List, [], ◌∷◌, ◌++◌, arith, Outcome, ok, err, panic,
  inl, inr, Outcome-cases, append-nil, Str, Bool,
}
use terraform_provider_azure.ResourceId.{
  ResourceId, IdError, parse_azure_resource_id, parse_network_security_group_name,
  parse_route_table_name,
}
use terraform_provider_azure.Locks.Handlers.{
  Key, optional, subnet_create_locks, subnet_delete_locks, virtual_network, subnet,
  network_security_group, route_table,
}
use terraform_provider_azure.Handler.{
  save, Api, Env, Action, Fetched-cases, found, removed, with_lock_by_name,
}
use terraform_provider_azure.Handler.Locking.{
  save-AddsTo, ops_of, ops_of-append, LocksBy, work-LocksBy, quiet-LocksBy, LocksBy-same,
  with_lock-LocksBy,
}
use terraform_provider_azure.Subnet.{
  Subnet, SubnetProperties, SubnetError, put_failed, completion_failed, subnet_path,
}
use terraform_provider_azure.Subnet.Endpoints.{
  flatten_ip_configurations, flatten-expand_service_endpoints,
}
use terraform_provider_azure.Subnet.Association.{path_of, vnet_of, name_of}
use terraform_provider_azure.Subnet.Resource.{
  Data, configured, new_subnet, text_of, set_linked_id, with_configured, show_properties, show,
  read, adopt_id, create_body, create, delete_body, delete,
}

-- The name that a handler locks for a configured ID, if any.
abbrev pub configured_name : (Str → Outcome IdError Str) → Str → Option Str
configured_name parse_name [] = none
configured_name parse_name (b ∷ bs) = elim (parse_name (b ∷ bs)) [
  | ok n ↦ some n
  | err x ↦ none
  | panic ↦ none
]

set-configured :
    (R : Type 0) (s old : Str) → (s ≡ [] → old ≡ []) → set_linked_id {R = R} (configured s) old ≡ s
set-configured R [] old h = h refl
set-configured R (b ∷ bs) old h = refl

text_of-configured : (R : Type 0) (s : Str) → text_of {R = R} (configured s) ≡ s
text_of-configured R [] = refl
text_of-configured R (b ∷ bs) = refl

module _ {R : Type 0} (api : Api (Subnet R)) where
  with_configured-LocksBy :
      (parse_name : Str → Outcome IdError Str) (resource_type id : Str)
      (body : Action api Data SubnetError (Unit {0})) (e : Env api Data) (gs : List (List Key))
      → ((e' : Env api Data) → LocksBy body e' gs)
      → LocksBy
          (with_configured api parse_name resource_type id body)
          e
          (optional resource_type (configured_name parse_name id) ++ gs)
  with_configured-LocksBy parse_name resource_type [] body e gs h = h e
  with_configured-LocksBy parse_name resource_type (b ∷ bs) body e gs h =
      let m = with_configured api parse_name resource_type (b ∷ bs) body in
      elim (Outcome-cases (parse_name (b ∷ bs))) [
        | inr (inl (x, h')) ↦ quiet-LocksBy m e _ (ground arith)
        | inr (inr h') ↦ quiet-LocksBy m e _ (ground arith)
        | inl (name, h') ↦
            LocksBy-same m (with_lock_by_name name resource_type body) e e _ _
              (with_lock-LocksBy name resource_type body e gs h) (ground arith) refl (ground arith)
      ]

  show_properties-Quiet :
      (p : SubnetProperties R) (e : Env api Data) → (show_properties api p e).1.events ≡ e.events
  unfolding show_properties
  show_properties-Quiet p e = ground arith

  show-Quiet :
      (id : ResourceId) (s : Subnet R) (e : Env api Data) → (show api id s e).1.events ≡ e.events
  unfolding show
  show-Quiet id s e =
      let e1 = record e {
        data_ = record e.data_ {
          name = name_of id;
          resource_group_name = id.group;
          virtual_network_name = vnet_of id;
        };
      } in
      elim (Option-cases s.properties) [
        | inl h ↦ ground arith
        | inr (p, h) ↦ ground (arith, show_properties-Quiet p e1)
      ]

  read-Quiet : (e : Env api Data) → (read api e).1.events ≡ e.events
  unfolding read
  read-Quiet e = elim (Outcome-cases (parse_azure_resource_id api.parse_authority e.data_.id)) [
    | inl (id, h) ↦ elim (Fetched-cases (api.get id.group (path_of id) e.cloud).0) [
      | inl (s, h') ↦
          ground (
            arith,
            show-Quiet id s (record e { cloud = (api.get id.group (path_of id) e.cloud).1 }),
          )
      | inr (inl h') ↦ ground arith
      | inr (inr h') ↦ ground arith
    ]
    | inr (inl (x, h)) ↦ ground arith
    | inr (inr h) ↦ ground arith
  ]

  adopt_id-Quiet : (g p : Str) (e : Env api Data) → (adopt_id api g p e).1.events ≡ e.events
  unfolding adopt_id
  adopt_id-Quiet g p e = ground arith

  create_body-LocksBy : (d : Data) (e : Env api Data) → LocksBy (create_body api d) e []
  unfolding create_body
  create_body-LocksBy d e =
      let g = d.resource_group_name in
      let p = subnet_path d.virtual_network_name d.name in
      let e2 = (save {api = api} g p (new_subnet d) put_failed completion_failed e).1 in
      work-LocksBy (create_body api d) e (
        ground (
          arith,
          save-AddsTo g p (new_subnet d) put_failed completion_failed e,
          adopt_id-Quiet g p e2,
          read-Quiet (adopt_id api g p e2).1,
        ))

  delete_body-LocksBy :
      (remove : Str → Str → api.Cloud → Bool × api.Cloud) (id : ResourceId) (e : Env api Data)
      → LocksBy (delete_body api remove id) e []
  unfolding delete_body ops_of
  delete_body-LocksBy remove id e =
      work-LocksBy (delete_body api remove id) e
        (ground (arith, ops_of-append e.events (removed id.group (path_of id) ∷ [])))

  abbrev pub security_group_name : Str → Option Str
  security_group_name = configured_name (parse_network_security_group_name api.parse_authority)

  abbrev pub route_table_name : Str → Option Str
  route_table_name = configured_name (parse_route_table_name api.parse_authority)

  -- Whatever the calls of a create return, and at an error or a panic too, it locks the virtual network, then the
  -- security group and the route table where they are configured, as far as it gets, and unlocks what it
  -- locked, the last first. It writes the subnet at most once, and only while it holds them all.
  pub create-LocksBy_subnet :
      (e : Env api Data)
      → LocksBy (create api) e (
          subnet_create_locks e.data_.virtual_network_name
            (security_group_name e.data_.network_security_group_id)
            (route_table_name e.data_.route_table_id))
  unfolding create
  create-LocksBy_subnet e =
      let d = e.data_ in
      let tables =
        with_configured api (parse_route_table_name api.parse_authority) route_table
          d.route_table_id (create_body api d) in
      let groups =
        with_configured api (parse_network_security_group_name api.parse_authority)
          network_security_group d.network_security_group_id tables in
      with_lock-LocksBy d.virtual_network_name virtual_network groups e _ (λ e1.
        with_configured-LocksBy (parse_network_security_group_name api.parse_authority)
          network_security_group d.network_security_group_id tables e1 _
          (λ e2.
            LocksBy-same tables tables e2 e2 _ _
              (with_configured-LocksBy (parse_route_table_name api.parse_authority) route_table
                d.route_table_id (create_body api d) e2 [] (create_body-LocksBy d))
              refl refl (append-nil (optional route_table (route_table_name d.route_table_id)))))

  -- Whatever the calls of a delete return, and at an error or a panic too, it locks the security group and the
  -- route table where the state has them, then the virtual network and the subnet of the ID, as far as it
  -- gets, and unlocks what it locked, the last first. It asks for the removal at most once, and only while it
  -- holds them all.
  pub delete-LocksBy_subnet :
      (remove : Str → Str → api.Cloud → Bool × api.Cloud) (e : Env api Data) (id : ResourceId)
      → parse_azure_resource_id api.parse_authority e.data_.id ≡ ok id
      → LocksBy (delete api remove) e (
          subnet_delete_locks
            (name_of id)
            (vnet_of id)
            (security_group_name e.data_.network_security_group_id)
            (route_table_name e.data_.route_table_id))
  unfolding delete
  delete-LocksBy_subnet remove e id h =
      let d = e.data_ in
      let body = delete_body api remove id in
      let on_subnet = with_lock_by_name (name_of id) subnet body in
      let on_network = with_lock_by_name (vnet_of id) virtual_network on_subnet in
      let tables =
        with_configured api (parse_route_table_name api.parse_authority) route_table
          d.route_table_id on_network in
      let groups =
        with_configured api (parse_network_security_group_name api.parse_authority)
          network_security_group d.network_security_group_id tables in
      LocksBy-same (delete api remove) groups e e _ _
        (with_configured-LocksBy (parse_network_security_group_name api.parse_authority)
          network_security_group d.network_security_group_id tables e _
          (λ e2.
            with_configured-LocksBy (parse_route_table_name api.parse_authority) route_table
              d.route_table_id on_network e2 _
              (λ e3. with_lock-LocksBy (vnet_of id) virtual_network on_subnet e3 _ (λ e4.
                with_lock-LocksBy (name_of id) subnet body e4 [] (delete_body-LocksBy remove id)))))
        (rw h refl) refl refl

  -- A read of a subnet that is as a create sends it, but for its ID, sets the configuration that the create
  -- had, whatever the state was before, and no IP configurations. If the configuration has no security group,
  -- the state must have none: the read does not take one out.
  pub read-new_subnet :
      (d : Data) (own : Str) (id : ResourceId) (e : Env api Data) (c : api.Cloud)
      → parse_azure_resource_id api.parse_authority own ≡ ok id
      → id.group ≡ d.resource_group_name
      → vnet_of id ≡ d.virtual_network_name
      → name_of id ≡ d.name
      → e.data_.id ≡ own
      → (d.network_security_group_id ≡ [] → e.data_.network_security_group_id ≡ [])
      → api.get id.group (path_of id) e.cloud
        ≡ (found (record (new_subnet {R = R} d) { id = some own }), c)
      → read api e
        ≡ (ok tt, record e { data_ = record d { id = own; ip_configurations = [] }; cloud = c })
  unfolding read show show_properties flatten_ip_configurations
  read-new_subnet d own id e c h1 h2 h3 h4 h5 h6 h7 = ground (
    arith,
    set-configured R d.network_security_group_id e.data_.network_security_group_id h6,
    text_of-configured R d.route_table_id,
    flatten-expand_service_endpoints R d.service_endpoints,
  )
