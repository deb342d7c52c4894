-- ===== src/LoadBalancer/Child/Locking.antt =====
-- On every path through a create or a delete, errors and panics included, the lock of the load
-- balancer is taken first and given back last, and the load balancer is written at most once.
use terraform_provider_azure.Base.{
  ◌≡◌, ◌⊎◌, inl, inr, some, List, [], ◌∷◌, ◌++◌, arith, ap, ◌∙◌, append_assoc, Option-cases,
  Outcome-cases, Str,
}
use terraform_provider_azure.ResourceId.{resource_group_and_lb_name}
use terraform_provider_azure.LoadBalancer.Model.{LoadBalancer, Item, find_in}
use terraform_provider_azure.LoadBalancer.Client.{Api, Env, Event, lock, unlock, written, retrieve}
use terraform_provider_azure.LoadBalancer.Child.{
  Kind, remove_at, write_back, store, create_body, create, delete_body, delete,
}
use terraform_provider_azure.LoadBalancer.Child.Lifecycle.{
  retrieve-Quiet, updated, store-events, write_back-events,
}

-- The events are the old ones, or one more, which writes the load balancer.
abbrev AtMostOne : List Event → List Event → Type 0
AtMostOne old new =
    (new ≡ old) ⊎ ((g : Str) × (n : Str) × (lb : LoadBalancer) × (new ≡ old ++ written g n lb ∷ []))

-- The same between the two events of the lock.
abbrev pub IsBracketed : Str → List Event → List Event → Type 0
IsBracketed key old new =
    (new ≡ old ++ lock key ∷ unlock key ∷ [])
    ⊎ ((g : Str) × (n : Str) × (lb : LoadBalancer) × (new
          ≡ old ++ lock key ∷ written g n lb ∷ unlock key ∷ []))

along :
    (old old' new new' : List Event)
    → old' ≡ old
    → new ≡ new'
    → AtMostOne old' new'
    → AtMostOne old new
along old old' new new' p q (inl same) = inl (q ∙ same ∙ p)
along old old' new new' p q (inr (g, n, lb, one)) =
    inr (g, n, lb, q ∙ one ∙ ap (λ v. v ++ written g n lb ∷ []) p)

-- The body of a lock.
bracket :
    (key : Str) (old mid : List Event)
    → AtMostOne (old ++ lock key ∷ []) mid
    → IsBracketed key old (mid ++ unlock key ∷ [])
bracket key old mid (inl same) = inl (rw same (simp append_assoc))
bracket key old mid (inr (g, n, lb, one)) = inr (g, n, lb, rw one (simp append_assoc))

module _ {P F : Type 0} (kind : Kind P F) (api : Api) where
  write_back-AtMostOne :
      (id : Str) (lb : LoadBalancer) (e : Env api F)
      → AtMostOne e.events (write_back kind api id lb e).1.events
  unfolding write_back
  write_back-AtMostOne id lb e =
      elim (Outcome-cases (resource_group_and_lb_name api.parse_authority id)) [
        | inl ((g, n), h) ↦ inr (g, n, lb, write_back-events kind api id lb e g n h)
        | inr (inl (x, h)) ↦ inl (ground arith)
        | inr (inr h) ↦ inl (ground arith)
      ]

  store-AtMostOne :
      (lb : LoadBalancer) (item : Item P) (e : Env api F)
      → AtMostOne e.events (store kind api lb item e).1.events
  unfolding store
  store-AtMostOne lb item e = elim (Option-cases lb.properties) [
    | inl none_there ↦ inl (ground arith)
    | inr (p, has_properties) ↦ elim (Option-cases (kind.items p)) [
      | inl none_there ↦ inl (ground arith)
      | inr (xs, has_items) ↦
          rw (store-events kind api lb item e p xs has_properties has_items)
            (write_back-AtMostOne _ _ e)
    ]
  ]

  create_body-AtMostOne :
      (id : Str) (e : Env api F) → AtMostOne e.events (create_body kind api id e).1.events
  unfolding create_body
  create_body-AtMostOne id e = elim (Outcome-cases (retrieve {api = api} {F = F} id e).0) [
    | inr (inl (x, h)) ↦ inl (ground (arith, retrieve-Quiet {api = api} {F = F} id e))
    | inr (inr h) ↦ inl (ground (arith, retrieve-Quiet {api = api} {F = F} id e))
    | inl (lb, h) ↦ elim (Option-cases lb) [
      | inl gone ↦ inl (ground (arith, retrieve-Quiet {api = api} {F = F} id e))
      | inr (l, there) ↦
          elim (Outcome-cases (kind.expand (retrieve {api = api} {F = F} id e).1.data_ l)) [
            | inr (inl (x, bad)) ↦ inl (ground (arith, retrieve-Quiet {api = api} {F = F} id e))
            | inr (inr bad) ↦ inl (ground (arith, retrieve-Quiet {api = api} {F = F} id e))
            | inl (item, expanded) ↦
                along e.events (retrieve {api = api} {F = F} id e).1.events _ _
                  (retrieve-Quiet {api = api} {F = F} id e) (ground arith)
                  (store-AtMostOne l item (retrieve {api = api} {F = F} id e).1)
          ]
    ]
  ]

  delete_body-AtMostOne :
      (id : Str) (e : Env api F) → AtMostOne e.events (delete_body kind api id e).1.events
  unfolding delete_body
  delete_body-AtMostOne id e = elim (Outcome-cases (retrieve {api = api} {F = F} id e).0) [
    | inr (inl (x, h)) ↦ inl (ground (arith, retrieve-Quiet {api = api} {F = F} id e))
    | inr (inr h) ↦ inl (ground (arith, retrieve-Quiet {api = api} {F = F} id e))
    | inl (lb, h) ↦ elim (Option-cases lb) [
      | inl gone ↦ inl (ground (arith, retrieve-Quiet {api = api} {F = F} id e))
      | inr (l, there) ↦ elim (Option-cases (find_in kind.items (some l) e.data_.name)) [
        | inl absent ↦ inl (ground (arith, retrieve-Quiet {api = api} {F = F} id e))
        | inr ((x, k), at_k) ↦ elim (Option-cases l.properties) [
          | inl bare ↦ inl (ground (arith, retrieve-Quiet {api = api} {F = F} id e))
          | inr (p, has_properties) ↦ elim (Option-cases (kind.items p)) [
            | inl bare ↦ inl (ground (arith, retrieve-Quiet {api = api} {F = F} id e))
            | inr (xs, has_items) ↦
                along e.events (retrieve {api = api} {F = F} id e).1.events _ _
                  (retrieve-Quiet {api = api} {F = F} id e) (ground arith)
                  (write_back-AtMostOne id (updated kind api l p (remove_at k xs))
                    (retrieve {api = api} {F = F} id e).1)
          ]
        ]
      ]
    ]
  ]

  -- Under the lock, a create writes the load balancer once or not at all, whatever the calls
  -- return.
  pub create-IsBracketed :
      (e : Env api F) → IsBracketed e.data_.loadbalancer_id e.events (create kind api e).1.events
  unfolding create
  create-IsBracketed e =
      bracket e.data_.loadbalancer_id e.events _ (create_body-AtMostOne e.data_.loadbalancer_id _)

  -- Under the lock, a delete writes the load balancer once or not at all, whatever the calls
  -- return.
  pub delete-IsBracketed :
      (e : Env api F) → IsBracketed e.data_.loadbalancer_id e.events (delete kind api e).1.events
  unfolding delete
  delete-IsBracketed e =
      bracket e.data_.loadbalancer_id e.events _ (delete_body-AtMostOne e.data_.loadbalancer_id _)
