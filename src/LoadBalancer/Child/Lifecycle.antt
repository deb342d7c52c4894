-- ===== src/LoadBalancer/Child/Lifecycle.antt =====
-- What the handlers of a resource inside a load balancer do, for every API and every outcome of its
-- calls: what they write, under which lock, and what stays.
use terraform_provider_azure.Base.{
  ℕ, ◌≤◌, ◌≡◌, inl, inr, false, Option, none, some, List, [], ◌∷◌, ◌++◌, arith, ap, ◌∙◌,
  append_assoc, ◌==◌, if◌then◌else◌, Str, ok,
}
use terraform_provider_azure.ResourceId.{resource_group_and_lb_name}
use terraform_provider_azure.LoadBalancer.Model.{LoadBalancer, Properties, Item, find_in}
use terraform_provider_azure.LoadBalancer.Client.{
  Api, Env, Action, Event, lock, unlock, written, found, retrieve,
}
use terraform_provider_azure.LoadBalancer.Child.Splice.{
  without_first, count_named, reapplied_lem, removed_lem,
}
use terraform_provider_azure.LoadBalancer.Child.{
  Kind, remove_at, reapplied, adopt, read, write_back, store, create_body, create, delete_body,
  delete,
}

module _ {api : Api} {F : Type 0} where
  -- The action has no event.
  abbrev pub Quiet : {A : Type 0} → Action api F A → Type 0
  Quiet m = (e : Env api F) → (m e).1.events ≡ e.events

  pub retrieve-Quiet : (id : Str) → Quiet {A = Option LoadBalancer} (retrieve id)
  unfolding retrieve
  retrieve-Quiet id e = ground arith

not_zero : (n : ℕ) → 1 ≤ n → (n == 0) ≡ false
not_zero n h = ground arith

module _ {P F : Type 0} (kind : Kind P F) (api : Api) where
  read-Quiet : Quiet {api = api} {F = F} {A = Unit {0}} (read kind api)
  unfolding read
  read-Quiet e = ground arith

  pub adopt-Quiet :
      (name : Str) (back : Str × Str × LoadBalancer)
      → Quiet {A = Unit {0}} (adopt kind api name back)
  unfolding adopt
  adopt-Quiet name back e = grind (arith, read-Quiet)

  -- The load balancer that a create writes.
  abbrev pub updated : LoadBalancer → Properties → List (Item P) → LoadBalancer
  updated lb p xs = record lb { properties = some (kind.set_items xs p) }

  pub store-events :
      (lb : LoadBalancer) (item : Item P) (e : Env api F) (p : Properties) (xs : List (Item P))
      → lb.properties ≡ some p
      → kind.items p ≡ some xs
      → (store kind api lb item e).1.events
        ≡ (write_back kind api e.data_.loadbalancer_id
            (updated lb p (reapplied kind lb e.data_.name xs item))
            e).1.events
  unfolding store
  store-events lb item e p xs hp hx = grind (arith, adopt-Quiet)

  pub write_back-events :
      (id : Str) (lb : LoadBalancer) (e : Env api F) (g n : Str)
      → resource_group_and_lb_name api.parse_authority id ≡ ok (g, n)
      → (write_back kind api id lb e).1.events ≡ e.events ++ written g n lb ∷ []
  unfolding write_back
  write_back-events id lb e g n h = ground arith

  -- The load balancer is there, and has the list.
  module _ (e : Env api F) (g n : Str) (l : LoadBalancer) (c : api.Cloud) (p : Properties)
      (xs : List (Item P))
      (parsed : resource_group_and_lb_name api.parse_authority e.data_.loadbalancer_id ≡ ok (g, n))
      (there : api.get g n e.cloud ≡ (found l, c)) (has_properties : l.properties ≡ some p)
      (has_items : kind.items p ≡ some xs) where
    locked : Env api F
    locked = record e { cloud = c; events = e.events ++ lock e.data_.loadbalancer_id ∷ [] }

    create-events :
        (item : Item P)
        → kind.expand e.data_ l ≡ ok item
        → (create kind api e).1.events
          ≡ (store kind api l item locked).1.events ++ unlock e.data_.loadbalancer_id ∷ []
    unfolding create create_body retrieve locked
    create-events item expanded = ground arith

    -- Where the load balancer exists and has the list, and the expansion gives an item, a create emits, under the lock,
    -- one write: the list without the first item of the name, and the new item at its end.
    pub create-writes :
        (item : Item P)
        → kind.expand e.data_ l ≡ ok item
        → (create kind api e).1.events
          ≡ e.events
            ++ lock e.data_.loadbalancer_id
              ∷ written g n (updated l p (without_first e.data_.name xs ++ item ∷ []))
              ∷ unlock e.data_.loadbalancer_id
              ∷ []
    unfolding locked
    create-writes item expanded =
        create-events item expanded
        ∙ ap (λ v. v ++ unlock e.data_.loadbalancer_id ∷ [])
            (store-events l item locked p xs has_properties has_items
              ∙ write_back-events _ _ locked g n parsed)
        ∙ ap
            (λ ys.
              ((e.events ++ lock e.data_.loadbalancer_id ∷ []) ++ written g n (updated l p ys) ∷ [])
              ++ unlock e.data_.loadbalancer_id ∷ [])
            (reapplied_lem kind l p xs has_properties has_items e.data_.name item)
        ∙ simp append_assoc

    delete-events_none :
        find_in kind.items (some l) e.data_.name ≡ none
        → (delete kind api e).1.events ≡ locked.events ++ unlock e.data_.loadbalancer_id ∷ []
    unfolding delete delete_body retrieve locked
    delete-events_none h = ground arith

    delete-events_some :
        (x : Item P) (k : ℕ)
        → find_in kind.items (some l) e.data_.name ≡ some (x, k)
        → (delete kind api e).1.events
          ≡ (write_back kind api e.data_.loadbalancer_id
              (updated l p (remove_at k xs))
              locked).1.events
            ++ unlock e.data_.loadbalancer_id ∷ []
    unfolding delete delete_body retrieve locked
    delete-events_some x k h = ground arith

    -- What a delete adds to the events.
    abbrev pub delete_events : List Event
    delete_events =
        if count_named e.data_.name xs == 0
        then lock e.data_.loadbalancer_id ∷ unlock e.data_.loadbalancer_id ∷ []
        else lock e.data_.loadbalancer_id
          ∷ written g n (updated l p (without_first e.data_.name xs))
          ∷ unlock e.data_.loadbalancer_id
          ∷ []

    -- Where the load balancer exists and has the list, a delete writes the list without the first item of the name, once, under the lock; with no such
    -- item it writes nothing.
    pub delete-writes : (delete kind api e).1.events ≡ e.events ++ delete_events
    unfolding locked
    delete-writes = elim (removed_lem kind l p xs has_properties has_items e.data_.name) [
      | inl (missed, none_left) ↦ rw none_left (delete-events_none missed ∙ simp append_assoc)
      | inr (x, k, at_k, some_left, cut) ↦ rw (not_zero (count_named e.data_.name xs) some_left) (
          delete-events_some x k at_k
          ∙ ap (λ v. v ++ unlock e.data_.loadbalancer_id ∷ [])
              (write_back-events _ _ locked g n parsed)
          ∙ ap
              (λ ys.
                ((e.events ++ lock e.data_.loadbalancer_id ∷ [])
                  ++ written g n (updated l p ys) ∷ [])
                ++ unlock e.data_.loadbalancer_id ∷ [])
              cut
          ∙ simp append_assoc)
    ]
