-- ===== src/LoadBalancer/Child.antt =====
-- The handlers of a resource inside a load balancer. The five resources differ in the list that
-- they live in, in what they expand from the configuration and in what they flatten into the state;
-- a `Kind` says how, and the rest of the handlers is the same code.
pub mod Splice
pub mod Lifecycle
pub mod Locking
use terraform_provider_azure.Base.{
  ℕ, zero, suc, ◌≡◌, Bool, true, false, Option, none, some, List, [], ◌∷◌, ◌++◌, if◌then◌else◌, Str,
  str_eq, lookup, get_or_empty, Outcome, ok, err, panic, wrap, deref,
}
use terraform_provider_azure.ResourceId.{parse_azure_resource_id}
use terraform_provider_azure.LoadBalancer.Model.{LoadBalancer, Properties, Item, is_named, find_in}
use terraform_provider_azure.LoadBalancer.Client.{
  Api, Env, Data, Action, LbError, bad_id, get_failed, completion_failed, no_lb_id, no_item_id,
  not_available, Fetched, found, missing, failed, ◌>>=◌, ◌>>◌, lift, pure, gets, set_id, on_data,
  with_lock, get, call, put, group_and_name, retrieve,
}

pub record Kind (P F : Type 0) : Type 0 where
  pub items : Properties → Option (List (Item P))
  pub set_items : List (Item P) → Properties → Properties
  pub items_set : (xs : List (Item P)) (p : Properties) → items (set_items xs p) ≡ some xs
  -- The key of the item's name in its ID.
  pub path_key : Str
  pub expand : Data F → LoadBalancer → Outcome LbError (Item P)
  pub flatten : (Str → Option Str) → Item P → Data F → Outcome LbError (Unit {0}) × Data F

-- `append(xs[:i], xs[i+1:]...)`
unfoldable pub remove_at {ℓ} : {A : Type ℓ} → ℕ → List A → List A
remove_at i [] = []
remove_at zero (x ∷ xs) = xs
remove_at (suc i) (x ∷ xs) = x ∷ remove_at i xs

-- The loop that looks for the ID of the created item: the last one of the name. A missing name, or a
-- missing ID behind the name, is a nil dereference.
unfoldable pub created_id : {P : Type 0} → List (Item P) → Str → Str → Outcome LbError Str
created_id [] name acc = ok acc
created_id (x ∷ xs) name acc = elim x.name [
  | none ↦ panic
  | some n ↦ elim (str_eq n name) [
    | false ↦ created_id xs name acc
    | true ↦ elim x.id [ none ↦ panic | some i ↦ created_id xs name i ]
  ]
]

module _ {P F : Type 0} (kind : Kind P F) where
  -- The new list: the item at the end, the old copy of the same name taken out.
  unfoldable pub reapplied : LoadBalancer → Str → List (Item P) → Item P → List (Item P)
  unfolding remove_at
  reapplied lb name xs item = elim (find_in kind.items (some lb) name) [
    | none ↦ xs ++ item ∷ []
    | some (x, i) ↦ if is_named name x.name then remove_at i (xs ++ item ∷ []) else xs ++ item ∷ []
  ]

  module _ (api : Api) where
    -- `resourceArmLoadBalancer…Read`
    unfoldable pub read : Action api F (Unit {0})
    unfolding retrieve
    read = do
      own ← gets (λ d. d.id)
      id ← lift (wrap bad_id (parse_azure_resource_id api.parse_authority own))
      let name = get_or_empty (lookup kind.path_key id.path)
      lb_id ← gets (λ d. d.loadbalancer_id)
      lb ← retrieve lb_id
      elim lb [
        | none ↦ set_id []
        | some l ↦ elim (find_in kind.items (some l) name) [
          | none ↦ set_id []
          | some (item, _) ↦ do
            on_data (λ d.
                (ok tt, record d { name = get_or_empty item.name; resource_group_name = id.group }))
            on_data (kind.flatten api.parse_authority item)
        ]
      ]

    -- The calls that write the load balancer and read it back.
    unfoldable pub write_back : Str → LoadBalancer → Action api F (Str × Str × LoadBalancer)
    write_back lb_id lb = do
      key ← group_and_name lb_id
      put key.0 key.1 lb
      call (api.wait_for_completion key.0 key.1) completion_failed
      answer ← get key.0 key.1
      elim answer [
        | found l ↦ elim l.id [ none ↦ lift (err no_lb_id) | some i ↦ pure (key.0, key.1, l) ]
        | missing ↦ lift (err get_failed)
        | failed ↦ lift (err get_failed)
      ]

    -- The part of the create behind the write: the ID of the item, and the read.
    unfoldable pub adopt : Str → Str × Str × LoadBalancer → Action api F (Unit {0})
    unfolding created_id read
    adopt name (group, lb_name, back) = do
      q ← lift (deref back.properties)
      ys ← lift (deref (kind.items q))
      own ← lift (created_id ys name [])
      if str_eq own []
          then lift (err no_item_id)
          else do set_id own; call (api.wait_for_state group lb_name) not_available; read

    -- The part of the create behind the expansion.
    unfoldable pub store : LoadBalancer → Item P → Action api F (Unit {0})
    unfolding reapplied write_back adopt
    store lb item = do
      lb_id ← gets (λ d. d.loadbalancer_id)
      name ← gets (λ d. d.name)
      p ← lift (deref lb.properties)
      xs ← lift (deref (kind.items p))
      back ←
          write_back lb_id
            (record lb { properties = some (kind.set_items (reapplied lb name xs item) p) })
      adopt name back

    -- What a create does under the lock.
    create_body : Str → Action api F (Unit {0})
    unfolding retrieve store
    create_body lb_id = do
      lb ← retrieve lb_id
      elim lb [
        | none ↦ set_id []
        | some l ↦ do expand ← gets kind.expand; item ← lift (expand l); store l item
      ]

    -- `resourceArmLoadBalancer…Create`, or `…CreateUpdate`
    unfoldable pub create : Action api F (Unit {0})
    unfolding create_body
    create = do lb_id ← gets (λ d. d.loadbalancer_id); with_lock lb_id (create_body lb_id)

    -- What a delete does under the lock.
    delete_body : Str → Action api F (Unit {0})
    unfolding retrieve remove_at write_back
    delete_body lb_id = do
      name ← gets (λ d. d.name)
      lb ← retrieve lb_id
      elim lb [
        | none ↦ set_id []
        | some l ↦ elim (find_in kind.items (some l) name) [
          | none ↦ pure tt
          | some (_, i) ↦ do
            p ← lift (deref l.properties)
            xs ← lift (deref (kind.items p))
            back ←
                write_back lb_id
                  (record l { properties = some (kind.set_items (remove_at i xs) p) })
            pure tt
        ]
      ]

    -- `resourceArmLoadBalancer…Delete`
    unfoldable pub delete : Action api F (Unit {0})
    unfolding delete_body
    delete = do lb_id ← gets (λ d. d.loadbalancer_id); with_lock lb_id (delete_body lb_id)
