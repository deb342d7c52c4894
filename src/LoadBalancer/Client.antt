-- ===== src/LoadBalancer/Client.antt =====
-- The API's client as an interface, the state of a handler, and the actions that handlers are
-- made of. The API, the mutexes and the resource's state store are not the provider's code.
use terraform_provider_azure.Base.{
  Bool, Option, none, some, List, [], ◌∷◌, ◌++◌, if◌then◌else◌, Str, Outcome, ok, err, panic, wrap,
}
use terraform_provider_azure.ResourceId.{IdError, resource_group_and_lb_name}
use terraform_provider_azure.LoadBalancer.Model.{LoadBalancer}

-- What `client.Get` returns: an error with status 404 is told apart from the others.
pub data Fetched : Type 0 where
  found : LoadBalancer → Fetched
  missing : Fetched
  failed : Fetched

-- The calls of the SDK, each on the state of the cloud. A Boolean says whether the call returned no
-- error: `CreateOrUpdate`, the wait for its future, and `WaitForState`.
pub record Api : Type 1 where
  pub Cloud : Type 0
  pub get : Str → Str → Cloud → Fetched × Cloud
  pub create_or_update : Str → Str → LoadBalancer → Cloud → Bool × Cloud
  pub wait_for_completion : Str → Str → Cloud → Bool × Cloud
  pub wait_for_state : Str → Str → Cloud → Bool × Cloud
  pub parse_authority : Str → Option Str

-- What a handler does that others can see, in order.
pub data Event : Type 0 where
  lock unlock : Str → Event
  written : Str → Str → LoadBalancer → Event

pub data LbError : Type 0 where
  bad_id : IdError → LbError
  get_failed put_failed completion_failed no_lb_id no_item_id not_available no_frontend : LbError

-- `schema.ResourceData`: the fields that the five resources share, and those of one resource.
pub record Data (F : Type 0) : Type 0 where
  pub id : Str
  pub name : Str
  pub resource_group_name : Str
  pub loadbalancer_id : Str
  pub fields : F

module _ (api : Api) (F : Type 0) where
  pub record Env : Type 0 where
    pub cloud : api.Cloud
    pub data_ : Data F
    pub events : List Event

  abbrev pub Action : Type 0 → Type 0
  Action A = Env → Outcome LbError A × Env

module _ {api : Api} {F : Type 0} where
  infixl 5 ◌>>=◌ ◌>>◌
  abbrev pub ◌>>=◌ : {A B : Type 0} → Action api F A → (A → Action api F B) → Action api F B
  ◌>>=◌ m f e =
      let (r, e') = m e in elim r [ ok a ↦ f a e' | err x ↦ (err x, e') | panic ↦ (panic, e') ]

  abbrev pub ◌>>◌ : {B : Type 0} → Action api F (Unit {0}) → Action api F B → Action api F B
  m >> k = m >>= λ _. k

  abbrev pub lift : {A : Type 0} → Outcome LbError A → Action api F A
  lift r e = (r, e)

  abbrev pub pure : {A : Type 0} → A → Action api F A
  pure a e = (ok a, e)

  abbrev pub gets : {A : Type 0} → (Data F → A) → Action api F A
  gets f e = (ok (f e.data_), e)

  -- `d.SetId(id)`
  abbrev pub set_id : Str → Action api F (Unit {0})
  set_id i e = (ok tt, record e { data_ = record (e.data_) { id = i } })

  -- Several `d.Set`, and what they return.
  abbrev pub on_data : {A : Type 0} → (Data F → Outcome LbError A × Data F) → Action api F A
  on_data f e = let (r, d) = f e.data_ in (r, record e { data_ = d })

  abbrev pub emit : Event → Action api F (Unit {0})
  emit v e = (ok tt, record e { events = e.events ++ v ∷ [] })

  -- `armMutexKV.Lock(key)`, and the deferred `Unlock`, which runs on every way out of the body.
  abbrev pub with_lock : {A : Type 0} → Str → Action api F A → Action api F A
  with_lock key body e =
      let (r, e') = body (record e { events = e.events ++ lock key ∷ [] }) in
      (r, record e' { events = e'.events ++ unlock key ∷ [] })

  abbrev pub get : Str → Str → Action api F Fetched
  get group name e = let (f, c) = api.get group name e.cloud in (ok f, record e { cloud = c })

  -- A call that returns an error or nil.
  abbrev pub call : (api.Cloud → Bool × api.Cloud) → LbError → Action api F (Unit {0})
  call f x e = let (fine, c) = f e.cloud in (if fine then ok tt else err x, record e { cloud = c })

  -- `CreateOrUpdate`, with the event.
  abbrev pub put : Str → Str → LoadBalancer → Action api F (Unit {0})
  put group name lb =
      emit (written group name lb) >> call (api.create_or_update group name lb) put_failed

  -- `resourceGroupAndLBNameFromId`
  abbrev pub group_and_name : Str → Action api F (Str × Str)
  group_and_name id = lift (wrap bad_id (resource_group_and_lb_name api.parse_authority id))

  -- `retrieveLoadBalancerById`; `none` where the load balancer does not exist.
  unfoldable pub retrieve : Str → Action api F (Option LoadBalancer)
  retrieve id = do
    key ← group_and_name id
    answer ← get key.0 key.1
    elim answer [ found lb ↦ pure (some lb) | missing ↦ pure none | failed ↦ lift (err get_failed) ]
