-- ===== src/Handler.antt =====
-- What the handlers of resources share: the SDK's client of one type of resource as an interface,
-- the state that a handler works on, and the actions that it is made of. The API, the mutexes and
-- Terraform's store of a resource's state are not the provider's code.
pub mod Interleaving
pub mod Locking
pub mod MapCloud
pub mod Stored
pub mod Serial
use terraform_provider_azure.Base.{
  ◌≡◌, refl, ◌⊎◌, inl, inr, Bool, true, Option, none, some, List, [], ◌∷◌, ◌++◌, if◌then◌else◌, Str,
  Outcome, ok, err, panic, ◌&&◌, str_eq,
}
use terraform_provider_azure.Locks.Handlers.{key_of}

-- What `client.Get` returns: an error with status 404 is told apart from the others.
pub data Fetched (X : Type 0) : Type 0 where
  found : X → Fetched X
  missing : Fetched X
  failed : Fetched X

-- The calls of the SDK by resource group and name, each on the state of the cloud. A Boolean says
-- whether the call returned no error: `CreateOrUpdate`, and the wait for its future.
pub record Api (X : Type 0) : Type 1 where
  pub Cloud : Type 0
  pub get : Str → Str → Cloud → Fetched X × Cloud
  pub create_or_update : Str → Str → X → Cloud → Bool × Cloud
  pub wait_for_completion : Str → Str → Cloud → Bool × Cloud
  pub parse_authority : Str → Option Str

pub Fetched-cases :
    {X : Type 0} (f : Fetched X) → ((x : X) × (f ≡ found x)) ⊎ ((f ≡ missing) ⊎ (f ≡ failed))
Fetched-cases (found x) = inl (x, refl)
Fetched-cases missing = inr (inl refl)
Fetched-cases failed = inr (inr refl)

abbrev pub answer_of : {X : Type 0} → Option X → Fetched X
answer_of none = missing
answer_of (some x) = found x

-- A cloud whose calls succeed, and that holds what is put.
pub record Store {X : Type 0} (api : Api X) : Type 0 where
  pub held : api.Cloud → Str → Str → Option X
  pub get_held : (g n : Str) (c : api.Cloud) → api.get g n c ≡ (answer_of (held c g n), c)
  pub put : Str → Str → X → api.Cloud → api.Cloud
  pub create_put :
      (g n : Str) (x : X) (c : api.Cloud) → api.create_or_update g n x c ≡ (true, put g n x c)
  pub wait_held : (g n : Str) (c : api.Cloud) → api.wait_for_completion g n c ≡ (true, c)
  pub held_put :
      (g n h m : Str) (x : X) (c : api.Cloud)
      → held (put g n x c) h m ≡ (if str_eq g h && str_eq n m then some x else held c h m)

-- What a handler does that others can see, in order.
pub data Event (X : Type 0) : Type 0 where
  lock unlock : Str → Event X
  written : Str → Str → X → Event X
  removed : Str → Str → Event X

-- `D` is the resource's state, `schema.ResourceData`.
module _ {X : Type 0} (api : Api X) (D : Type 0) where
  pub record Env : Type 0 where
    pub cloud : api.Cloud
    pub data_ : D
    pub events : List (Event X)

  abbrev pub Action : Type 0 → Type 0 → Type 0
  Action E A = Env → Outcome E A × Env

module _ {X : Type 0} {api : Api X} {D E : Type 0} where
  infixl 5 ◌>>=◌ ◌>>◌
  abbrev pub ◌>>=◌ : {A B : Type 0} → Action api D E A → (A → Action api D E B) → Action api D E B
  ◌>>=◌ m f e =
      let (r, e') = m e in elim r [ ok a ↦ f a e' | err x ↦ (err x, e') | panic ↦ (panic, e') ]

  abbrev pub ◌>>◌ : {B : Type 0} → Action api D E (Unit {0}) → Action api D E B → Action api D E B
  m >> k = m >>= λ _. k

  abbrev pub lift : {A : Type 0} → Outcome E A → Action api D E A
  lift r e = (r, e)

  abbrev pub pure : {A : Type 0} → A → Action api D E A
  pure a e = (ok a, e)

  abbrev pub gets : {A : Type 0} → (D → A) → Action api D E A
  gets f e = (ok (f e.data_), e)

  -- Several `d.Set`.
  abbrev pub modify : (D → D) → Action api D E (Unit {0})
  modify f e = (ok tt, record e { data_ = f e.data_ })

  abbrev pub emit : Event X → Action api D E (Unit {0})
  emit v e = (ok tt, record e { events = e.events ++ v ∷ [] })

  -- `azureRMLockByName(name, resourceType)`, and the deferred unlock, which runs on every way out
  -- of the body.
  abbrev pub with_lock_by_name : {A : Type 0} → Str → Str → Action api D E A → Action api D E A
  with_lock_by_name name kind body e =
      let (r, e') = body (record e { events = e.events ++ lock (key_of name kind) ∷ [] }) in
      (r, record e' { events = e'.events ++ unlock (key_of name kind) ∷ [] })

  abbrev pub get : Str → Str → Action api D E (Fetched X)
  get group name e = let (f, c) = api.get group name e.cloud in (ok f, record e { cloud = c })

  -- A call that returns an error or nil.
  abbrev pub call : (api.Cloud → Bool × api.Cloud) → E → Action api D E (Unit {0})
  call f x e = let (fine, c) = f e.cloud in (if fine then ok tt else err x, record e { cloud = c })

  -- `CreateOrUpdate`, with the event.
  abbrev pub put : Str → Str → X → E → Action api D E (Unit {0})
  put group name x bad = emit (written group name x) >> call (api.create_or_update group name x) bad

  -- `CreateOrUpdate`, and the wait for its future.
  unfoldable pub save : Str → Str → X → E → E → Action api D E (Unit {0})
  save group name x bad incomplete = do
    put group name x bad
    call (api.wait_for_completion group name) incomplete
