-- ===== src/Handler/Stored.antt =====
-- What a write leaves on a cloud that holds what is put.
use terraform_provider_azure.Base.{◌≡◌, ◌++◌, [], ◌∷◌, some, arith, Str, str_eq_self, ok}
use terraform_provider_azure.Handler.{Api, Store, Env, written, save}

module _ {X D : Type 0} {api : Api X} (store : Store api) where
  -- The state of the handler behind the two calls that write.
  abbrev pub saved : Str → Str → X → Env api D → Env api D
  saved g n x e = record e {
    cloud = store.put g n x e.cloud;
    events = e.events ++ written g n x ∷ [];
  }

  pub save-saved :
      {E : Type 0} (g n : Str) (x : X) (bad incomplete : E) (e : Env api D)
      → save g n x bad incomplete e ≡ (ok tt, saved g n x e)
  unfolding save
  save-saved g n x bad incomplete e =
      ground (arith, store.create_put g n x e.cloud, store.wait_held g n (store.put g n x e.cloud))

  pub held-saved :
      (g n : Str) (x : X) (e : Env api D) → store.held (saved g n x e).cloud g n ≡ some x
  held-saved g n x e =
      ground (arith, store.held_put g n g n x e.cloud, str_eq_self g, str_eq_self n)
