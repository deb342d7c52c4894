-- ===== src/KeyVault/Lifecycle.antt =====
-- A secret's create, its read and an update of its value against a vault that keeps what is set.
use terraform_provider_azure.Base.{
  ◌≡◌, refl, Bool, true, false, Option, some, [], ◌∷◌, ◌++◌, arith, Str, bytes, str_eq, All, ok,
}
use terraform_provider_azure.Url.Absolute.{IsHostByte}
use terraform_provider_azure.ResourceId.{IsSegment, is_segment, is_segment_sound}
use terraform_provider_azure.Helpers.Tags.{flatten_tags-expand_tags}
use terraform_provider_azure.Handler.{Api, Env, answer_of, written}
use terraform_provider_azure.KeyVault.ChildId.{
  parse_key_vault_child_id, base_url, child_url, parse_key_vault_child_id-child_url,
}
use terraform_provider_azure.KeyVault.Secrets.{
  Secret, Data, set_parameters, show, secret_read, secret_create, set_value, secret_update,
}

abbrev pub secret_url : Str → Str → Str → Str
secret_url host name version = child_url host (bytes "secrets") name version

-- Vaults whose calls succeed: setting a secret gives it a new version, which is the latest then, with an ID
-- that is the version's URL.
pub record Versions (api : Api Secret) : Type 0 where
  pub latest : api.Cloud → Str → Str → Option Secret
  pub get_latest : (u n : Str) (c : api.Cloud) → api.get u n c ≡ (answer_of (latest c u n), c)
  pub set : Str → Str → Secret → api.Cloud → api.Cloud
  pub create_set :
      (u n : Str) (s : Secret) (c : api.Cloud) → api.create_or_update u n s c ≡ (true, set u n s c)
  pub version : Str → Str → Secret → api.Cloud → Str
  pub version-IsSegment : (u n : Str) (s : Secret) (c : api.Cloud) → IsSegment (version u n s c)
  pub latest_set :
      (host n : Str) (s : Secret) (c : api.Cloud)
      → latest (set (base_url host) n s c) (base_url host) n
        ≡ some (record s { id = some (secret_url host n (version (base_url host) n s c)) })

secrets-IsSegment : IsSegment (bytes "secrets")
unfolding is_segment
secrets-IsSegment = is_segment_sound (bytes "secrets") refl

module _ (api : Api Secret) (vault : Versions api) (host : Str) (plain : All IsHostByte host)
    (known : api.parse_authority host ≡ some host) where
  -- The version that a state's secret gets, and the state of the handler behind a create or an update
  -- that sets it.
  abbrev pub next_version : Env api Data → Str
  next_version e = vault.version (base_url host) e.data_.name (set_parameters e.data_) e.cloud

  abbrev pub set_version : Env api Data → Env api Data
  set_version e = record e {
    cloud = vault.set (base_url host) e.data_.name (set_parameters e.data_) e.cloud;
    data_ = record e.data_ {
      id = secret_url host e.data_.name (next_version e);
      version = next_version e;
    };
    events = e.events ++ written (base_url host) e.data_.name (set_parameters e.data_) ∷ [];
  }

  parse-secret_url :
      (n v : Str)
      → IsSegment n
      → IsSegment v
      → parse_key_vault_child_id api.parse_authority (secret_url host n v)
        ≡ ok (record { key_vault_base_url = base_url host; name = n; version = v })
  parse-secret_url n v =
      parse_key_vault_child_id-child_url api.parse_authority host (bytes "secrets") n v plain known
        secrets-IsSegment

  -- A read of a secret that was set as the state is, whichever version the state's ID names.
  read-latest :
      (e : Env api Data) (old v : Str)
      → e.data_.id ≡ secret_url host e.data_.name old
      → e.data_.vault_uri ≡ base_url host
      → IsSegment e.data_.name
      → IsSegment old
      → IsSegment v
      → vault.latest e.cloud (base_url host) e.data_.name
        ≡ some (record (set_parameters e.data_) { id = some (secret_url host e.data_.name v) })
      → secret_read api e ≡ (ok tt, record e { data_ = record e.data_ { version = v } })
  unfolding secret_read show
  read-latest e old v own uri name is_old is_v held = ground (
    arith,
    parse-secret_url e.data_.name old name is_old,
    parse-secret_url e.data_.name v name is_v,
    vault.get_latest (base_url host) e.data_.name e.cloud,
    flatten_tags-expand_tags (Unit {0}) (λ n. []) e.data_.tags,
  )

  -- The state behind the calls, before the read.
  abbrev unread : Env api Data → Env api Data
  unread e = record (set_version e) {
    data_ = record e.data_ { id = secret_url host e.data_.name (next_version e) };
  }

  read-unread :
      (e : Env api Data)
      → e.data_.vault_uri ≡ base_url host
      → IsSegment e.data_.name
      → secret_read api (unread e) ≡ (ok tt, set_version e)
  read-unread e uri name =
      let fresh =
        vault.version-IsSegment (base_url host) e.data_.name (set_parameters e.data_) e.cloud in
      read-latest (unread e) (next_version e) (next_version e) refl uri name fresh fresh
        (vault.latest_set host e.data_.name (set_parameters e.data_) e.cloud)

  create-set_version :
      (e : Env api Data)
      → e.data_.vault_uri ≡ base_url host
      → IsSegment e.data_.name
      → secret_create api e ≡ (ok tt, set_version e)
  unfolding secret_create
  create-set_version e uri name =
      let u = base_url host in
      let n = e.data_.name in
      let s = set_parameters e.data_ in
      ground (
        arith,
        vault.create_set u n s e.cloud,
        vault.get_latest u n (vault.set u n s e.cloud),
        vault.latest_set host n s e.cloud,
        read-unread e uri name,
      )

  update-set_version :
      (change : Str → Str → Str → Secret → api.Cloud → Bool × api.Cloud) (e : Env api Data)
      (old : Str)
      → e.data_.id ≡ secret_url host e.data_.name old
      → e.data_.vault_uri ≡ base_url host
      → IsSegment e.data_.name
      → IsSegment old
      → str_eq e.data_.old_value e.data_.value ≡ false
      → secret_update api change e ≡ (ok tt, set_version e)
  unfolding secret_update set_value
  update-set_version change e old own uri name is_old new =
      let u = base_url host in
      let n = e.data_.name in
      let s = set_parameters e.data_ in
      ground (
        arith,
        parse-secret_url n old name is_old,
        parse-secret_url n (next_version e) name (vault.version-IsSegment u n s e.cloud),
        vault.create_set u n s e.cloud,
        vault.get_latest u n (vault.set u n s e.cloud),
        vault.latest_set host n s e.cloud,
        read-unread e uri name,
      )

  -- The state with another value in its configuration.
  abbrev pub with_value : Str → Env api Data → Env api Data
  with_value new e = record e { data_ = record e.data_ { old_value = e.data_.value; value = new } }

  -- Against a vault that keeps what is set, at the URL of a host that `net/url` takes as it is, and for a name
  -- that is a segment: a create returns without an error, and the state has the URL and the version that the
  -- vault gave the secret, and all else as configured; an update with another value does so again. The latest
  -- secret of the vault is then the configured one, with the state's ID.
  pub create-update_secret :
      (change : Str → Str → Str → Secret → api.Cloud → Bool × api.Cloud) (e : Env api Data)
      (new : Str)
      → e.data_.vault_uri ≡ base_url host
      → IsSegment e.data_.name
      → str_eq e.data_.value new ≡ false
      → let created = secret_create api e in
        let updated = secret_update api change (with_value new created.1) in
        (created.0 ≡ ok tt)
        × (created.1.data_ ≡ record e.data_ {
          id = secret_url host e.data_.name (next_version e);
          version = next_version e;
        })
        × (updated.0 ≡ ok tt)
        × (updated.1.data_ ≡ record (with_value new created.1).data_ {
          id = secret_url host e.data_.name (next_version (with_value new created.1));
          version = next_version (with_value new created.1);
        })
        × (vault.latest updated.1.cloud (base_url host) e.data_.name
            ≡ some (record (set_parameters updated.1.data_) { id = some updated.1.data_.id }))
  create-update_secret change e new uri name other =
      let first = create-set_version e uri name in
      let e1 = with_value new (set_version e) in
      let fresh =
        vault.version-IsSegment (base_url host) e.data_.name (set_parameters e.data_) e.cloud in
      let second = update-set_version change e1 (next_version e) refl uri name fresh other in
      rw (first) (
        rw (second) (
          refl,
          refl,
          refl,
          refl,
          vault.latest_set host e.data_.name (set_parameters e1.data_) e1.cloud,
        ))
