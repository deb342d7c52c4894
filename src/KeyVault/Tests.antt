-- ===== src/KeyVault/Tests.antt =====
-- Access policies with texts for UUIDs, settings without a vault, and a vault of secrets that is a list of
-- all that was set.
use terraform_provider_azure.Base.{
  ◌≡◌, refl, true, false, ◌&&◌, Option, none, some, List, [], ◌∷◌, ◌++◌, Str, bytes, is_some, panic,
  ok, str_eq, str_eq_self, if◌then◌else◌, All, arith, append_assoc, append-nil, ap, ◌∙◌, sym,
}
use terraform_provider_azure.Text.{joined}
use terraform_provider_azure.Url.Absolute.{IsHostByte, host_text, host_text_sound}
use terraform_provider_azure.ResourceId.{IsSegment, is_segment, is_segment_sound, IsPlain}
use terraform_provider_azure.Handler.{Api, Env, answer_of}
use terraform_provider_azure.KeyVault.ChildId.{
  base_url, is_key_vault_child_name, parse_key_vault_child_id, parse_key_vault_child_id-child_url,
}
use terraform_provider_azure.KeyVault.Secrets.{
  Secret, Data, set_parameters, secret_create, secret_update,
}
use terraform_provider_azure.KeyVault.Lifecycle.{
  Versions, secret_url, next_version, with_value, create-update_secret,
}
use terraform_provider_azure.KeyVault.Policies.{Uuids, PolicyFields, expand_access_policies}
use terraform_provider_azure.KeyVault.Search.{
  find_access_policy, IsFirst, find_access_policy-IsFirst,
}
use terraform_provider_azure.KeyVault.Encryption.{
  KeyReference, EncryptionSettings, flatten_encryption, returned, is_readable,
  returned-flatten_encryption,
}

abbrev text_uuids : Uuids
text_uuids = record { Uuid = Str; from_string = λ s. some s; nil = []; to_string = λ s. s }

abbrev reader : PolicyFields
reader = record {
  tenant_id = bytes "t";
  object_id = bytes "reader";
  application_id = [];
  certificate_permissions = [];
  key_permissions = bytes "get" ∷ [];
  secret_permissions = [];
}

abbrev writer : PolicyFields
writer = record {
  tenant_id = bytes "t";
  object_id = bytes "writer";
  application_id = bytes "app";
  certificate_permissions = bytes "create" ∷ [];
  key_permissions = bytes "get" ∷ bytes "list" ∷ [];
  secret_permissions = bytes "set" ∷ [];
}

find_access_policy-IsFirst_example :
    IsFirst text_uuids
      (bytes "WRITER")
      (bytes "App")
      (expand_access_policies text_uuids (reader ∷ writer ∷ []))
      (find_access_policy text_uuids
        (some (expand_access_policies text_uuids (reader ∷ writer ∷ [])))
        (bytes "WRITER")
        (bytes "App"))
find_access_policy-IsFirst_example =
    find_access_policy-IsFirst text_uuids (expand_access_policies text_uuids (reader ∷ writer ∷ []))
      (bytes "WRITER") (bytes "App")

abbrev bare_key : KeyReference
bare_key = record { url = some (bytes "u"); source_vault = none }

abbrev without_vault : EncryptionSettings
without_vault = record {
  enabled = some true;
  disk_encryption_key = some bare_key;
  key_encryption_key = some bare_key;
}

without_vault-panics : flatten_encryption without_vault ≡ panic
unfolding flatten_encryption
without_vault-panics = refl

returned-flatten_encryption_example : returned (flatten_encryption without_vault) ≡ (
    is_some without_vault.enabled
    && is_readable false without_vault.disk_encryption_key
    && is_readable true without_vault.key_encryption_key)
returned-flatten_encryption_example = returned-flatten_encryption without_vault

abbrev Held : Type 0
Held = List (Str × Str × Secret)

latest : Held → Str → Str → Option Secret
latest [] u n = none
latest ((v, m, s) ∷ c) u n =
    let rest = latest c u n in if str_eq v u && str_eq m n then some s else rest

-- One byte for each secret that was set before.
marks : Held → Str
marks [] = []
marks (x ∷ c) = b'1' ∷ marks c

set : Str → Str → Secret → Held → Held
set u n s c =
    (u, n, record s { id = some (u ++ (bytes "secrets/" ++ (n ++ b'/' ∷ b'v' ∷ marks c))) }) ∷ c

abbrev list_vault : Api Secret
list_vault = record {
  Cloud = Held;
  get = λ u n c. (answer_of (latest c u n), c);
  create_or_update = λ u n s c. (true, set u n s c);
  wait_for_completion = λ u n c. (true, c);
  parse_authority = λ s. some s;
}

digit-IsPlain : IsPlain b'1'
digit-IsPlain = (refl, omega arith, omega arith, omega arith)

letter-IsPlain : IsPlain b'v'
letter-IsPlain = (refl, omega arith, omega arith, omega arith)

marks-IsPlain : (c : Held) → All IsPlain (marks c)
unfolding marks
marks-IsPlain [] = tt
marks-IsPlain (x ∷ c) = (digit-IsPlain, marks-IsPlain c)

version_url-base_url :
    (host n : Str) (c : Held)
    → base_url host ++ (bytes "secrets/" ++ (n ++ b'/' ∷ b'v' ∷ marks c))
      ≡ secret_url host n (b'v' ∷ marks c)
unfolding joined
version_url-base_url host n c =
    ap (λ r. bytes "https://" ++ r)
      (append_assoc host (bytes "/") (bytes "secrets/" ++ (n ++ b'/' ∷ b'v' ∷ marks c))
        ∙ ap (λ r. host ++ b'/' ∷ (bytes "secrets/" ++ (n ++ b'/' ∷ b'v' ∷ r)))
            (sym (append-nil (marks c))))

latest-set :
    (host n : Str) (s : Secret) (c : Held)
    → latest (set (base_url host) n s c) (base_url host) n
      ≡ some (record s { id = some (secret_url host n (b'v' ∷ marks c)) })
unfolding latest set
latest-set host n s c =
    rw (str_eq_self (base_url host), str_eq_self n)
      (ap (λ i. some (record s { id = some i })) (version_url-base_url host n c))

version-IsSegment : (c : Held) → IsSegment (b'v' ∷ marks c)
version-IsSegment c = ((λ e. cc e), (letter-IsPlain, marks-IsPlain c))

abbrev list_versions : Versions list_vault
list_versions = record {
  latest = latest;
  get_latest = λ u n c. refl;
  set = set;
  create_set = λ u n s c. refl;
  version = λ u n s c. b'v' ∷ marks c;
  version-IsSegment = λ u n s c. version-IsSegment c;
  latest_set = latest-set;
}

abbrev host : Str
host = bytes "kv.vault.azure.net"

host-IsHostByte : All IsHostByte host
unfolding host_text
host-IsHostByte = host_text_sound host refl

bird-IsSegment : IsSegment (bytes "bird")
unfolding is_segment
bird-IsSegment = is_segment_sound (bytes "bird") refl

parse_key_vault_child_id-child_url_example :
    parse_key_vault_child_id (λ s. some s) (bytes "https://kv.vault.azure.net/secrets/bird/fdf067")
    ≡ ok (record {
      key_vault_base_url = bytes "https://kv.vault.azure.net/";
      name = bytes "bird";
      version = bytes "fdf067";
    })
unfolding is_segment joined
parse_key_vault_child_id-child_url_example =
    parse_key_vault_child_id-child_url (λ s. some s) host (bytes "secrets") (bytes "bird")
      (bytes "fdf067") host-IsHostByte refl (is_segment_sound (bytes "secrets") refl) bird-IsSegment
      (is_segment_sound (bytes "fdf067") refl)

names_checked :
    (is_key_vault_child_name (bytes "hello-world-21") ≡ true)
    × (is_key_vault_child_name (bytes "hello_world_21") ≡ false)
    × (is_key_vault_child_name [] ≡ false)
unfolding is_key_vault_child_name str_eq
names_checked = (refl, refl, refl)

abbrev bird : Env list_vault Data
bird = record {
  cloud = [];
  data_ = record {
    id = [];
    name = bytes "bird";
    vault_uri = base_url host;
    old_value = [];
    value = bytes "red";
    content_type = bytes "text";
    version = [];
    tags = (bytes "owner", bytes "me") ∷ [];
  };
  events = [];
}

other_value : str_eq (bytes "red") (bytes "blue") ≡ false
unfolding str_eq
other_value = refl

create-update_secret_example :
    let next = next_version list_vault list_versions host host-IsHostByte refl in
    let with_blue = with_value list_vault list_versions host host-IsHostByte refl (bytes "blue") in
    let created = secret_create list_vault bird in
    let updated = secret_update list_vault (λ u n v s c. (true, c)) (with_blue created.1) in
    (created.0 ≡ ok tt)
    × (created.1.data_ ≡ record bird.data_ {
      id = secret_url host (bytes "bird") (next bird);
      version = next bird;
    })
    × (updated.0 ≡ ok tt)
    × (updated.1.data_ ≡ record (with_blue created.1).data_ {
      id = secret_url host (bytes "bird") (next (with_blue created.1));
      version = next (with_blue created.1);
    })
    × (latest updated.1.cloud (base_url host) (bytes "bird")
        ≡ some (record (set_parameters updated.1.data_) { id = some updated.1.data_.id }))
create-update_secret_example =
    create-update_secret list_vault list_versions host host-IsHostByte refl (λ u n v s c. (true, c))
      bird (bytes "blue") refl bird-IsSegment other_value
