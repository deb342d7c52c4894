-- ===== src/KeyVault/Secrets.antt =====
-- The handlers of a secret: azurerm/resource_arm_key_vault_secret.go, and the data source of
-- azurerm/data_source_key_vault_secret.go. A vault, by its URL, stands for the group of the client: `get`
-- is `GetSecret` of the latest version, `create_or_update` is `SetSecret`. The calls that change and that
-- delete a secret are parameters beside them.
use terraform_provider_azure.Base.{
  Bool, true, false, Option, none, some, [], Str, str_eq, get_or_empty, Dict, err, panic, wrap,
  deref, not,
}
use terraform_provider_azure.Helpers.Tags.{TagError, expand_tags, flatten_tags, texts, pointers}
use terraform_provider_azure.Handler.{
  Api, Action, found, missing, failed, ◌>>=◌, ◌>>◌, lift, gets, modify, get, put, call,
}
use terraform_provider_azure.KeyVault.ChildId.{
  KeyVaultChildId, ChildIdError, parse_key_vault_child_id,
}

-- `keyvault.SecretBundle`, and the parameters that are sent.
pub record Secret : Type 0 where
  pub id : Option Str
  pub value : Option Str
  pub content_type : Option Str
  pub tags : Dict (Option Str)

pub data SecretError : Type 0 where
  bad_id : ChildIdError → SecretError
  bad_tags : TagError → SecretError
  set_failed get_failed update_failed delete_failed no_secret_id not_there : SecretError

-- The state of the resource; `old_value` is the value before the change, for `d.HasChange("value")`. The
-- values of the tags are texts.
pub record Data : Type 0 where
  pub id : Str
  pub name : Str
  pub vault_uri : Str
  pub old_value : Str
  pub value : Str
  pub content_type : Str
  pub version : Str
  pub tags : Dict Str

-- `SecretSetParameters`
abbrev pub set_parameters : Data → Secret
set_parameters d = record {
  id = none;
  value = some d.value;
  content_type = some d.content_type;
  tags = pointers (expand_tags {Int = Unit {0}} (λ n. []) (texts d.tags));
}

-- `SecretUpdateParameters`
abbrev pub update_parameters : Data → Secret
update_parameters d = record (set_parameters d) { value = none }

module _ (api : Api Secret) where
  -- What a read sets for a secret that is there, its ID read already.
  unfoldable pub show : KeyVaultChildId → Secret → Action api Data SecretError (Unit {0})
  show id s = do
    modify (λ d. record d {
      name = id.name;
      vault_uri = id.key_vault_base_url;
      value = get_or_empty s.value;
      version = id.version;
      content_type = get_or_empty s.content_type;
    })
    tags ← lift (wrap bad_tags (flatten_tags s.tags))
    modify (λ d. record d { tags = tags })

  -- `resourceArmKeyVaultSecretRead`
  unfoldable pub secret_read : Action api Data SecretError (Unit {0})
  unfolding show
  secret_read = do
    own ← gets (λ d. d.id)
    id ← lift (wrap bad_id (parse_key_vault_child_id api.parse_authority own))
    answer ← get id.key_vault_base_url id.name
    elim answer [
      | missing ↦ modify (λ d. record d { id = [] })
      | failed ↦ lift (err get_failed)
      | found s ↦ do
        latest ← lift (deref s.id)
        latest_id ← lift (wrap bad_id (parse_key_vault_child_id api.parse_authority latest))
        show latest_id s
    ]

  -- `resourceArmKeyVaultSecretCreate`
  unfoldable pub secret_create : Action api Data SecretError (Unit {0})
  unfolding secret_read
  secret_create = do
    d ← gets (λ d. d)
    put d.vault_uri d.name (set_parameters d) set_failed
    answer ← get d.vault_uri d.name
    elim answer [
      | missing ↦ lift (err get_failed)
      | failed ↦ lift (err get_failed)
      | found s ↦ elim s.id [
        | none ↦ lift (err no_secret_id)
        | some own ↦ do modify (λ d. record d { id = own }); secret_read
      ]
    ]

  -- A new version with a new value. The error of the call that gets it is not tested, and its answer has
  -- no ID then.
  unfoldable pub set_value : KeyVaultChildId → Action api Data SecretError (Unit {0})
  set_value id = do
    d ← gets (λ d. d)
    put id.key_vault_base_url id.name (set_parameters d) set_failed
    answer ← get id.key_vault_base_url id.name
    own ← lift (elim answer [ missing ↦ panic | failed ↦ panic | found s ↦ deref s.id ])
    checked ← lift (wrap bad_id (parse_key_vault_child_id api.parse_authority own))
    modify (λ d. record d { id = own })

  -- `resourceArmKeyVaultSecretUpdate`; `change` is `UpdateSecret`.
  unfoldable pub secret_update :
      (Str → Str → Str → Secret → api.Cloud → Bool × api.Cloud)
      → Action api Data SecretError (Unit {0})
  unfolding set_value secret_read
  secret_update change = do
    d ← gets (λ d. d)
    id ← lift (wrap bad_id (parse_key_vault_child_id api.parse_authority d.id))
    elim (not (str_eq d.old_value d.value)) [
      | true ↦ set_value id
      | false ↦
          call (change id.key_vault_base_url id.name id.version (update_parameters d)) update_failed
    ]
    secret_read

  -- `resourceArmKeyVaultSecretDelete`; `remove` is `DeleteSecret`.
  unfoldable secret_delete :
      (Str → Str → api.Cloud → Bool × api.Cloud) → Action api Data SecretError (Unit {0})
  secret_delete remove = do
    own ← gets (λ d. d.id)
    id ← lift (wrap bad_id (parse_key_vault_child_id api.parse_authority own))
    call (remove id.key_vault_base_url id.name) delete_failed

  -- `dataSourceArmKeyVaultSecretRead`
  unfoldable data_source_read : Action api Data SecretError (Unit {0})
  unfolding show
  data_source_read = do
    d ← gets (λ d. d)
    answer ← get d.vault_uri d.name
    elim answer [
      | missing ↦ lift (err not_there)
      | failed ↦ lift (err get_failed)
      | found s ↦ do
        own ← lift (deref s.id)
        id ← lift (wrap bad_id (parse_key_vault_child_id api.parse_authority own))
        modify (λ d. record d { id = own })
        show id s
    ]
