-- ===== src/KeyVault/Handlers.antt =====
-- The handlers of an access policy: azurerm/resource_arm_key_vault_access_policy.go. The call that
-- changes the policies of a vault is a parameter beside the client's others.
use terraform_provider_azure.Base.{
  Bool, true, false, Option, none, some, List, [], ◌++◌, if◌then◌else◌, Str, bytes, str_eq, lookup,
  get_or_empty, Outcome, ok, err, wrap, deref,
}
use terraform_provider_azure.ResourceId.{IdError, parse_azure_resource_id}
use terraform_provider_azure.Handler.{
  Api, Action, found, missing, failed, ◌>>=◌, ◌>>◌, lift, gets, modify, with_lock_by_name, get,
  call,
}
use terraform_provider_azure.KeyVault.Policies.{
  Uuids, PolicyFields, AccessPolicy, expand_certificate_permissions, expand_key_permissions,
  expand_secret_permissions, flatten_certificate_permissions, flatten_key_permissions,
  flatten_secret_permissions,
}
use terraform_provider_azure.KeyVault.Search.{find_access_policy}

-- `keyvault.AccessPolicyUpdateKind`
pub data UpdateKind : Type 0 where
  add replace remove : UpdateKind

pub data VaultError : Type 0 where
  bad_id : IdError → VaultError
  bad_tenant bad_application update_failed get_failed no_vault_id : VaultError

-- The state of the resource.
pub record Data : Type 0 where
  pub id : Str
  pub is_new : Bool
  pub vault_name : Str
  pub resource_group_name : Str
  pub policy : PolicyFields

abbrev pub key_vault : Str
key_vault = bytes "azurerm_key_vault"

abbrev require {ℓ} : {A : Type ℓ} → VaultError → Option A → Outcome VaultError A
require e none = err e
require e (some a) = ok a

-- The ID that a new resource is given.
unfoldable pub policy_id : Str → Str → Str → Str
policy_id vault object application =
    let id = vault ++ bytes "/objectId/" ++ object in
    if str_eq application [] then id else id ++ bytes "/applicationId/" ++ application

module _ (uuids : Uuids) where
  pub record Vault : Type 0 where
    pub id : Option Str
    pub name : Option Str
    pub properties : Option (Option (List (AccessPolicy uuids)))

  -- The application, where one is named.
  unfoldable pub application_of : Str → Outcome VaultError (Option uuids.Uuid)
  application_of raw = elim (str_eq raw []) [
    | true ↦ ok none
    | false ↦ elim (uuids.from_string raw) [ none ↦ err bad_application | some u ↦ ok (some u) ]
  ]

  abbrev entry : PolicyFields → uuids.Uuid → Option uuids.Uuid → AccessPolicy uuids
  entry p tenant application = record {
    tenant_id = some tenant;
    object_id = some p.object_id;
    application_id = application;
    permissions = some (record {
      certificates = expand_certificate_permissions p.certificate_permissions;
      keys = expand_key_permissions p.key_permissions;
      secrets = expand_secret_permissions p.secret_permissions;
    });
  }

  -- The fields of the state that a read sets from the policy that it found.
  abbrev read_policy : AccessPolicy uuids → PolicyFields → PolicyFields
  read_policy p d = record d {
    tenant_id = elim p.tenant_id [ none ↦ d.tenant_id | some u ↦ uuids.to_string u ];
    application_id = elim p.application_id [ none ↦ d.application_id | some u ↦ uuids.to_string u ];
    certificate_permissions = elim p.permissions [
      | none ↦ d.certificate_permissions
      | some ps ↦ flatten_certificate_permissions ps.certificates
    ];
    key_permissions = elim p.permissions [
      | none ↦ d.key_permissions
      | some ps ↦ flatten_key_permissions ps.keys
    ];
    secret_permissions = elim p.permissions [
      | none ↦ d.secret_permissions
      | some ps ↦ flatten_secret_permissions ps.secrets
    ];
  }

  module _ (api : Api Vault)
      (update_access_policy : Str
        → Str
        → UpdateKind
        → AccessPolicy uuids
        → api.Cloud
        → Bool × api.Cloud) where
    -- What the handler does under the lock.
    unfoldable pub update_body :
        UpdateKind → Str → Str → AccessPolicy uuids → Action api Data VaultError (Unit {0})
    update_body action group vault policy = do
      call (update_access_policy group vault action policy) update_failed
      answer ← get group vault
      elim answer [
        | missing ↦ lift (err get_failed)
        | failed ↦ lift (err get_failed)
        | found v ↦ do
          own ← lift (require no_vault_id v.id)
          modify (λ d.
              if d.is_new
              then record d { id = policy_id own d.policy.object_id d.policy.application_id }
              else d)
      ]

    -- `resourceArmKeyVaultAccessPolicyCreateOrDelete`
    unfoldable pub create_or_delete : UpdateKind → Action api Data VaultError (Unit {0})
    unfolding application_of update_body
    create_or_delete action = do
      vault ← gets (λ d. d.vault_name)
      group ← gets (λ d. d.resource_group_name)
      p ← gets (λ d. d.policy)
      tenant ← lift (require bad_tenant (uuids.from_string p.tenant_id))
      application ← lift (application_of p.application_id)
      with_lock_by_name vault key_vault
          (update_body action group vault (entry p tenant application))

    abbrev access_policy_create : Action api Data VaultError (Unit {0})
    access_policy_create = create_or_delete add

    abbrev access_policy_update : Action api Data VaultError (Unit {0})
    access_policy_update = create_or_delete replace

    abbrev access_policy_delete : Action api Data VaultError (Unit {0})
    access_policy_delete = create_or_delete remove

    -- `resourceArmKeyVaultAccessPolicyRead`, which reads through the vault's properties.
    unfoldable pub access_policy_read : Action api Data VaultError (Unit {0})
    access_policy_read = do
      own ← gets (λ d. d.id)
      id ← lift (wrap bad_id (parse_azure_resource_id api.parse_authority own))
      let vault = get_or_empty (lookup (bytes "vaults") id.path)
      let object = get_or_empty (lookup (bytes "objectId") id.path)
      let application = get_or_empty (lookup (bytes "applicationId") id.path)
      answer ← get id.group vault
      elim answer [
        | missing ↦ modify (λ d. record d { id = [] })
        | failed ↦ lift (err get_failed)
        | found v ↦ do
          policies ← lift (deref v.properties)
          elim (find_access_policy uuids policies object application) [
            | none ↦ modify (λ d. record d { id = [] })
            | some p ↦ modify (λ d. record d {
              vault_name = get_or_empty v.name;
              resource_group_name = id.group;
              policy = read_policy p (record (d.policy) { object_id = object });
            })
          ]
      ]
