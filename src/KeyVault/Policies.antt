-- ===== src/KeyVault/Policies.antt =====
-- The access policies of a key vault, and how the configuration is expanded to them and back:
-- azurerm/helpers/azure/key_vault_access_policy.go. UUIDs are a library's: their type, their reading, the
-- nil one and their text are parameters.
use terraform_provider_azure.Base.{
  ◌≡◌, ◌≢◌, refl, Option, none, some, List, [], ◌∷◌, arith, ap, if◌then◌else◌, Str, str_eq,
  str_eq_iff, All, map, false, Bool-cases, inl, inr,
}

pub record Uuids : Type 1 where
  pub Uuid : Type 0
  pub from_string : Str → Option Uuid
  pub nil : Uuid
  pub to_string : Uuid → Str

pub record Permissions : Type 0 where
  pub certificates : Option (List Str)
  pub keys : Option (List Str)
  pub secrets : Option (List Str)

-- One policy of the configuration.
pub record PolicyFields : Type 0 where
  pub tenant_id : Str
  pub object_id : Str
  pub application_id : Str
  pub certificate_permissions : List Str
  pub key_permissions : List Str
  pub secret_permissions : List Str

-- The map that a policy is flattened to, whose keys may be missing.
pub record FlatPolicy : Type 0 where
  pub tenant_id : Option Str
  pub object_id : Option Str
  pub application_id : Option Str
  pub certificate_permissions : Option (List Str)
  pub key_permissions : Option (List Str)
  pub secret_permissions : Option (List Str)

-- `ExpandCertificatePermissions`, `ExpandKeyPermissions`, `ExpandSecretPermissions`: the texts, as values of a
-- type of texts.
unfoldable pub expand_permissions : List Str → Option (List Str)
expand_permissions input = some (map (λ s. s) input)

abbrev pub expand_certificate_permissions : List Str → Option (List Str)
expand_certificate_permissions = expand_permissions

abbrev pub expand_key_permissions : List Str → Option (List Str)
expand_key_permissions = expand_permissions

abbrev pub expand_secret_permissions : List Str → Option (List Str)
expand_secret_permissions = expand_permissions

-- The three flattenings: nil is no permission.
unfoldable pub flatten_permissions : Option (List Str) → List Str
flatten_permissions none = []
flatten_permissions (some xs) = map (λ s. s) xs

abbrev pub flatten_certificate_permissions : Option (List Str) → List Str
flatten_certificate_permissions = flatten_permissions

abbrev pub flatten_key_permissions : Option (List Str) → List Str
flatten_key_permissions = flatten_permissions

abbrev pub flatten_secret_permissions : Option (List Str) → List Str
flatten_secret_permissions = flatten_permissions

not_empty : (s : Str) → str_eq s [] ≡ false → s ≢ []
not_empty s h same = ground (arith, str_eq_iff s [])

module _ (uuids : Uuids) where
  -- `keyvault.AccessPolicyEntry`
  pub record AccessPolicy : Type 0 where
    pub tenant_id : Option uuids.Uuid
    pub object_id : Option Str
    pub application_id : Option uuids.Uuid
    pub permissions : Option Permissions

  -- `uuid.FromStringOrNil`
  abbrev pub from_string_or_nil : Str → uuids.Uuid
  from_string_or_nil s = elim (uuids.from_string s) [ none ↦ uuids.nil | some u ↦ u ]

  unfoldable pub expand_policy : PolicyFields → AccessPolicy
  unfolding expand_permissions
  expand_policy p = record {
    tenant_id = some (from_string_or_nil p.tenant_id);
    object_id = some p.object_id;
    application_id =
        if str_eq p.application_id [] then none else some (from_string_or_nil p.application_id);
    permissions = some (record {
      certificates = expand_certificate_permissions p.certificate_permissions;
      keys = expand_key_permissions p.key_permissions;
      secrets = expand_secret_permissions p.secret_permissions;
    });
  }

  -- `ExpandKeyVaultAccessPolicies`, which never returns an error
  unfoldable pub expand_access_policies : List PolicyFields → List AccessPolicy
  unfolding expand_policy
  expand_access_policies = map expand_policy

  abbrev text_of : Option uuids.Uuid → Option Str
  text_of none = none
  text_of (some u) = some (uuids.to_string u)

  -- The permissions of one sort, where there are permissions.
  abbrev permissions_of : (Permissions → List Str) → Option Permissions → Option (List Str)
  permissions_of part none = none
  permissions_of part (some ps) = some (part ps)

  unfoldable pub flatten_policy : AccessPolicy → FlatPolicy
  unfolding flatten_permissions
  flatten_policy p = record {
    tenant_id = text_of p.tenant_id;
    object_id = p.object_id;
    application_id = text_of p.application_id;
    certificate_permissions =
        permissions_of (λ ps. flatten_certificate_permissions ps.certificates) p.permissions;
    key_permissions = permissions_of (λ ps. flatten_key_permissions ps.keys) p.permissions;
    secret_permissions = permissions_of (λ ps. flatten_secret_permissions ps.secrets) p.permissions;
  }

  -- `FlattenKeyVaultAccessPolicies`
  unfoldable pub flatten_access_policies : Option (List AccessPolicy) → List FlatPolicy
  unfolding flatten_policy
  flatten_access_policies none = []
  flatten_access_policies (some ps) = map flatten_policy ps

  -- The text of a UUID as the library writes it.
  abbrev pub IsCanonical : Str → Type 0
  IsCanonical s = (u : uuids.Uuid) × (uuids.from_string s ≡ some u) × (uuids.to_string u ≡ s)

  -- The tenant is a UUID, and the application is one or is left out.
  abbrev pub IsPolicy : PolicyFields → Type 0
  IsPolicy p = IsCanonical p.tenant_id × (p.application_id ≢ [] → IsCanonical p.application_id)

  -- The configuration as a map.
  abbrev pub as_map : PolicyFields → FlatPolicy
  as_map p = record {
    tenant_id = some p.tenant_id;
    object_id = some p.object_id;
    application_id = if str_eq p.application_id [] then none else some p.application_id;
    certificate_permissions = some p.certificate_permissions;
    key_permissions = some p.key_permissions;
    secret_permissions = some p.secret_permissions;
  }

  canonical-text : (s : Str) → IsCanonical s → uuids.to_string (from_string_or_nil s) ≡ s
  canonical-text s (u, read, written) = ground arith

  application-text :
      (s : Str)
      → (s ≢ [] → IsCanonical s)
      → text_of (if str_eq s [] then none else some (from_string_or_nil s))
        ≡ (if str_eq s [] then none else some s)
  application-text s h = elim (Bool-cases (str_eq s [])) [
    | inl e ↦ ground arith
    | inr e ↦ ground (arith, canonical-text s (h (not_empty s e)))
  ]

  map-id : (xs : List Str) → map (λ s. s) xs ≡ xs
  map-id [] = refl
  map-id (x ∷ xs) = ap (λ r. x ∷ r) (map-id xs)

  policy-kept : (p : PolicyFields) → IsPolicy p → flatten_policy (expand_policy p) ≡ as_map p
  unfolding flatten_policy expand_policy expand_permissions flatten_permissions
  policy-kept p (tenant, application) = ground (
    arith,
    canonical-text p.tenant_id tenant,
    application-text p.application_id application,
    map-id p.certificate_permissions,
    map-id p.key_permissions,
    map-id p.secret_permissions,
  )

  -- Access policies with canonical UUIDs that are expanded and flattened are the configuration's: every field of
  -- every policy, in order, with an application that is not named left out.
  pub flatten_access_policies-expand_access_policies :
      (ps : List PolicyFields)
      → All IsPolicy ps
      → flatten_access_policies (some (expand_access_policies ps)) ≡ map as_map ps
  unfolding flatten_access_policies expand_access_policies
  flatten_access_policies-expand_access_policies [] h = refl
  flatten_access_policies-expand_access_policies (p ∷ ps) h =
      ground (arith, policy-kept p h.0, flatten_access_policies-expand_access_policies ps h.1)
