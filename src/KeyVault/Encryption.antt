-- ===== src/KeyVault/Encryption.antt =====
-- Disk encryption settings: azurerm/encryption_settings.go. A pointer is an `Option`.
use terraform_provider_azure.Base.{
  ◌≡◌, refl, Bool, true, false, ◌&&◌, Option, none, some, List, [], ◌∷◌, arith, Str, Outcome, ok,
  err, panic, ◌>>=◌, deref, is_some,
}

-- One of the two keys of the configuration: `secret_url` or `key_url`, and `source_vault_id`.
pub record KeyFields : Type 0 where
  pub url : Str
  pub source_vault_id : Str

pub record EncryptionFields : Type 0 where
  pub enabled : Bool
  pub disk_encryption_key : List KeyFields
  pub key_encryption_key : List KeyFields

pub record SourceVault : Type 0 where
  pub id : Option Str

-- `KeyVaultAndSecretReference`, or `KeyVaultAndKeyReference`
pub record KeyReference : Type 0 where
  pub url : Option Str
  pub source_vault : Option SourceVault

pub record EncryptionSettings : Type 0 where
  pub enabled : Option Bool
  pub disk_encryption_key : Option KeyReference
  pub key_encryption_key : Option KeyReference

-- What a key is flattened to; the key of the vault may be missing in the map.
pub record FlatKey : Type 0 where
  pub url : Str
  pub source_vault_id : Option Str

pub record FlatSettings : Type 0 where
  pub enabled : Bool
  pub disk_encryption_key : Option FlatKey
  pub key_encryption_key : Option FlatKey

-- `if v := settings[…]; len(v) > 0`: the first of the list.
unfoldable pub expand_key : List KeyFields → Option KeyReference
expand_key [] = none
expand_key (k ∷ ks) =
    some (record { url = some k.url; source_vault = some (record { id = some k.source_vault_id }) })

-- `expandManagedDiskEncryptionSettings`
unfoldable pub expand_encryption : EncryptionFields → EncryptionSettings
unfolding expand_key
expand_encryption s = record {
  enabled = some s.enabled;
  disk_encryption_key = expand_key s.disk_encryption_key;
  key_encryption_key = expand_key s.key_encryption_key;
}

unfoldable pub flatten_disk_key : Option KeyReference → Outcome (Unit {0}) (Option FlatKey)
flatten_disk_key none = ok none
flatten_disk_key (some k) = do
  url ← deref k.url
  elim k.source_vault [
    | none ↦ ok (some (record { url = url; source_vault_id = none }))
    | some v ↦ do id ← deref v.id; ok (some (record { url = url; source_vault_id = some id }))
  ]

-- The test of the vault tests the key instead, so that the vault is always dereferenced.
unfoldable pub flatten_key_key : Option KeyReference → Outcome (Unit {0}) (Option FlatKey)
flatten_key_key none = ok none
flatten_key_key (some k) = do
  url ← deref k.url
  v ← deref k.source_vault
  id ← deref v.id
  ok (some (record { url = url; source_vault_id = some id }))

-- `flattenManagedDiskEncryptionSettings`
unfoldable pub flatten_encryption : EncryptionSettings → Outcome (Unit {0}) FlatSettings
unfolding flatten_disk_key flatten_key_key
flatten_encryption s = do
  enabled ← deref s.enabled
  disk ← flatten_disk_key s.disk_encryption_key
  key ← flatten_key_key s.key_encryption_key
  ok (record { enabled = enabled; disk_encryption_key = disk; key_encryption_key = key })

abbrev first_key : List KeyFields → Option FlatKey
first_key [] = none
first_key (k ∷ ks) = some (record { url = k.url; source_vault_id = some k.source_vault_id })

disk_key-kept : (ks : List KeyFields) → flatten_disk_key (expand_key ks) ≡ ok (first_key ks)
unfolding flatten_disk_key expand_key
disk_key-kept [] = refl
disk_key-kept (k ∷ ks) = refl

key_key-kept : (ks : List KeyFields) → flatten_key_key (expand_key ks) ≡ ok (first_key ks)
unfolding flatten_key_key expand_key
key_key-kept [] = refl
key_key-kept (k ∷ ks) = refl

-- The settings of a configuration.
abbrev pub as_settings : EncryptionFields → FlatSettings
as_settings s = record {
  enabled = s.enabled;
  disk_encryption_key = first_key s.disk_encryption_key;
  key_encryption_key = first_key s.key_encryption_key;
}

-- Settings that are expanded and flattened are those of the configuration, with the first of each kind of
-- key; flattening them does not panic.
pub flatten_encryption-expand_encryption :
    (s : EncryptionFields) → flatten_encryption (expand_encryption s) ≡ ok (as_settings s)
unfolding flatten_encryption expand_encryption
flatten_encryption-expand_encryption s =
    ground (arith, disk_key-kept s.disk_encryption_key, key_key-kept s.key_encryption_key)

-- A key with its URL, and where `strict` a vault; a vault has its ID.
abbrev pub is_readable : Bool → Option KeyReference → Bool
is_readable strict none = true
is_readable strict (some k) = is_some k.url && elim k.source_vault [
  | none ↦ elim strict [ true ↦ false | false ↦ true ]
  | some v ↦ is_some v.id
]

-- Whether a step returned a value.
abbrev pub returned : {A : Type 0} → Outcome (Unit {0}) A → Bool
returned (ok a) = true
returned (err e) = false
returned panic = false

returned-disk_key : (k : Option KeyReference) → returned (flatten_disk_key k) ≡ is_readable false k
unfolding flatten_disk_key
returned-disk_key none = refl
returned-disk_key (some k) = ground arith

returned-key_key : (k : Option KeyReference) → returned (flatten_key_key k) ≡ is_readable true k
unfolding flatten_key_key
returned-key_key none = refl
returned-key_key (some k) = ground arith

-- Settings can be flattened just where they say whether encryption is on, each of the two keys that is there
-- has its URL, a vault that is there has its ID, and the key-encryption key has a vault: the
-- disk-encryption key needs none.
pub returned-flatten_encryption :
    (s : EncryptionSettings)
    → returned (flatten_encryption s) ≡ (
        is_some s.enabled
        && is_readable false s.disk_encryption_key
        && is_readable true s.key_encryption_key)
unfolding flatten_encryption
returned-flatten_encryption s =
    ground (arith, returned-disk_key s.disk_encryption_key, returned-key_key s.key_encryption_key)
