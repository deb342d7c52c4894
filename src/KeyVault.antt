-- ===== src/KeyVault.antt =====
-- Key vaults: the access policies (azurerm/helpers/azure/key_vault_access_policy.go and
-- azurerm/resource_arm_key_vault_access_policy.go), and the disk encryption settings that refer to
-- vaults (azurerm/encryption_settings.go); the IDs of keys, secrets and certificates and the handlers of
-- secrets (azurerm/key_vault_child.go, azurerm/resource_arm_key_vault_secret.go).
pub mod Policies
pub mod Search
pub mod Handlers
pub mod Encryption
pub mod ChildId
pub mod Secrets
pub mod Lifecycle
mod Tests
