-- ===== src/Helpers.antt =====
-- The helpers that many resources share: azurerm/helpers/azure and azurerm/tags.go.
pub mod Rights
pub mod Tags
pub mod NetworkInterface
mod Tests
