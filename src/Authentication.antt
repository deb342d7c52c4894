-- ===== src/Authentication.antt =====
-- How the provider finds its credentials: azurerm/helpers/authentication. The Azure CLI's files, the
-- conversion of its tokens and the clock are parameters.
pub mod Config
pub mod Tokens
mod Tests
