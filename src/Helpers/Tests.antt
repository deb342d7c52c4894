-- ===== src/Helpers/Tests.antt =====
-- The helpers at concrete inputs.
use terraform_provider_azure.Base.{ℕ, some, List, [], ◌∷◌, Str, bytes}
use terraform_provider_azure.Helpers.NetworkInterface.{IpConfiguration}

abbrev config_of : Str → ℕ → IpConfiguration ℕ
config_of name n = record { name = some name; properties = n }

abbrev old_configs : List (IpConfiguration ℕ)
old_configs = config_of (bytes "a") 1 ∷ config_of (bytes "b") 2 ∷ []
