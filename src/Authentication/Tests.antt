-- ===== src/Authentication/Tests.antt =====
-- A loading from an Azure CLI with one subscription and two tokens, of which the first has expired.
use terraform_provider_azure.Base.{
  ◌+◌, ◌≡◌, ◌≢◌, ◌↔◌, refl, true, false, none, some, [], ◌∷◌, Str, bytes, str_eq, ok, if◌then◌else◌,
}
use terraform_provider_azure.Text.{has_prefix, has_suffix, to_lower}
use terraform_provider_azure.Authentication.Config.{Config}
use terraform_provider_azure.Authentication.Tokens.{
  Cli, CliToken, contains_text, equal_fold, find_default_subscription_id, find_subscription,
  find_valid_access_token, populate_subscription, populate_tenant, with_identity, with_token,
  load_tokens_from_azure_cli,
}
use terraform_provider_azure.Authentication.Tokens.First.{
  IsFirst, access_of, find_valid_access_token-IsFirst,
}
use terraform_provider_azure.Authentication.Tokens.Load.{
  IsKept, HasFirst, load_tokens-IsKept, load_tokens-HasFirst,
}

abbrev token_of : Str → CliToken
token_of date = record {
  client_id = bytes "c";
  resource = bytes "management";
  authority = bytes "host/t";
  expires_on = date;
  refresh_token = [];
}

abbrev old_token : CliToken
old_token = token_of (bytes "1")

abbrev new_token : CliToken
new_token = token_of (bytes "2")

abbrev azure : Cli
azure = record {
  Token = Str;
  subscriptions = some (
      record {
        id = bytes "S";
        tenant_id = bytes "t";
        environment_name = bytes "AzureCloud";
        is_default = true;
      }
      ∷ []);
  tokens = some (old_token ∷ new_token ∷ []);
  to_adal_token = λ t. some t.client_id;
  parse_expiration_date = λ s. if str_eq s (bytes "1") then some 10 else some 30;
  now = λ n. 20 + n;
}

abbrev blank : Config Str
blank = record {
  client_id = [];
  subscription_id = [];
  tenant_id = [];
  environment = [];
  skip_credentials_validation = false;
  skip_provider_registration = false;
  client_secret = [];
  access_token = none;
  is_cloud_shell = false;
  use_msi = false;
  msi_endpoint = [];
}

find_valid_access_token-IsFirst_example :
    (find_valid_access_token azure 0 (old_token ∷ new_token ∷ []) (bytes "t")
      ≡ ok (access_of azure new_token (bytes "c")))
    ↔ IsFirst azure 0
        (old_token ∷ new_token ∷ [])
        (bytes "t")
        (access_of azure new_token (bytes "c"))
find_valid_access_token-IsFirst_example =
    find_valid_access_token-IsFirst azure (old_token ∷ new_token ∷ []) (bytes "t")
      (access_of azure new_token (bytes "c"))

load_tokens-IsKept_example : IsKept azure blank (load_tokens_from_azure_cli azure blank).1
load_tokens-IsKept_example = load_tokens-IsKept azure blank

load_done : (load_tokens_from_azure_cli azure blank).0 ≡ ok tt
unfolding load_tokens_from_azure_cli with_identity with_token populate_subscription populate_tenant
    find_default_subscription_id find_subscription equal_fold find_valid_access_token contains_text
    has_suffix has_prefix to_lower str_eq
load_done = refl

load_tokens-HasFirst_example :
    ((load_tokens_from_azure_cli azure blank).1.tenant_id ≢ [])
    × HasFirst azure (load_tokens_from_azure_cli azure blank).1
load_tokens-HasFirst_example = load_tokens-HasFirst azure blank load_done
