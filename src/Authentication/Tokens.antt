-- ===== src/Authentication/Tokens.antt =====
-- The credentials of the Azure CLI: azurerm/helpers/authentication/access_token.go,
-- azure_cli_profile.go, environment.go and the loading in config.go.
pub mod First
pub mod Load
use terraform_provider_azure.Base.{
  ℕ, suc, ◌+◌, ◌≤◌, ◌≡◌, ◌≢◌, Bool, true, false, ◌&&◌, ◌||◌, not, Option, none, some, List, [], ◌∷◌,
  ◌++◌, ltb, if◌then◌else◌, Str, bytes, str_eq, Outcome, ok, err, panic,
}
use terraform_provider_azure.Text.{has_prefix, has_suffix, trim_prefix, trim_suffix, to_lower}
use terraform_provider_azure.Authentication.Config.{Config}

-- `cli.Token` and `cli.Subscription`, with the fields that the provider reads.
pub record CliToken : Type 0 where
  pub client_id : Str
  pub resource : Str
  pub authority : Str
  pub expires_on : Str
  pub refresh_token : Str

pub record Subscription : Type 0 where
  pub id : Str
  pub tenant_id : Str
  pub environment_name : Str
  pub is_default : Bool

-- `AccessToken`
pub record AccessToken (Token : Type 0) : Type 0 where
  pub client_id : Str
  pub access_token : Token
  pub is_cloud_shell : Bool

-- The Azure CLI, as its Go package shows it, and the clock at each of its readings.
pub record Cli : Type 1 where
  pub Token : Type 0
  -- `ProfilePath` and `LoadProfile`, `AccessTokensPath` and `LoadTokens`.
  pub subscriptions : Option (List Subscription)
  pub tokens : Option (List CliToken)
  pub to_adal_token : CliToken → Option Token
  pub parse_expiration_date : Str → Option ℕ
  pub now : ℕ → ℕ

pub data AuthError : Type 0 where
  bad_token bad_date no_token no_default no_subscription no_profile no_tokens no_valid_token :
      AuthError

-- `strings.Contains(s, sub)`
unfoldable pub contains_text : Str → Str → Bool
contains_text [] sub = has_prefix [] sub
contains_text (c ∷ s) sub = has_prefix (c ∷ s) sub || contains_text s sub

-- `strings.EqualFold` on ASCII texts.
unfoldable pub equal_fold : Str → Str → Bool
equal_fold s t = str_eq (to_lower s) (to_lower t)

-- `normalizeEnvironmentName`
unfoldable pub normalize_environment_name : Str → Str
normalize_environment_name input =
    let output = trim_suffix (trim_prefix (to_lower input) (bytes "azure")) (bytes "cloud") in
    if str_eq output [] then bytes "public" else output

-- `FindDefaultSubscriptionId`
unfoldable pub find_default_subscription_id : List Subscription → Outcome AuthError Str
find_default_subscription_id [] = err no_default
find_default_subscription_id (s ∷ ss) =
    if s.is_default then ok s.id else find_default_subscription_id ss

-- `FindSubscription`
unfoldable pub find_subscription : List Subscription → Str → Outcome AuthError Subscription
unfolding equal_fold
find_subscription [] id = err no_subscription
find_subscription (s ∷ ss) id = if equal_fold s.id id then ok s else find_subscription ss id

module _ (cli : Cli) where
  -- `findValidAccessTokenForTenant`; `n` counts the readings of the clock.
  unfoldable pub find_valid_access_token :
      ℕ → List CliToken → Str → Outcome AuthError (AccessToken cli.Token)
  unfolding contains_text
  find_valid_access_token n [] tenant = err no_token
  find_valid_access_token n (t ∷ ts) tenant =
      let rest = find_valid_access_token (suc n) ts tenant in
      elim (cli.to_adal_token t) [
        | none ↦ err bad_token
        | some token ↦ elim (cli.parse_expiration_date t.expires_on) [
          | none ↦ err bad_date
          | some date ↦
              if ltb date (cli.now n)
              then rest
              else if not (contains_text t.resource (bytes "management"))
              then rest
              else if not (has_suffix t.authority tenant)
              then rest
              else ok (record {
                client_id = t.client_id;
                access_token = token;
                is_cloud_shell = str_eq t.refresh_token [];
              })
        ]
      ]

  -- The three `populate…FromCLIProfile`; where one returns an error, which the caller only logs, the
  -- configuration stays.
  unfoldable pub populate_subscription : List Subscription → Config cli.Token → Config cli.Token
  unfolding find_default_subscription_id
  populate_subscription ss c = elim (find_default_subscription_id ss) [
    | ok id ↦ record c { subscription_id = id }
    | err e ↦ c
    | panic ↦ c
  ]

  unfoldable pub populate_tenant : List Subscription → Config cli.Token → Config cli.Token
  unfolding find_subscription
  populate_tenant ss c = elim (find_subscription ss c.subscription_id) [
    | ok s ↦ if str_eq c.tenant_id [] then record c { tenant_id = s.tenant_id } else c
    | err e ↦ c
    | panic ↦ c
  ]

  unfoldable pub populate_environment : List Subscription → Config cli.Token → Config cli.Token
  unfolding find_subscription normalize_environment_name
  populate_environment ss c = elim (find_subscription ss c.subscription_id) [
    | ok s ↦ record c { environment = normalize_environment_name s.environment_name }
    | err e ↦ c
    | panic ↦ c
  ]

  -- `populateFromAccessToken` of a token that is not nil.
  unfoldable pub populate_from_access_token :
      AccessToken cli.Token → Config cli.Token → Config cli.Token
  populate_from_access_token t c = record c {
    client_id = t.client_id;
    access_token = some t.access_token;
    is_cloud_shell = t.is_cloud_shell;
  }

  -- The subscription and the tenant, where they are not given.
  unfoldable pub with_identity : List Subscription → Config cli.Token → Config cli.Token
  unfolding populate_subscription populate_tenant
  with_identity ss c =
      let with_subscription =
        if str_eq c.subscription_id [] then populate_subscription ss c else c in
      if str_eq with_subscription.tenant_id []
      then populate_tenant ss with_subscription
      else with_subscription

  -- The part of the loading behind them: the token, and the environment.
  unfoldable pub with_token :
      List Subscription → Config cli.Token → Outcome AuthError (Unit {0}) × Config cli.Token
  unfolding find_valid_access_token populate_from_access_token populate_environment
  with_token ss c = if str_eq c.tenant_id [] then (err no_valid_token, c) else elim cli.tokens [
    | none ↦ (err no_tokens, c)
    | some ts ↦ elim (find_valid_access_token 0 ts c.tenant_id) [
      | ok t ↦ (ok tt, populate_environment ss (populate_from_access_token t c))
      | err e ↦ (err no_valid_token, c)
      | panic ↦ (panic, c)
    ]
  ]

  -- `LoadTokensFromAzureCLI`: its result, and the configuration that it leaves.
  unfoldable pub load_tokens_from_azure_cli :
      Config cli.Token → Outcome AuthError (Unit {0}) × Config cli.Token
  unfolding with_identity with_token
  load_tokens_from_azure_cli c = elim cli.subscriptions [
    | none ↦ (err no_profile, c)
    | some ss ↦ with_token ss (with_identity ss c)
  ]
