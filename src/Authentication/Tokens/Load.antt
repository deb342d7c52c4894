-- ===== src/Authentication/Tokens/Load.antt =====
-- What `LoadTokensFromAzureCLI` makes of the configuration.
use terraform_provider_azure.Base.{
  ◌≡◌, ◌≢◌, refl, inl, inr, none, some, List, [], arith, str_eq_iff, ok, err, Option-cases,
  Outcome-cases, ap, ◌∙◌, sym,
}
use mathlib.Core.Path.{subst}
use terraform_provider_azure.Authentication.Config.{Config}
use terraform_provider_azure.Authentication.Tokens.{
  Cli, CliToken, Subscription, AccessToken, no_profile, find_valid_access_token,
  populate_subscription, populate_tenant, populate_environment, populate_from_access_token,
  with_identity, with_token, load_tokens_from_azure_cli,
}
use terraform_provider_azure.Authentication.Tokens.First.{IsFirst, find_valid_access_token-IsFirst}

module _ (cli : Cli) where
  -- The fields that no loading changes.
  pub record IsKept (c d : Config cli.Token) : Type 0 where
    pub subscription : c.subscription_id ≢ [] → d.subscription_id ≡ c.subscription_id
    pub tenant : c.tenant_id ≢ [] → d.tenant_id ≡ c.tenant_id
    pub secret : d.client_secret ≡ c.client_secret
    pub skip : d.skip_credentials_validation ≡ c.skip_credentials_validation
    pub registration : d.skip_provider_registration ≡ c.skip_provider_registration
    pub msi : d.use_msi ≡ c.use_msi
    pub endpoint : d.msi_endpoint ≡ c.msi_endpoint

  with_identity-IsKept :
      (ss : List Subscription) (c : Config cli.Token) → IsKept c (with_identity cli ss c)
  unfolding with_identity populate_subscription populate_tenant
  with_identity-IsKept ss c = record {
    subscription = λ h. ground (arith, h, str_eq_iff c.subscription_id []);
    tenant = λ h. ground (arith, h, str_eq_iff c.tenant_id []);
    secret = ground arith;
    skip = ground arith;
    registration = ground arith;
    msi = ground arith;
    endpoint = ground arith;
  }

  with_token-IsKept :
      (ss : List Subscription) (c : Config cli.Token) → IsKept c (with_token cli ss c).1
  unfolding with_token populate_environment populate_from_access_token
  with_token-IsKept ss c = record {
    subscription = λ h. ground arith;
    tenant = λ h. ground arith;
    secret = ground arith;
    skip = ground arith;
    registration = ground arith;
    msi = ground arith;
    endpoint = ground arith;
  }

  IsKept-refl : (c : Config cli.Token) → IsKept c c
  IsKept-refl c = record {
    subscription = λ h. refl;
    tenant = λ h. refl;
    secret = refl;
    skip = refl;
    registration = refl;
    msi = refl;
    endpoint = refl;
  }

  IsKept-trans : (b c d : Config cli.Token) → IsKept b c → IsKept c d → IsKept b d
  IsKept-trans b c d p q = record {
    subscription = λ h. q.subscription (λ e. h (sym (p.subscription h) ∙ e)) ∙ p.subscription h;
    tenant = λ h. q.tenant (λ e. h (sym (p.tenant h) ∙ e)) ∙ p.tenant h;
    secret = q.secret ∙ p.secret;
    skip = q.skip ∙ p.skip;
    registration = q.registration ∙ p.registration;
    msi = q.msi ∙ p.msi;
    endpoint = q.endpoint ∙ p.endpoint;
  }

  load-none :
      (c : Config cli.Token)
      → cli.subscriptions ≡ none
      → load_tokens_from_azure_cli cli c ≡ (err no_profile, c)
  unfolding load_tokens_from_azure_cli
  load-none c h = ground arith

  load-some :
      (c : Config cli.Token) (ss : List Subscription)
      → cli.subscriptions ≡ some ss
      → load_tokens_from_azure_cli cli c ≡ with_token cli ss (with_identity cli ss c)
  unfolding load_tokens_from_azure_cli
  load-some c ss h = ground arith

  -- Whatever the Azure CLI holds and however the loading ends, a subscription and a tenant that are
  -- configured stay, and so do the client secret, the settings of the managed identity and the two
  -- switches.
  pub load_tokens-IsKept : (c : Config cli.Token) → IsKept c (load_tokens_from_azure_cli cli c).1
  load_tokens-IsKept c = elim (Option-cases cli.subscriptions) [
    | inl missing ↦ subst (λ r. IsKept c r.1) (sym (load-none c missing)) (IsKept-refl c)
    | inr (ss, there) ↦
        subst (λ r. IsKept c r.1) (sym (load-some c ss there))
          (IsKept-trans c _ _ (with_identity-IsKept ss c) (with_token-IsKept ss _))
  ]

  -- The configuration holds the credentials of the first token for its tenant.
  abbrev pub HasFirst : Config cli.Token → Type 0
  HasFirst d =
      (ts : List CliToken) × (a : AccessToken cli.Token) × (cli.tokens ≡ some ts)
      × IsFirst cli 0 ts d.tenant_id a
      × (d.client_id ≡ a.client_id)
      × (d.access_token ≡ some a.access_token)
      × (d.is_cloud_shell ≡ a.is_cloud_shell)

  with_token-found :
      (ss : List Subscription) (c : Config cli.Token) (ts : List CliToken)
      (a : AccessToken cli.Token)
      → (with_token cli ss c).0 ≡ ok tt
      → cli.tokens ≡ some ts
      → find_valid_access_token cli 0 ts c.tenant_id ≡ ok a
      → ((with_token cli ss c).1.tenant_id ≡ c.tenant_id)
        × ((with_token cli ss c).1.client_id ≡ a.client_id)
        × ((with_token cli ss c).1.access_token ≡ some a.access_token)
        × ((with_token cli ss c).1.is_cloud_shell ≡ a.is_cloud_shell)
  unfolding with_token populate_environment populate_from_access_token
  with_token-found ss c ts a done there h = ground arith

  with_token-source :
      (ss : List Subscription) (c : Config cli.Token)
      → (with_token cli ss c).0 ≡ ok tt
      → (c.tenant_id ≢ [])
        × ((ts : List CliToken) × (a : AccessToken cli.Token) × (cli.tokens ≡ some ts)
            × (find_valid_access_token cli 0 ts c.tenant_id ≡ ok a))
  unfolding with_token
  with_token-source ss c done = elim (Option-cases cli.tokens) [
    | inl missing ↦ ground (arith, str_eq_iff c.tenant_id [])
    | inr (ts, there) ↦ elim (Outcome-cases (find_valid_access_token cli 0 ts c.tenant_id)) [
      | inl (a, h) ↦ (ground (arith, str_eq_iff c.tenant_id []), (ts, a, there, h))
      | inr h ↦ ground (arith, str_eq_iff c.tenant_id [])
    ]
  ]

  with_token-HasFirst :
      (ss : List Subscription) (c : Config cli.Token)
      → (with_token cli ss c).0 ≡ ok tt
      → ((with_token cli ss c).1.tenant_id ≢ []) × HasFirst (with_token cli ss c).1
  with_token-HasFirst ss c done =
      let (tenant, (ts, a, there, h)) = with_token-source ss c done in
      let (same, client, access, shell) = with_token-found ss c ts a done there h in
      (
        (λ e. tenant (sym same ∙ e)),
        (
          ts,
          a,
          there,
          subst (λ q. IsFirst cli 0 ts q a) (sym same)
              ((find_valid_access_token-IsFirst cli ts c.tenant_id a).0 h),
          client,
          access,
          shell,
        ),
      )

  with_token-fails :
      (ss : List Subscription) (c : Config cli.Token)
      → (with_token cli ss c).0 ≢ ok tt
      → (with_token cli ss c).1 ≡ c
  unfolding with_token
  with_token-fails ss c failed = ground arith

  -- A loading that returns no error leaves a tenant in the configuration, and the client ID, the token and
  -- the cloud shell flag of the first token of the Azure CLI that is valid for that tenant.
  pub load_tokens-HasFirst :
      (c : Config cli.Token)
      → (load_tokens_from_azure_cli cli c).0 ≡ ok tt
      → ((load_tokens_from_azure_cli cli c).1.tenant_id ≢ [])
        × HasFirst (load_tokens_from_azure_cli cli c).1
  load_tokens-HasFirst c done = elim (Option-cases cli.subscriptions) [
    | inl missing ↦ cc (ap (λ r. r.0) (load-none c missing))
    | inr (ss, there) ↦
        let same = load-some c ss there in
        subst (λ r. (r.1.tenant_id ≢ []) × HasFirst r.1) (sym same)
          (with_token-HasFirst ss (with_identity cli ss c) (ap (λ r. r.0) (sym same) ∙ done))
  ]
