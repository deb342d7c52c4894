-- ===== src/Authentication/Tokens/First.antt =====
-- Which token of the Azure CLI is taken, and what the loading makes of the configuration.
use terraform_provider_azure.Base.{
  ℕ, suc, ◌≤◌, ◌<◌, ◌≡◌, refl, ◌⊎◌, ◌↔◌, inl, inr, true, false, some, List, [], ◌∷◌, ◌++◌, arith,
  Str, bytes, str_eq, ok, Option-cases, ap, ◌∙◌, sym,
}
use terraform_provider_azure.Text.{has_suffix}
use terraform_provider_azure.Authentication.Tokens.{
  Cli, CliToken, AccessToken, contains_text, find_valid_access_token,
}

module _ (cli : Cli) where
  -- Readable: it converts, and its date parses.
  abbrev pub Readable : CliToken → cli.Token → ℕ → Type 0
  Readable t token date =
      (cli.to_adal_token t ≡ some token) × (cli.parse_expiration_date t.expires_on ≡ some date)

  -- Not expired at the reading `n` of the clock, for the management API and for the tenant.
  abbrev pub IsUsable : ℕ → Str → CliToken → ℕ → Type 0
  IsUsable n tenant t date =
      (cli.now n ≤ date)
      × (contains_text t.resource (bytes "management") ≡ true)
      × (has_suffix t.authority tenant ≡ true)

  -- The tokens are readable, and none of them is usable.
  abbrev pub AllSkipped : ℕ → Str → List CliToken → Type 0
  AllSkipped n tenant [] = Unit
  AllSkipped n tenant (t ∷ ts) =
      ((token : cli.Token) × (date : ℕ) × Readable t token date
        × ((date < cli.now n)
            ⊎ ((contains_text t.resource (bytes "management") ≡ false)
                ⊎ (has_suffix t.authority tenant ≡ false))))
      × AllSkipped (suc n) tenant ts

  -- The number of the clock's reading behind those for the tokens.
  abbrev pub reading : ℕ → List CliToken → ℕ
  reading n [] = n
  reading n (t ∷ ts) = reading (suc n) ts

  -- What is made of a token.
  abbrev pub access_of : CliToken → cli.Token → AccessToken cli.Token
  access_of t token = record {
    client_id = t.client_id;
    access_token = token;
    is_cloud_shell = str_eq t.refresh_token [];
  }

  abbrev pub IsFirst : ℕ → List CliToken → Str → AccessToken cli.Token → Type 0
  IsFirst n ts tenant a =
      (before : List CliToken) × (t : CliToken) × (after : List CliToken) × (token : cli.Token)
      × (date : ℕ) × (ts ≡ before ++ t ∷ after)
      × AllSkipped n tenant before
      × Readable t token date
      × IsUsable (reading n before) tenant t date
      × (a ≡ access_of t token)

  find_skips :
      (n : ℕ) (t : CliToken) (ts : List CliToken) (tenant : Str) (token : cli.Token) (date : ℕ)
      → Readable t token date
      → (date < cli.now n)
        ⊎ ((contains_text t.resource (bytes "management") ≡ false)
            ⊎ (has_suffix t.authority tenant ≡ false))
      → find_valid_access_token cli n (t ∷ ts) tenant
        ≡ find_valid_access_token cli (suc n) ts tenant
  unfolding find_valid_access_token
  find_skips n t ts tenant token date readable skipped = ground arith

  find_takes :
      (n : ℕ) (t : CliToken) (ts : List CliToken) (tenant : Str) (token : cli.Token) (date : ℕ)
      → Readable t token date
      → IsUsable n tenant t date
      → find_valid_access_token cli n (t ∷ ts) tenant ≡ ok (access_of t token)
  unfolding find_valid_access_token
  find_takes n t ts tenant token date readable usable = ground arith

  first-found :
      (n : ℕ) (before : List CliToken) (t : CliToken) (after : List CliToken) (tenant : Str)
      (token : cli.Token) (date : ℕ)
      → AllSkipped n tenant before
      → Readable t token date
      → IsUsable (reading n before) tenant t date
      → find_valid_access_token cli n (before ++ t ∷ after) tenant ≡ ok (access_of t token)
  first-found n [] t after tenant token date skipped readable usable =
      find_takes n t after tenant token date readable usable
  first-found n (b ∷ before) t after tenant token date ((bt, bd, br, bs), skipped) readable usable =
      find_skips n b (before ++ t ∷ after) tenant bt bd br bs
      ∙ first-found (suc n) before t after tenant token date skipped readable usable

  -- What one round of the search shows.
  round_lem :
      (n : ℕ) (t : CliToken) (ts : List CliToken) (tenant : Str) (a : AccessToken cli.Token)
      → find_valid_access_token cli n (t ∷ ts) tenant ≡ ok a
      → (token : cli.Token) × (date : ℕ) × Readable t token date
        × ((IsUsable n tenant t date × (a ≡ access_of t token))
            ⊎ (((date < cli.now n)
                  ⊎ ((contains_text t.resource (bytes "management") ≡ false)
                      ⊎ (has_suffix t.authority tenant ≡ false)))
                × (find_valid_access_token cli (suc n) ts tenant ≡ ok a)))
  unfolding find_valid_access_token
  round_lem n t ts tenant a h = elim (Option-cases (cli.to_adal_token t)) [
    | inl bad ↦ ground arith
    | inr (token, converts) ↦ elim (Option-cases (cli.parse_expiration_date t.expires_on)) [
      | inl bad ↦ ground arith
      | inr (date, parses) ↦ (token, date, (converts, parses), ground arith)
    ]
  ]

  found-IsFirst :
      (n : ℕ) (ts : List CliToken) (tenant : Str) (a : AccessToken cli.Token)
      → find_valid_access_token cli n ts tenant ≡ ok a
      → IsFirst n ts tenant a
  unfolding find_valid_access_token
  found-IsFirst n [] tenant a h = cc
  found-IsFirst n (t ∷ ts) tenant a h =
      let (token, date, readable, next) = round_lem n t ts tenant a h in
      elim next [
        | inl (usable, same) ↦ ([], t, ts, token, date, refl, tt, readable, usable, same)
        | inr (skipped, later) ↦
            let (before, x, after, xt, xd, split_, s, r, u, same) =
              found-IsFirst (suc n) ts tenant a later in
            (
              t ∷ before,
              x,
              after,
              xt,
              xd,
              ap (λ q. t ∷ q) split_,
              ((token, date, readable, skipped), s),
              r,
              u,
              same,
            )
      ]

  -- A token is found exactly where one is readable, not expired, for the management API and for the
  -- tenant, and those before it are readable and not so; what is found is made of the first such token.
  pub find_valid_access_token-IsFirst :
      (ts : List CliToken) (tenant : Str) (a : AccessToken cli.Token)
      → (find_valid_access_token cli 0 ts tenant ≡ ok a) ↔ IsFirst 0 ts tenant a
  find_valid_access_token-IsFirst ts tenant a = (
    found-IsFirst 0 ts tenant a,
    λ (before, t, after, token, date, split_, skipped, readable, usable, same).
        ap (λ q. find_valid_access_token cli 0 q tenant) split_
        ∙ first-found 0 before t after tenant token date skipped readable usable
        ∙ ap ok (sym same),
  )
