-- ===== src/Authentication/Config.antt =====
-- The provider's configuration and its checks: azurerm/helpers/authentication/config.go and validation.go.
use terraform_provider_azure.Base.{
  ◌≡◌, ◌≢◌, ◌↔◌, refl, Bool, Option, none, some, List, [], ◌∷◌, ◌++◌, Str,
}

pub record Config (Token : Type 0) : Type 0 where
  pub client_id : Str
  pub subscription_id : Str
  pub tenant_id : Str
  pub environment : Str
  pub skip_credentials_validation : Bool
  pub skip_provider_registration : Bool
  pub client_secret : Str
  pub access_token : Option Token
  pub is_cloud_shell : Bool
  pub use_msi : Bool
  pub msi_endpoint : Str

-- The errors of a check, in the order in which they are appended.
pub data Missing : Type 0 where
  no_access_token no_client_id no_subscription_id no_tenant_id no_client_secret no_environment
        no_msi_endpoint :
      Missing

-- `if text == "" { err = multierror.Append(err, …) }`
abbrev pub missing_if_empty : Str → Missing → List Missing
missing_if_empty [] e = e ∷ []
missing_if_empty (c ∷ s) e = []

abbrev pub missing_if_nil : {T : Type 0} → Option T → Missing → List Missing
missing_if_nil none e = e ∷ []
missing_if_nil (some t) e = []

module _ {Token : Type 0} where
  unfoldable pub validate_bearer_auth : Config Token → List Missing
  validate_bearer_auth c =
      missing_if_nil c.access_token no_access_token
      ++ (missing_if_empty c.client_id no_client_id
          ++ (missing_if_empty c.subscription_id no_subscription_id
              ++ (missing_if_empty c.tenant_id no_tenant_id)))

  unfoldable pub validate_service_principal : Config Token → List Missing
  validate_service_principal c =
      missing_if_empty c.subscription_id no_subscription_id
      ++ (missing_if_empty c.client_id no_client_id
          ++ (missing_if_empty c.client_secret no_client_secret
              ++ (missing_if_empty c.tenant_id no_tenant_id
                  ++ (missing_if_empty c.environment no_environment))))

  unfoldable pub validate_msi : Config Token → List Missing
  validate_msi c =
      missing_if_empty c.subscription_id no_subscription_id
      ++ (missing_if_empty c.tenant_id no_tenant_id
          ++ (missing_if_empty c.environment no_environment
              ++ (missing_if_empty c.msi_endpoint no_msi_endpoint)))

IsNilWhen : List Missing → Type 0 → Type 0
IsNilWhen es P = (es ≡ []) ↔ P

both :
    (xs ys : List Missing) (P Q : Type 0)
    → IsNilWhen xs P
    → IsNilWhen ys Q
    → IsNilWhen (xs ++ ys) (P × Q)
unfolding IsNilWhen
both [] ys P Q p q = ((λ e. (p.0 refl, q.0 e)), (λ h. q.1 h.1))
both (x ∷ xs) ys P Q p q = ((λ e. cc), (λ h. cc (p.1 h.0)))

of_text : (s : Str) (e : Missing) → IsNilWhen (missing_if_empty s e) (s ≢ [])
unfolding IsNilWhen
of_text [] e = ((λ h. cc), (λ h. absurd (h refl)))
of_text (c ∷ s) e = ((λ h p. cc p), (λ h. refl))

of_pointer : {T : Type 0} (t : Option T) (e : Missing) → IsNilWhen (missing_if_nil t e) (t ≢ none)
unfolding IsNilWhen
of_pointer none e = ((λ h. cc), (λ h. absurd (h refl)))
of_pointer (some t) e = ((λ h p. cc p), (λ h. refl))

-- The checks of the three ways to authenticate find nothing missing exactly where every field that the
-- way needs is set.
pub validate_complete :
    {Token : Type 0} (c : Config Token)
    → ((validate_bearer_auth c ≡ []) ↔ (
        (c.access_token ≢ none)
        × ((c.client_id ≢ []) × ((c.subscription_id ≢ []) × (c.tenant_id ≢ [])))))
      × ((validate_service_principal c ≡ []) ↔ (
          (c.subscription_id ≢ [])
          × ((c.client_id ≢ [])
              × ((c.client_secret ≢ []) × ((c.tenant_id ≢ []) × (c.environment ≢ []))))))
      × ((validate_msi c ≡ []) ↔ (
          (c.subscription_id ≢ [])
          × ((c.tenant_id ≢ []) × ((c.environment ≢ []) × (c.msi_endpoint ≢ [])))))
unfolding validate_bearer_auth validate_service_principal validate_msi IsNilWhen
validate_complete c = (
  both _ _ _ _ (of_pointer c.access_token no_access_token) (
      both _ _ _ _ (of_text c.client_id no_client_id) (
        both _ _ _ _ (of_text c.subscription_id no_subscription_id)
          (of_text c.tenant_id no_tenant_id))),
  both _ _ _ _ (of_text c.subscription_id no_subscription_id) (
      both _ _ _ _ (of_text c.client_id no_client_id) (
        both _ _ _ _ (of_text c.client_secret no_client_secret) (
          both _ _ _ _ (of_text c.tenant_id no_tenant_id) (of_text c.environment no_environment)))),
  both _ _ _ _ (of_text c.subscription_id no_subscription_id) (
      both _ _ _ _ (of_text c.tenant_id no_tenant_id) (
        both _ _ _ _ (of_text c.environment no_environment)
          (of_text c.msi_endpoint no_msi_endpoint))),
)
