-- ===== src/Helpers/Rights.antt =====
-- The rights of an authorization rule: azurerm/helpers/azure/servicebus.go and eventhub.go, which are the
-- same code over the two SDKs' types.
use terraform_provider_azure.Base.{
  ◌≡◌, ◌↔◌, ◌⊎◌, Bool, true, false, ◌&&◌, not, Option, none, some, List, [], ◌∷◌, ◌++◌, arith,
  if◌then◌else◌, Str,
}

-- `AccessRights`, a string type with three constants.
pub data AccessRight : Type 0 where
  listen send manage : AccessRight
  unknown : Str → AccessRight

-- The three fields of the configuration.
pub record Rights : Type 0 where
  pub listen_ : Bool
  pub send_ : Bool
  pub manage_ : Bool

unfoldable pub expand_rights : Rights → List AccessRight
expand_rights r =
    let rights = if r.listen_ then listen ∷ [] else [] in
    let rights' = if r.send_ then rights ++ send ∷ [] else rights in
    if r.manage_ then rights' ++ manage ∷ [] else rights'

-- The loop over the rights, from what has been seen so far.
unfoldable pub flatten_from : List AccessRight → Rights → Rights
flatten_from [] r = r
flatten_from (listen ∷ rs) r = flatten_from rs (record r { listen_ = true })
flatten_from (send ∷ rs) r = flatten_from rs (record r { send_ = true })
flatten_from (manage ∷ rs) r = flatten_from rs (record r { manage_ = true })
flatten_from (unknown s ∷ rs) r = flatten_from rs r

unfoldable pub flatten_rights : Option (List AccessRight) → Rights
unfolding flatten_from
flatten_rights none = record { listen_ = false; send_ = false; manage_ = false }
flatten_rights (some rs) =
    flatten_from rs (record { listen_ = false; send_ = false; manage_ = false })

pub data DiffError : Type 0 where
  none_set manage_alone : DiffError

-- `…AuthorizationRuleCustomizeDiff`. `GetOk` of a Boolean holds where it is true.
unfoldable pub customize_diff : Rights → Option DiffError
customize_diff r =
    if not r.listen_ && not r.send_ && not r.manage_
    then some none_set
    else if r.manage_ && not r.listen_ && not r.send_
    then some manage_alone
    else none

-- What is expanded from a configuration flattens to the same configuration.
pub flatten_rights-expand_rights : (r : Rights) → flatten_rights (some (expand_rights r)) ≡ r
unfolding flatten_rights flatten_from expand_rights
flatten_rights-expand_rights r = ground arith

-- The check of a rule passes exactly where it may listen or send. So it passes a rule that may manage and
-- listen but not send.
pub customize_diff_lem :
    (r : Rights) → (customize_diff r ≡ none) ↔ ((r.listen_ ≡ true) ⊎ (r.send_ ≡ true))
unfolding customize_diff
customize_diff_lem r = ground arith
