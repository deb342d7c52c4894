-- ===== src/NetworkInterface/Model.antt =====
-- The parts of the SDK's network interface that the associations read or write, and the changes
-- that they make to it.
use terraform_provider_azure.Base.{
  ◌≡◌, refl, Bool, true, false, Option, none, some, List, [], ◌∷◌, ◌++◌, if◌then◌else◌, Str, str_eq,
  Outcome, ok, err, ◌>>=◌, wrap,
}
use terraform_provider_azure.ResourceId.{IdError}
use terraform_provider_azure.Helpers.NetworkInterface.{
  IpConfiguration, find_ip_configuration, update_ip_configuration,
}

pub data NicError : Type 0 where
  bad_format nic_missing get_failed put_failed completion_failed : NicError
  no_properties no_configurations no_configuration no_ip_properties already_exists : NicError
  bad_id : IdError → NicError

-- `InboundNatRule`, `BackendAddressPool` or `ApplicationGatewayBackendAddressPool`: the ID, and the rest of
-- its fields, which a new one leaves out.
pub record Target (R : Type 0) : Type 0 where
  pub id : Option Str
  pub rest : Option R

pub record IpProperties (R : Type 0) : Type 0 where
  pub inbound_nat_rules : Option (List (Target R))
  pub backend_address_pools : Option (List (Target R))
  pub application_gateway_pools : Option (List (Target R))

abbrev pub Configuration : Type 0 → Type 0
Configuration R = IpConfiguration (Option (IpProperties R))

pub record NicProperties (R : Type 0) : Type 0 where
  pub ip_configurations : Option (List (Configuration R))

pub record Nic (R : Type 0) : Type 0 where
  pub id : Option Str
  pub properties : Option (NicProperties R)

-- The list of a configuration that an association is kept in.
pub record Kind (R : Type 0) : Type 0 where
  pub targets : IpProperties R → Option (List (Target R))
  pub set_targets : List (Target R) → IpProperties R → IpProperties R
  pub targets_set :
      (ts : List (Target R)) (p : IpProperties R) → targets (set_targets ts p) ≡ some ts

-- `if p == nil { return err }`
abbrev pub require {ℓ} : {A : Type ℓ} → NicError → Option A → Outcome NicError A
require e none = err e
require e (some a) = ok a

abbrev pub list_or_empty {ℓ} : {A : Type ℓ} → Option (List A) → List A
list_or_empty none = []
list_or_empty (some xs) = xs

module _ {R : Type 0} where
  abbrev pub nat_rule_kind : Kind R
  nat_rule_kind = record {
    targets = λ p. p.inbound_nat_rules;
    set_targets = λ ts p. record p { inbound_nat_rules = some ts };
    targets_set = λ ts p. refl;
  }

  abbrev pub backend_address_pool_kind : Kind R
  backend_address_pool_kind = record {
    targets = λ p. p.backend_address_pools;
    set_targets = λ ts p. record p { backend_address_pools = some ts };
    targets_set = λ ts p. refl;
  }

  abbrev pub application_gateway_kind : Kind R
  application_gateway_kind = record {
    targets = λ p. p.application_gateway_pools;
    set_targets = λ ts p. record p { application_gateway_pools = some ts };
    targets_set = λ ts p. refl;
  }

  -- `read.InterfacePropertiesFormat.IPConfigurations`
  unfoldable pub configurations : Nic R → Outcome NicError (List (Configuration R))
  configurations nic = do
    props ← require no_properties nic.properties
    require no_configurations props.ip_configurations

  -- The configuration with the name, and its properties.
  unfoldable pub select :
      List (Configuration R) → Str → Outcome NicError (Configuration R × IpProperties R)
  select configs name = do
    config ← require no_configuration (find_ip_configuration (some configs) name)
    p ← require no_ip_properties config.properties
    ok (config, p)

  -- The loop of a create, which drops the targets that have no ID.
  unfoldable pub unless_exists : Str → List (Target R) → Outcome NicError (List (Target R))
  unless_exists id [] = ok []
  unless_exists id (t ∷ ts) =
      let rest = unless_exists id ts in
      elim t.id [
        | none ↦ rest
        | some i ↦ if str_eq i id then err already_exists else do kept ← rest; ok (t ∷ kept)
      ]

  -- The loop of a delete.
  unfoldable pub without : Str → List (Target R) → List (Target R)
  without id [] = []
  without id (t ∷ ts) =
      let rest = without id ts in
      elim t.id [ none ↦ rest | some i ↦ if str_eq i id then rest else t ∷ rest ]

  -- The loop of a read.
  unfoldable pub has_target : Str → List (Target R) → Bool
  has_target id [] = false
  has_target id (t ∷ ts) =
      let rest = has_target id ts in
      elim t.id [ none ↦ rest | some i ↦ if str_eq i id then true else rest ]

  module _ (kind : Kind R) where
    -- The network interface with the targets of a configuration replaced.
    unfoldable pub put_targets :
        Nic R
        → List (Configuration R)
        → Configuration R
        → IpProperties R
        → List (Target R)
        → Outcome NicError (Nic R)
    put_targets nic configs config p ts = do
      props ← require no_properties nic.properties
      let changed = record config { properties = some (kind.set_targets ts p) }
      out ← wrap (λ _. no_configuration) (update_ip_configuration changed (some configs))
      ok (record nic { properties = some (record props { ip_configurations = some out }) })

    -- What a create does to the network interface.
    unfoldable pub associate : Str → Str → Nic R → Outcome NicError (Nic R)
    unfolding configurations select unless_exists put_targets
    associate name id nic = do
      configs ← configurations nic
      chosen ← select configs name
      kept ← unless_exists id (list_or_empty (kind.targets chosen.1))
      put_targets nic configs chosen.0 chosen.1 (kept ++ record { id = some id; rest = none } ∷ [])

    -- What a delete does to it.
    unfoldable pub dissociate : Str → Str → Nic R → Outcome NicError (Nic R)
    unfolding configurations select without put_targets
    dissociate name id nic = do
      configs ← configurations nic
      chosen ← select configs name
      put_targets nic configs chosen.0 chosen.1 (without id (list_or_empty (kind.targets chosen.1)))

    -- Whether a read finds the association.
    unfoldable pub is_associated : Str → Str → Nic R → Outcome NicError Bool
    unfolding configurations has_target
    is_associated name id nic = do
      configs ← configurations nic
      ok (elim (find_ip_configuration (some configs) name) [
        | none ↦ false
        | some config ↦ elim config.properties [
          | none ↦ false
          | some p ↦ has_target id (list_or_empty (kind.targets p))
        ]
      ])
