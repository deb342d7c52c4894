-- ===== src/LoadBalancer/Model.antt =====
-- The parts of the SDK's load balancer that the handlers read or write, and the lookups by name
-- of azurerm/loadbalancer.go. A pointer is an `Option`.
use terraform_provider_azure.Base.{
  ℕ, suc, ◌+◌, ◌%◌, ◌^◌, ◌-◌, ltb, Bool, false, Option, none, some, List, [], ◌∷◌, if◌then◌else◌,
  Str, str_eq,
}

pub record SubResource : Type 0 where
  pub id : Option Str

-- An item of one of the load balancer's lists: `LoadBalancingRule`, `Probe` and so on, with the
-- properties of its kind.
pub record Item (P : Type 0) : Type 0 where
  pub name : Option Str
  pub id : Option Str
  pub properties : Option P

-- `int32(n)` of a Go `int`, both as bit patterns, and the way back, with the sign extended.
abbrev pub int32 : ℕ → ℕ
int32 n = n % 2 ^ 32

abbrev pub of_int32 : ℕ → ℕ
of_int32 n = if ltb n (2 ^ 31) then n else n + (2 ^ 64 - 2 ^ 32)

pub record RuleProperties : Type 0 where
  pub protocol : Str
  pub frontend_port : Option ℕ
  pub backend_port : Option ℕ
  pub enable_floating_ip : Option Bool
  pub idle_timeout_in_minutes : Option ℕ
  pub load_distribution : Str
  pub frontend_ip_configuration : Option SubResource
  pub backend_address_pool : Option SubResource
  pub probe : Option SubResource

pub record NatRuleProperties : Type 0 where
  pub protocol : Str
  pub frontend_port : Option ℕ
  pub backend_port : Option ℕ
  pub enable_floating_ip : Option Bool
  pub frontend_ip_configuration : Option SubResource
  pub backend_ip_configuration : Option SubResource

pub record NatPoolProperties : Type 0 where
  pub protocol : Str
  pub frontend_port_range_start : Option ℕ
  pub frontend_port_range_end : Option ℕ
  pub backend_port : Option ℕ
  pub frontend_ip_configuration : Option SubResource

pub record ProbeProperties : Type 0 where
  pub protocol : Str
  pub port : Option ℕ
  pub interval_in_seconds : Option ℕ
  pub number_of_probes : Option ℕ
  pub request_path : Option Str
  pub load_balancing_rules : Option (List SubResource)

pub record BackendPoolProperties : Type 0 where
  pub backend_ip_configurations : Option (List SubResource)
  pub load_balancing_rules : Option (List SubResource)

-- `LoadBalancerPropertiesFormat`. The properties of a front end are not read.
pub record Properties : Type 0 where
  pub frontend_ip_configurations : Option (List (Item (Unit {0})))
  pub backend_address_pools : Option (List (Item BackendPoolProperties))
  pub load_balancing_rules : Option (List (Item RuleProperties))
  pub probes : Option (List (Item ProbeProperties))
  pub inbound_nat_rules : Option (List (Item NatRuleProperties))
  pub inbound_nat_pools : Option (List (Item NatPoolProperties))

pub record LoadBalancer : Type 0 where
  pub id : Option Str
  pub properties : Option Properties

-- `item.Name != nil && *item.Name == name`
abbrev pub is_named : Str → Option Str → Bool
is_named name none = false
is_named name (some n) = str_eq n name

module _ {P : Type 0} where
  -- The first item with the name, and its index.
  unfoldable pub find_from : ℕ → List (Item P) → Str → Option (Item P × ℕ)
  find_from i [] name = none
  find_from i (x ∷ xs) name =
      if is_named name x.name then some (x, i) else find_from (suc i) xs name

  -- With nothing at the end of the pointers, nothing is found.
  unfoldable pub find_in :
      (Properties → Option (List (Item P))) → Option LoadBalancer → Str → Option (Item P × ℕ)
  unfolding find_from
  find_in items none name = none
  find_in items (some lb) name = elim lb.properties [
    | none ↦ none
    | some p ↦ elim (items p) [ none ↦ none | some xs ↦ find_from 0 xs name ]
  ]

unfoldable pub find_backend_address_pool :
    Option LoadBalancer → Str → Option (Item BackendPoolProperties × ℕ)
unfolding find_in
find_backend_address_pool = find_in (λ p. p.backend_address_pools)

unfoldable pub find_frontend_ip_configuration :
    Option LoadBalancer → Str → Option (Item (Unit {0}) × ℕ)
unfolding find_in
find_frontend_ip_configuration = find_in (λ p. p.frontend_ip_configurations)

unfoldable pub find_rule : Option LoadBalancer → Str → Option (Item RuleProperties × ℕ)
unfolding find_in
find_rule = find_in (λ p. p.load_balancing_rules)

unfoldable pub find_nat_rule : Option LoadBalancer → Str → Option (Item NatRuleProperties × ℕ)
unfolding find_in
find_nat_rule = find_in (λ p. p.inbound_nat_rules)

unfoldable pub find_nat_pool : Option LoadBalancer → Str → Option (Item NatPoolProperties × ℕ)
unfolding find_in
find_nat_pool = find_in (λ p. p.inbound_nat_pools)

unfoldable pub find_probe : Option LoadBalancer → Str → Option (Item ProbeProperties × ℕ)
unfolding find_in
find_probe = find_in (λ p. p.probes)
