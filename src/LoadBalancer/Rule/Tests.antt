-- ===== src/LoadBalancer/Rule/Tests.antt =====
-- A rule with a front end.
use terraform_provider_azure.Base.{
  ◌≡◌, refl, true, false, none, some, [], ◌∷◌, arith, Str, bytes, str_eq, lookup, insert, erase, ok,
}
use terraform_provider_azure.Text.{
  split, trim_space, trim_prefix, trim_suffix, has_prefix, to_lower,
}
use terraform_provider_azure.Url.{parse_request_uri, before, unescape}
use terraform_provider_azure.ResourceId.{ResourceId, bare_path, segments, parse_azure_resource_id}
use terraform_provider_azure.LoadBalancer.Model.{
  LoadBalancer, Item, RuleProperties, find_frontend_ip_configuration, find_in, find_from,
}
use terraform_provider_azure.LoadBalancer.Client.{Data}
use terraform_provider_azure.LoadBalancer.Fields.{front_end}
use terraform_provider_azure.LoadBalancer.Rule.{RuleFields, expand_rule, flatten_rule}
use terraform_provider_azure.LoadBalancer.Rule.RoundTrip.{with_front, flatten_rule-expand_rule}

abbrev front_id : Str
front_id =
    bytes
      "/subscriptions/1/resourceGroups/g/providers/p/loadBalancers/lb/frontendIPConfigurations/fe"

abbrev front_parts : ResourceId
front_parts = record {
  subscription = bytes "1";
  group = bytes "g";
  provider = bytes "p";
  path = (bytes "loadBalancers", bytes "lb") ∷ (bytes "frontendIPConfigurations", bytes "fe") ∷ [];
}

abbrev front_balancer : LoadBalancer
front_balancer = record {
  id = none;
  properties = some (record {
    frontend_ip_configurations =
        some (record { name = some (bytes "fe"); id = some front_id; properties = none } ∷ []);
    backend_address_pools = none;
    load_balancing_rules = none;
    probes = none;
    inbound_nat_rules = none;
    inbound_nat_pools = none;
  });
}

abbrev front_rule : Data RuleFields
front_rule = record {
  id = [];
  name = bytes "web";
  resource_group_name = [];
  loadbalancer_id = [];
  fields = record {
    protocol = bytes "Tcp";
    frontend_port = 80;
    backend_port = 8080;
    enable_floating_ip = true;
    idle_timeout_in_minutes = 4;
    load_distribution = bytes "Default";
    frontend_ip_configuration_name = bytes "fe";
    frontend_ip_configuration_id = [];
    backend_address_pool_id = bytes "pool";
    probe_id = [];
  };
}

-- The state of a rule that is imported.
abbrev imported : Data RuleFields
imported = record {
  id = bytes "rule";
  name = bytes "web";
  resource_group_name = bytes "g";
  loadbalancer_id = bytes "lb";
  fields = record {
    protocol = [];
    frontend_port = 0;
    backend_port = 0;
    enable_floating_ip = false;
    idle_timeout_in_minutes = 0;
    load_distribution = [];
    frontend_ip_configuration_name = [];
    frontend_ip_configuration_id = [];
    backend_address_pool_id = [];
    probe_id = [];
  };
}

front_id_parsed : parse_azure_resource_id (λ s. none) front_id ≡ ok front_parts
unfolding parse_azure_resource_id parse_request_uri bare_path segments split trim_space trim_prefix
    trim_suffix has_prefix to_lower before unescape str_eq lookup insert erase
front_id_parsed = refl

front_named : front_end (bytes "fe") front_balancer ≡ ok (some (record { id = some front_id }))
unfolding front_end find_frontend_ip_configuration find_in find_from str_eq
front_named = refl

front_key : lookup (bytes "frontendIPConfigurations") front_parts.path ≡ some (bytes "fe")
unfolding lookup str_eq
front_key = refl

flatten_rule-expand_rule_example :
    (item : Item RuleProperties) × (expand_rule front_rule front_balancer ≡ ok item)
    × (flatten_rule (λ s. none) item imported
        ≡ (ok tt, record imported { fields = with_front front_id front_rule.fields }))
flatten_rule-expand_rule_example =
    flatten_rule-expand_rule (λ s. none) front_rule imported front_balancer front_id front_parts
      (omega arith, omega arith, omega arith) ((λ h. refl), (λ h. refl), (λ h. refl), (λ h. refl))
      front_named front_id_parsed front_key
