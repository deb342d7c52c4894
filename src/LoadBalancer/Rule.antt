-- ===== src/LoadBalancer/Rule.antt =====
-- Load balancing rules: azurerm/resource_arm_loadbalancer_rule.go.
pub mod RoundTrip
mod Tests
use terraform_provider_azure.Base.{
  ℕ, ◌==◌, refl, Bool, Option, none, some, [], if◌then◌else◌, Str, bytes, str_eq, lookup,
  get_or_empty, Outcome, ok, err, panic, ◌>>=◌,
}
use terraform_provider_azure.ResourceId.{parse_azure_resource_id}
use terraform_provider_azure.LoadBalancer.Model.{
  LoadBalancer, Item, SubResource, int32, of_int32, RuleProperties,
}
use terraform_provider_azure.LoadBalancer.Client.{Api, Action, Data, LbError, bad_id}
use terraform_provider_azure.LoadBalancer.Fields.{front_end, number, text_or}
use terraform_provider_azure.LoadBalancer.Child.{Kind, create, read, delete}

pub record RuleFields : Type 0 where
  pub protocol : Str
  pub frontend_port : ℕ
  pub backend_port : ℕ
  pub enable_floating_ip : Bool
  pub idle_timeout_in_minutes : ℕ
  pub load_distribution : Str
  pub frontend_ip_configuration_name : Str
  pub frontend_ip_configuration_id : Str
  pub backend_address_pool_id : Str
  pub probe_id : Str

-- A reference to the ID in the configuration, if there is one.
reference : Str → Option SubResource
reference v = if str_eq v [] then none else some (record { id = some v })

-- `expandAzureRmLoadBalancerRule`. `GetOk` holds of a number that is not zero.
unfoldable pub expand_rule : Data RuleFields → LoadBalancer → Outcome LbError (Item RuleProperties)
unfolding front_end reference
expand_rule d lb = do
  front ← front_end d.fields.frontend_ip_configuration_name lb
  ok (record {
    name = some d.name;
    id = none;
    properties = some (record {
      protocol = d.fields.protocol;
      frontend_port = some (int32 d.fields.frontend_port);
      backend_port = some (int32 d.fields.backend_port);
      enable_floating_ip = some d.fields.enable_floating_ip;
      idle_timeout_in_minutes =
          if d.fields.idle_timeout_in_minutes == 0
          then none
          else some (int32 d.fields.idle_timeout_in_minutes);
      load_distribution = d.fields.load_distribution;
      frontend_ip_configuration = front;
      backend_address_pool = reference d.fields.backend_address_pool_id;
      probe = reference d.fields.probe_id;
    });
  })

-- The fields of the properties that are set before the front end.
plain_fields : RuleProperties → RuleFields → RuleFields
plain_fields p f = record f {
  protocol = p.protocol;
  frontend_port = number p.frontend_port;
  backend_port = number p.backend_port;
  enable_floating_ip = elim p.enable_floating_ip [ none ↦ f.enable_floating_ip | some b ↦ b ];
  idle_timeout_in_minutes = elim p.idle_timeout_in_minutes [
    | none ↦ f.idle_timeout_in_minutes
    | some n ↦ of_int32 n
  ];
}

-- Those that are set behind it.
last_fields : RuleProperties → RuleFields → RuleFields
last_fields p f = record f {
  backend_address_pool_id = text_or p.backend_address_pool f.backend_address_pool_id;
  probe_id = text_or p.probe f.probe_id;
  load_distribution =
      if str_eq p.load_distribution [] then f.load_distribution else p.load_distribution;
}

-- The part of the read behind the name and the group. The ID of the front end is dereferenced, and
-- one that does not parse ends the read with what has been set so far.
unfoldable pub flatten_rule :
    (Str → Option Str)
    → Item RuleProperties
    → Data RuleFields
    → Outcome LbError (Unit {0}) × Data RuleFields
unfolding plain_fields last_fields
flatten_rule auth item d = elim item.properties [
  | none ↦ (ok tt, d)
  | some p ↦
      let f = plain_fields p d.fields in
      elim p.frontend_ip_configuration [
        | none ↦ (ok tt, record d { fields = last_fields p f })
        | some front ↦ elim front.id [
          | none ↦ (panic, record d { fields = f })
          | some i ↦ elim (parse_azure_resource_id auth i) [
            | err x ↦ (err (bad_id x), record d { fields = f })
            | panic ↦ (panic, record d { fields = f })
            | ok fip ↦ (
              ok tt,
              record d {
                fields = last_fields p (record f {
                  frontend_ip_configuration_name =
                      get_or_empty (lookup (bytes "frontendIPConfigurations") fip.path);
                  frontend_ip_configuration_id = i;
                });
              },
            )
          ]
        ]
      ]
]

abbrev pub rule_kind : Kind RuleProperties RuleFields
rule_kind = record {
  items = λ p. p.load_balancing_rules;
  set_items = λ xs p. record p { load_balancing_rules = some xs };
  items_set = λ xs p. refl;
  path_key = bytes "loadBalancingRules";
  expand = expand_rule;
  flatten = flatten_rule;
}

-- `resourceArmLoadBalancerRuleCreate`
unfoldable pub rule_create : (api : Api) → Action api RuleFields (Unit {0})
unfolding create
rule_create = create rule_kind

-- `resourceArmLoadBalancerRuleRead`
unfoldable pub rule_read : (api : Api) → Action api RuleFields (Unit {0})
unfolding read
rule_read = read rule_kind

-- `resourceArmLoadBalancerRuleDelete`
unfoldable pub rule_delete : (api : Api) → Action api RuleFields (Unit {0})
unfolding delete
rule_delete = delete rule_kind
