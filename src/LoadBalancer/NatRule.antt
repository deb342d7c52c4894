-- ===== src/LoadBalancer/NatRule.antt =====
-- Inbound NAT rules: azurerm/resource_arm_loadbalancer_nat_rule.go.
use terraform_provider_azure.Base.{
  ℕ, refl, Bool, true, Option, none, some, if◌then◌else◌, Str, bytes, lookup, get_or_empty, Outcome,
  ok, err, panic, ◌>>=◌,
}
use terraform_provider_azure.ResourceId.{parse_azure_resource_id}
use terraform_provider_azure.LoadBalancer.Model.{LoadBalancer, Item, int32, NatRuleProperties}
use terraform_provider_azure.LoadBalancer.Client.{Api, Action, Data, LbError, bad_id}
use terraform_provider_azure.LoadBalancer.Fields.{front_end, number, flag, text_or}
use terraform_provider_azure.LoadBalancer.Child.{Kind, create, read, delete}

pub record NatRuleFields : Type 0 where
  pub protocol : Str
  pub frontend_port : ℕ
  pub backend_port : ℕ
  pub enable_floating_ip : Bool
  pub frontend_ip_configuration_name : Str
  pub frontend_ip_configuration_id : Str
  pub backend_ip_configuration_id : Str

-- `expandAzureRmLoadBalancerNatRule`. `GetOk` holds of a Boolean that is true.
unfoldable pub expand_nat_rule :
    Data NatRuleFields → LoadBalancer → Outcome LbError (Item NatRuleProperties)
unfolding front_end
expand_nat_rule d lb = do
  front ← front_end d.fields.frontend_ip_configuration_name lb
  ok (record {
    name = some d.name;
    id = none;
    properties = some (record {
      protocol = d.fields.protocol;
      frontend_port = some (int32 d.fields.frontend_port);
      backend_port = some (int32 d.fields.backend_port);
      enable_floating_ip = if d.fields.enable_floating_ip then some true else none;
      frontend_ip_configuration = front;
      backend_ip_configuration = none;
    });
  })

plain_fields : NatRuleProperties → NatRuleFields → NatRuleFields
plain_fields p f = record f {
  protocol = p.protocol;
  frontend_port = number p.frontend_port;
  backend_port = number p.backend_port;
  enable_floating_ip = flag p.enable_floating_ip;
}

last_fields : NatRuleProperties → NatRuleFields → NatRuleFields
last_fields p f = record f {
  backend_ip_configuration_id = text_or p.backend_ip_configuration f.backend_ip_configuration_id;
}

-- The part of the read behind the name and the group.
unfoldable pub flatten_nat_rule :
    (Str → Option Str)
    → Item NatRuleProperties
    → Data NatRuleFields
    → Outcome LbError (Unit {0}) × Data NatRuleFields
unfolding plain_fields last_fields
flatten_nat_rule auth item d = elim item.properties [
  | none ↦ (ok tt, d)
  | some p ↦
      let f = plain_fields p d.fields in
      elim p.frontend_ip_configuration [
        | none ↦ (ok tt, record d { fields = last_fields p f })
        | some front ↦ elim front.id [
          | none ↦ (panic, record d { fields = f })
          | some i ↦ elim (parse_azure_resource_id auth i) [
            | err x ↦ (err (bad_id x), record d { fields = f })
            | panic ↦ (panic, record d { fields = f })
            | ok fip ↦ (
              ok tt,
              record d {
                fields = last_fields p (record f {
                  frontend_ip_configuration_name =
                      get_or_empty (lookup (bytes "frontendIPConfigurations") fip.path);
                  frontend_ip_configuration_id = i;
                });
              },
            )
          ]
        ]
      ]
]

abbrev pub nat_rule_kind : Kind NatRuleProperties NatRuleFields
nat_rule_kind = record {
  items = λ p. p.inbound_nat_rules;
  set_items = λ xs p. record p { inbound_nat_rules = some xs };
  items_set = λ xs p. refl;
  path_key = bytes "inboundNatRules";
  expand = expand_nat_rule;
  flatten = flatten_nat_rule;
}

-- `resourceArmLoadBalancerNatRuleCreateUpdate`
unfoldable pub nat_rule_create : (api : Api) → Action api NatRuleFields (Unit {0})
unfolding create
nat_rule_create = create nat_rule_kind

-- `resourceArmLoadBalancerNatRuleRead`
unfoldable pub nat_rule_read : (api : Api) → Action api NatRuleFields (Unit {0})
unfolding read
nat_rule_read = read nat_rule_kind

-- `resourceArmLoadBalancerNatRuleDelete`
unfoldable pub nat_rule_delete : (api : Api) → Action api NatRuleFields (Unit {0})
unfolding delete
nat_rule_delete = delete nat_rule_kind
