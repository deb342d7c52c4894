-- ===== src/LoadBalancer/NatPool.antt =====
-- Inbound NAT pools: azurerm/resource_arm_loadbalancer_nat_pool.go.
use terraform_provider_azure.Base.{
  ℕ, refl, Option, none, some, Str, bytes, lookup, get_or_empty, Outcome, ok, err, panic, ◌>>=◌,
}
use terraform_provider_azure.ResourceId.{parse_azure_resource_id}
use terraform_provider_azure.LoadBalancer.Model.{LoadBalancer, Item, int32, NatPoolProperties}
use terraform_provider_azure.LoadBalancer.Client.{Api, Action, Data, LbError, bad_id}
use terraform_provider_azure.LoadBalancer.Fields.{front_end, number}
use terraform_provider_azure.LoadBalancer.Child.{Kind, create, read, delete}

pub record NatPoolFields : Type 0 where
  pub protocol : Str
  pub frontend_port_start : ℕ
  pub frontend_port_end : ℕ
  pub backend_port : ℕ
  pub frontend_ip_configuration_name : Str
  pub frontend_ip_configuration_id : Str

-- `expandAzureRmLoadBalancerNatPool`
unfoldable pub expand_nat_pool :
    Data NatPoolFields → LoadBalancer → Outcome LbError (Item NatPoolProperties)
unfolding front_end
expand_nat_pool d lb = do
  front ← front_end d.fields.frontend_ip_configuration_name lb
  ok (record {
    name = some d.name;
    id = none;
    properties = some (record {
      protocol = d.fields.protocol;
      frontend_port_range_start = some (int32 d.fields.frontend_port_start);
      frontend_port_range_end = some (int32 d.fields.frontend_port_end);
      backend_port = some (int32 d.fields.backend_port);
      frontend_ip_configuration = front;
    });
  })

plain_fields : NatPoolProperties → NatPoolFields → NatPoolFields
plain_fields p f = record f {
  protocol = p.protocol;
  frontend_port_start = number p.frontend_port_range_start;
  frontend_port_end = number p.frontend_port_range_end;
  backend_port = number p.backend_port;
}

-- The part of the read behind the name and the group.
unfoldable pub flatten_nat_pool :
    (Str → Option Str)
    → Item NatPoolProperties
    → Data NatPoolFields
    → Outcome LbError (Unit {0}) × Data NatPoolFields
unfolding plain_fields
flatten_nat_pool auth item d = elim item.properties [
  | none ↦ (ok tt, d)
  | some p ↦
      let f = plain_fields p d.fields in
      elim p.frontend_ip_configuration [
        | none ↦ (ok tt, record d { fields = f })
        | some front ↦ elim front.id [
          | none ↦ (panic, record d { fields = f })
          | some i ↦ elim (parse_azure_resource_id auth i) [
            | err x ↦ (err (bad_id x), record d { fields = f })
            | panic ↦ (panic, record d { fields = f })
            | ok fip ↦ (
              ok tt,
              record d {
                fields = (record f {
                  frontend_ip_configuration_name =
                      get_or_empty (lookup (bytes "frontendIPConfigurations") fip.path);
                  frontend_ip_configuration_id = i;
                });
              },
            )
          ]
        ]
      ]
]

abbrev pub nat_pool_kind : Kind NatPoolProperties NatPoolFields
nat_pool_kind = record {
  items = λ p. p.inbound_nat_pools;
  set_items = λ xs p. record p { inbound_nat_pools = some xs };
  items_set = λ xs p. refl;
  path_key = bytes "inboundNatPools";
  expand = expand_nat_pool;
  flatten = flatten_nat_pool;
}

-- `resourceArmLoadBalancerNatPoolCreate`
unfoldable pub nat_pool_create : (api : Api) → Action api NatPoolFields (Unit {0})
unfolding create
nat_pool_create = create nat_pool_kind

-- `resourceArmLoadBalancerNatPoolRead`
unfoldable pub nat_pool_read : (api : Api) → Action api NatPoolFields (Unit {0})
unfolding read
nat_pool_read = read nat_pool_kind

-- `resourceArmLoadBalancerNatPoolDelete`
unfoldable pub nat_pool_delete : (api : Api) → Action api NatPoolFields (Unit {0})
unfolding delete
nat_pool_delete = delete nat_pool_kind
