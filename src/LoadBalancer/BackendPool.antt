-- ===== src/LoadBalancer/BackendPool.antt =====
-- Backend address pools: azurerm/resource_arm_loadbalancer_backend_address_pool.go.
use terraform_provider_azure.Base.{
  refl, Option, none, some, List, [], ◌∷◌, Str, bytes, Outcome, ok, err, panic, ◌>>=◌,
}
use terraform_provider_azure.LoadBalancer.Model.{
  LoadBalancer, Item, SubResource, BackendPoolProperties,
}
use terraform_provider_azure.LoadBalancer.Client.{Api, Action, Data, LbError}
use terraform_provider_azure.LoadBalancer.Child.{Kind, create, read, delete}

pub record BackendPoolFields : Type 0 where
  pub backend_ip_configurations : List Str
  pub load_balancing_rules : List Str

-- `expandAzureRmLoadBalancerBackendAddressPools`
unfoldable pub expand_backend_pool :
    Data BackendPoolFields → LoadBalancer → Outcome LbError (Item BackendPoolProperties)
expand_backend_pool d lb = ok (record { name = some d.name; id = none; properties = none })

-- The loop over the references of a pool: every ID is dereferenced.
unfoldable pub all_ids : List SubResource → Outcome LbError (List Str)
all_ids [] = ok []
all_ids (r ∷ rs) =
    let rest = all_ids rs in elim r.id [ none ↦ panic | some i ↦ do is ← rest; ok (i ∷ is) ]

ids_of : Option (List SubResource) → Outcome LbError (List Str)
unfolding all_ids
ids_of none = ok []
ids_of (some rs) = all_ids rs

-- Both lists of a pool.
pool_lists : Option BackendPoolProperties → Outcome LbError (List Str × List Str)
unfolding ids_of
pool_lists none = ok ([], [])
pool_lists (some p) = do
  configurations ← ids_of p.backend_ip_configurations
  rules ← ids_of p.load_balancing_rules
  ok (configurations, rules)

-- The part of the read behind the name and the group.
unfoldable pub flatten_backend_pool :
    (Str → Option Str)
    → Item BackendPoolProperties
    → Data BackendPoolFields
    → Outcome LbError (Unit {0}) × Data BackendPoolFields
unfolding pool_lists
flatten_backend_pool auth item d = elim (pool_lists item.properties) [
  | ok lists ↦ (
    ok tt,
    record d {
      fields = record { backend_ip_configurations = lists.0; load_balancing_rules = lists.1 };
    },
  )
  | err x ↦ (err x, d)
  | panic ↦ (panic, d)
]

abbrev pub backend_pool_kind : Kind BackendPoolProperties BackendPoolFields
backend_pool_kind = record {
  items = λ p. p.backend_address_pools;
  set_items = λ xs p. record p { backend_address_pools = some xs };
  items_set = λ xs p. refl;
  path_key = bytes "backendAddressPools";
  expand = expand_backend_pool;
  flatten = flatten_backend_pool;
}

-- `resourceArmLoadBalancerBackendAddressPoolCreate`
unfoldable pub backend_pool_create : (api : Api) → Action api BackendPoolFields (Unit {0})
unfolding create
backend_pool_create = create backend_pool_kind

-- `resourceArmLoadBalancerBackendAddressPoolRead`
unfoldable pub backend_pool_read : (api : Api) → Action api BackendPoolFields (Unit {0})
unfolding read
backend_pool_read = read backend_pool_kind

-- `resourceArmLoadBalancerBackendAddressPoolDelete`
unfoldable pub backend_pool_delete : (api : Api) → Action api BackendPoolFields (Unit {0})
unfolding delete
backend_pool_delete = delete backend_pool_kind
