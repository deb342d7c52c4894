-- ===== src/LoadBalancer/Probe.antt =====
-- Health probes: azurerm/resource_arm_loadbalancer_probe.go.
use terraform_provider_azure.Base.{
  ℕ, refl, Option, none, some, List, [], ◌∷◌, if◌then◌else◌, Str, bytes, str_eq, get_or_empty,
  Outcome, ok,
}
use terraform_provider_azure.LoadBalancer.Model.{
  LoadBalancer, Item, SubResource, int32, ProbeProperties,
}
use terraform_provider_azure.LoadBalancer.Client.{Api, Action, Data, LbError}
use terraform_provider_azure.LoadBalancer.Fields.{number}
use terraform_provider_azure.LoadBalancer.Child.{Kind, create, read, delete}

pub record ProbeFields : Type 0 where
  pub protocol : Str
  pub port : ℕ
  pub interval_in_seconds : ℕ
  pub number_of_probes : ℕ
  pub request_path : Str
  pub load_balancer_rules : List Str

-- `expandAzureRmLoadBalancerProbe`. `GetOk` holds of a text that is not empty; an empty protocol is
-- the zero value all the same.
unfoldable pub expand_probe :
    Data ProbeFields → LoadBalancer → Outcome LbError (Item ProbeProperties)
expand_probe d lb = ok (record {
  name = some d.name;
  id = none;
  properties = some (record {
    protocol = if str_eq d.fields.protocol [] then [] else d.fields.protocol;
    port = some (int32 d.fields.port);
    interval_in_seconds = some (int32 d.fields.interval_in_seconds);
    number_of_probes = some (int32 d.fields.number_of_probes);
    request_path = if str_eq d.fields.request_path [] then none else some d.fields.request_path;
    load_balancing_rules = none;
  });
})

-- The IDs that are not nil.
unfoldable pub known_ids : List SubResource → List Str
known_ids [] = []
known_ids (r ∷ rs) = let rest = known_ids rs in elim r.id [ none ↦ rest | some i ↦ i ∷ rest ]

-- The part of the read behind the name and the group.
unfoldable pub flatten_probe :
    (Str → Option Str)
    → Item ProbeProperties
    → Data ProbeFields
    → Outcome LbError (Unit {0}) × Data ProbeFields
unfolding known_ids
flatten_probe auth item d = elim item.properties [
  | none ↦ (ok tt, d)
  | some p ↦ (
    ok tt,
    record d {
      fields = record {
        protocol = p.protocol;
        interval_in_seconds = number p.interval_in_seconds;
        number_of_probes = number p.number_of_probes;
        port = number p.port;
        request_path = get_or_empty p.request_path;
        load_balancer_rules = elim p.load_balancing_rules [ none ↦ [] | some rs ↦ known_ids rs ];
      };
    },
  )
]

abbrev pub probe_kind : Kind ProbeProperties ProbeFields
probe_kind = record {
  items = λ p. p.probes;
  set_items = λ xs p. record p { probes = some xs };
  items_set = λ xs p. refl;
  path_key = bytes "probes";
  expand = expand_probe;
  flatten = flatten_probe;
}

-- `resourceArmLoadBalancerProbeCreateUpdate`
unfoldable pub probe_create : (api : Api) → Action api ProbeFields (Unit {0})
unfolding create
probe_create = create probe_kind

-- `resourceArmLoadBalancerProbeRead`
unfoldable pub probe_read : (api : Api) → Action api ProbeFields (Unit {0})
unfolding read
probe_read = read probe_kind

-- `resourceArmLoadBalancerProbeDelete`
unfoldable pub probe_delete : (api : Api) → Action api ProbeFields (Unit {0})
unfolding delete
probe_delete = delete probe_kind
