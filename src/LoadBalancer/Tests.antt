-- ===== src/LoadBalancer/Tests.antt =====
-- The handlers of a load balancing rule against a cloud that holds one load balancer, and the
-- theorems there.
use terraform_provider_azure.Base.{
  ◌≤◌, ◌≡◌, refl, ◌≢◌, true, false, Option, none, some, List, [], ◌∷◌, ◌++◌, arith, Str, bytes,
  str_eq, lookup, insert, erase, ok,
}
use terraform_provider_azure.Text.{
  split, trim_space, trim_prefix, trim_suffix, has_prefix, to_lower,
}
use terraform_provider_azure.Url.{parse_request_uri, before, unescape}
use terraform_provider_azure.ResourceId.{
  bare_path, segments, parse_azure_resource_id, resource_group_and_lb_name,
}
use terraform_provider_azure.LoadBalancer.Model.{LoadBalancer, Properties, Item, RuleProperties}
use terraform_provider_azure.LoadBalancer.Client.{
  Api, Fetched, found, missing, Env, lock, unlock, written,
}
use terraform_provider_azure.LoadBalancer.Rule.{RuleFields, expand_rule, rule_kind}
use terraform_provider_azure.LoadBalancer.Child.{create, delete, reapplied}
use terraform_provider_azure.LoadBalancer.Child.Splice.{
  without_first, count_named, first_named, reapplied-replaces,
}
use terraform_provider_azure.LoadBalancer.Child.Lifecycle.{
  updated, create-writes, delete-writes, delete_events,
}
use terraform_provider_azure.LoadBalancer.Child.Locking.{IsBracketed, create-IsBracketed}
use terraform_provider_azure.LoadBalancer.Import.{
  import_load_balancer_id, import-balancer_id, is_word, is_line,
}

abbrev answer : Option LoadBalancer → Fetched
answer none = missing
answer (some lb) = found lb

abbrev one_cloud : Api
one_cloud = record {
  Cloud = Option LoadBalancer;
  get = λ g n c. (answer c, c);
  create_or_update = λ g n lb c. (true, some lb);
  wait_for_completion = λ g n c. (true, c);
  wait_for_state = λ g n c. (true, c);
  parse_authority = λ s. none;
}

abbrev rule : Str → Str → Item RuleProperties
rule name id = record { name = some name; id = some id; properties = none }

abbrev old_rules : List (Item RuleProperties)
old_rules = rule (bytes "web") (bytes "w") ∷ rule (bytes "ssh") (bytes "s") ∷ []

abbrev lb_properties : Properties
lb_properties = record {
  frontend_ip_configurations = none;
  backend_address_pools = none;
  load_balancing_rules = some old_rules;
  probes = none;
  inbound_nat_rules = none;
  inbound_nat_pools = none;
}

abbrev balancer : LoadBalancer
balancer = record { id = some (bytes "id"); properties = some lb_properties }

abbrev lb_id : Str
lb_id = bytes "/subscriptions/1/resourceGroups/g/providers/Microsoft.Network/loadBalancers/lb"

abbrev start : Env one_cloud RuleFields
start = record {
  cloud = some balancer;
  data_ = record {
    id = [];
    name = bytes "web";
    resource_group_name = [];
    loadbalancer_id = lb_id;
    fields = record {
      protocol = bytes "Tcp";
      frontend_port = 80;
      backend_port = 8080;
      enable_floating_ip = false;
      idle_timeout_in_minutes = 0;
      load_distribution = [];
      frontend_ip_configuration_name = [];
      frontend_ip_configuration_id = [];
      backend_address_pool_id = [];
      probe_id = [];
    };
  };
  events = [];
}

abbrev web : Item RuleProperties
web = record {
  name = some (bytes "web");
  id = none;
  properties = some (record {
    protocol = bytes "Tcp";
    frontend_port = some 80;
    backend_port = some 8080;
    enable_floating_ip = some false;
    idle_timeout_in_minutes = none;
    load_distribution = [];
    frontend_ip_configuration = none;
    backend_address_pool = none;
    probe = none;
  });
}

lb_id_parsed :
    resource_group_and_lb_name one_cloud.parse_authority lb_id ≡ ok (bytes "g", bytes "lb")
unfolding resource_group_and_lb_name parse_azure_resource_id parse_request_uri bare_path segments
    split trim_space trim_prefix trim_suffix has_prefix to_lower before unescape str_eq lookup
    insert erase
lb_id_parsed = refl

web_expanded : expand_rule start.data_ balancer ≡ ok web
unfolding expand_rule str_eq
web_expanded = refl

create-writes_example :
    (create rule_kind one_cloud start).1.events
    ≡ start.events
      ++ lock lb_id
        ∷ written (bytes "g") (bytes "lb") (
            updated rule_kind one_cloud balancer lb_properties
              (without_first (bytes "web") old_rules ++ web ∷ []))
        ∷ unlock lb_id
        ∷ []
create-writes_example =
    create-writes rule_kind one_cloud start (bytes "g") (bytes "lb") balancer (some balancer)
      lb_properties old_rules lb_id_parsed refl refl refl web web_expanded

delete-writes_example :
    (delete rule_kind one_cloud start).1.events
    ≡ start.events
      ++ delete_events rule_kind one_cloud start
          (bytes "g")
          (bytes "lb")
          balancer
          (some balancer)
          lb_properties
          old_rules
          lb_id_parsed
          refl
          refl
          refl
delete-writes_example =
    delete-writes rule_kind one_cloud start (bytes "g") (bytes "lb") balancer (some balancer)
      lb_properties old_rules lb_id_parsed refl refl refl

create-IsBracketed_example :
    IsBracketed lb_id start.events (create rule_kind one_cloud start).1.events
create-IsBracketed_example = create-IsBracketed rule_kind one_cloud start

web_once : count_named (bytes "web") old_rules ≤ 1
unfolding count_named str_eq
web_once = omega arith

reapplied-replaces_example :
    (count_named (bytes "web") (reapplied rule_kind balancer (bytes "web") old_rules web) ≡ 1)
    × (first_named (bytes "web") (reapplied rule_kind balancer (bytes "web") old_rules web)
        ≡ some web)
    × ((other : Str)
        → other ≢ bytes "web"
        → first_named other (reapplied rule_kind balancer (bytes "web") old_rules web)
          ≡ first_named other old_rules)
reapplied-replaces_example =
    reapplied-replaces rule_kind balancer lb_properties old_rules refl refl (bytes "web") web refl
      web_once

abbrev imported_balancer : Str
imported_balancer =
    bytes "/subscriptions/1/resourceGroups/g/providers/Microsoft.Network/loadBalancers/lb"

import-balancer_id_example :
    import_load_balancer_id
      (λ s. none)
      (bytes
        "/subscriptions/1/resourceGroups/g/providers/Microsoft.Network/loadBalancers/lb/probes/http")
    ≡ ok imported_balancer
unfolding is_word is_line str_eq parse_azure_resource_id parse_request_uri bare_path segments split
    trim_space trim_prefix trim_suffix has_prefix to_lower before unescape lookup insert erase
import-balancer_id_example =
    import-balancer_id b'/' b'l'
      (bytes "subscriptions/1/resourceGroups/g/providers/Microsoft.Network") (bytes "b")
      (bytes "probes") (bytes "http") refl refl refl refl refl refl (λ s. none)
      (record {
        subscription = bytes "1";
        group = bytes "g";
        provider = bytes "Microsoft.Network";
        path = (bytes "loadBalancers", bytes "lb") ∷ [];
      })
      refl refl
