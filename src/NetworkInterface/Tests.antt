-- ===== src/NetworkInterface/Tests.antt =====
-- An association with a NAT rule, on a cloud that is a map.
use terraform_provider_azure.Base.{
  ◌≡◌, refl, true, Option, none, some, List, [], ◌∷◌, Str, bytes, str_eq, lookup, insert, erase,
  get_or_empty, ok,
}
use terraform_provider_azure.Text.{
  split, joined, trim_space, trim_prefix, trim_suffix, has_prefix, to_lower, Avoids,
}
use terraform_provider_azure.Url.{parse_request_uri, before, unescape}
use terraform_provider_azure.ResourceId.{
  ResourceId, is_segment, is_segment_sound, bare_path, segments, parse_azure_resource_id,
}
use terraform_provider_azure.Handler.{Api, Store, Env}
use terraform_provider_azure.Helpers.NetworkInterface.{
  find_ip_configuration, find_named, update_ip_configuration, update_from,
}
use terraform_provider_azure.Handler.MapCloud.{map_cloud, map_store, set_resource}
use terraform_provider_azure.NetworkInterface.Model.{
  Target, IpProperties, Configuration, Nic, nat_rule_kind, associate, unless_exists,
}
use terraform_provider_azure.NetworkInterface.Refinement.{associations}
use terraform_provider_azure.NetworkInterface.Whole.{
  nat_rules, meaning, meant, add_to, associate-refines,
}
use terraform_provider_azure.NetworkInterface.Names.{IsPart, avoids, avoids_sound, nic_segments}
use terraform_provider_azure.NetworkInterface.Association.{Data, create, delete}
use terraform_provider_azure.NetworkInterface.Lifecycle.{
  own_reference, created, deleted, create-delete,
}

abbrev nic_cloud : Api (Nic (Unit {0}))
nic_cloud = map_cloud (Nic (Unit {0}))

abbrev nic_store : Store nic_cloud
nic_store = map_store (Nic (Unit {0}))

abbrev rule_target : Str → Target (Unit {0})
rule_target i = record { id = some i; rest = none }

abbrev rules : List (Target (Unit {0})) → Option (IpProperties (Unit {0}))
rules ts = some (record {
  inbound_nat_rules = some ts;
  backend_address_pools = none;
  application_gateway_pools = none;
})

abbrev ip : Str → List (Target (Unit {0})) → Configuration (Unit {0})
ip n ts = record { name = some n; properties = rules ts }

abbrev nic_with : List (Target (Unit {0})) → Nic (Unit {0})
nic_with ts = record {
  id = none;
  properties = some (record {
    ip_configurations =
        some (ip (bytes "first") (rule_target (bytes "r0") ∷ []) ∷ ip (bytes "second") ts ∷ []);
  });
}

abbrev old_nic : Nic (Unit {0})
old_nic = nic_with (rule_target (bytes "r1") ∷ [])

abbrev new_nic : Nic (Unit {0})
new_nic = nic_with (rule_target (bytes "r1") ∷ rule_target (bytes "r2") ∷ [])

associated_example : associate nat_rule_kind (bytes "second") (bytes "r2") old_nic ≡ ok new_nic
unfolding associate unless_exists find_ip_configuration update_ip_configuration find_named
    update_from str_eq
associated_example = refl

associate-refines_example :
    meant (associate nat_rule_kind (bytes "second") (bytes "r2") old_nic)
    ≡ add_to nat_rules (bytes "second") (bytes "r2") (meaning old_nic)
associate-refines_example = associate-refines nat_rules (bytes "second") (bytes "r2") old_nic

abbrev nic_id : Str
nic_id =
    joined b'/' (nic_segments (bytes "1") (bytes "g") (bytes "Microsoft.Network") (bytes "nic"))

part : (w : Str) → is_segment w ≡ true → avoids b'|' w ≡ true → IsPart w
part w h h' = (is_segment_sound w h, avoids_sound b'|' w h')

sub-IsPart : IsPart (bytes "1")
unfolding is_segment avoids
sub-IsPart = part (bytes "1") refl refl

group-IsPart : IsPart (bytes "g")
unfolding is_segment avoids
group-IsPart = part (bytes "g") refl refl

provider-IsPart : IsPart (bytes "Microsoft.Network")
unfolding is_segment avoids
provider-IsPart = part (bytes "Microsoft.Network") refl refl

nic-IsPart : IsPart (bytes "nic")
unfolding is_segment avoids
nic-IsPart = part (bytes "nic") refl refl

name-IsPart : IsPart (bytes "second")
unfolding is_segment avoids
name-IsPart = part (bytes "second") refl refl

target-Avoids : Avoids b'|' (bytes "r2")
unfolding avoids
target-Avoids = avoids_sound b'|' (bytes "r2") refl

abbrev start : Env nic_cloud Data
start = record {
  cloud = set_resource (bytes "g") (bytes "nic") old_nic (λ g n. none);
  data_ = record {
    id = [];
    network_interface_id = nic_id;
    ip_configuration_name = bytes "second";
    target_id = bytes "r2";
  };
  events = [];
}

abbrev nic_parsed : ResourceId
nic_parsed = record {
  subscription = bytes "1";
  group = bytes "g";
  provider = bytes "Microsoft.Network";
  path = (bytes "networkInterfaces", bytes "nic") ∷ [];
}

nic_id_parsed : parse_azure_resource_id nic_cloud.parse_authority nic_id ≡ ok nic_parsed
unfolding parse_azure_resource_id parse_request_uri bare_path segments split joined trim_space
    trim_prefix trim_suffix has_prefix to_lower before unescape str_eq lookup insert erase
nic_id_parsed = refl

nic_held : nic_store.held start.cloud (bytes "g") (bytes "nic") ≡ some old_nic
unfolding str_eq
nic_held = refl

nic_named : get_or_empty (lookup (bytes "networkInterfaces") nic_parsed.path) ≡ bytes "nic"
unfolding lookup str_eq
nic_named = refl

create-delete_example :
    (back : Nic (Unit {0})) × (create nat_rule_kind nic_cloud start ≡ (
      ok tt,
      created nat_rule_kind nic_cloud nic_store
          (own_reference nat_rule_kind nic_cloud nic_store (bytes "g") (bytes "nic") start.data_)
          new_nic
          start,
    ))
    × (delete nat_rule_kind nic_cloud (
          created nat_rule_kind nic_cloud nic_store
            (own_reference nat_rule_kind nic_cloud nic_store (bytes "g") (bytes "nic") start.data_)
            new_nic
            start)
        ≡ (
          ok tt,
          deleted nat_rule_kind nic_cloud nic_store
              (own_reference nat_rule_kind nic_cloud nic_store
                (bytes "g")
                (bytes "nic")
                start.data_)
              back
              (created nat_rule_kind nic_cloud nic_store
                (own_reference nat_rule_kind nic_cloud nic_store
                  (bytes "g")
                  (bytes "nic")
                  start.data_)
                new_nic
                start),
        ))
    × (associations nat_rule_kind back ≡ associations nat_rule_kind old_nic)
create-delete_example =
    create-delete nat_rule_kind nic_cloud nic_store start (bytes "1") (bytes "g")
      (bytes "Microsoft.Network") (bytes "nic") nic_parsed old_nic new_nic sub-IsPart group-IsPart
      provider-IsPart nic-IsPart name-IsPart target-Avoids refl nic_id_parsed refl nic_named
      nic_held associated_example
