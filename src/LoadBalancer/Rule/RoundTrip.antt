-- ===== src/LoadBalancer/Rule/RoundTrip.antt =====
-- A load balancing rule that the API returns as it was sent is read as the configuration that it was sent from.
use terraform_provider_azure.Base.{
  ℕ, zero, suc, ◌∷◌, ◌^◌, ◌<◌, ◌==◌, ◌≡◌, refl, Option, none, some, [], arith, if◌then◌else◌, Str,
  bytes, str_eq, lookup, ok, ap, ◌∙◌,
}
use terraform_provider_azure.ResourceId.{ResourceId, parse_azure_resource_id}
use terraform_provider_azure.LoadBalancer.Model.{
  LoadBalancer, Item, SubResource, int32, of_int32, RuleProperties,
}
use terraform_provider_azure.LoadBalancer.Client.{Data}
use terraform_provider_azure.LoadBalancer.Fields.{front_end, text_or}
use terraform_provider_azure.LoadBalancer.Rule.{
  RuleFields, expand_rule, flatten_rule, reference, plain_fields, last_fields,
}

of_int32-int32 : (n : ℕ) → n < 2 ^ 31 → of_int32 (int32 n) ≡ n
of_int32-int32 n h = ground arith

text_or-reference : (v old : Str) → (v ≡ [] → old ≡ []) → text_or (reference v) old ≡ v
unfolding reference str_eq
text_or-reference [] old h = h refl
text_or-reference (b ∷ v) old h = ground arith

-- The properties that a configuration expands to, for a front end that is found.
sent : RuleFields → Option SubResource → RuleProperties
unfolding reference
sent f front = record {
  protocol = f.protocol;
  frontend_port = some (int32 f.frontend_port);
  backend_port = some (int32 f.backend_port);
  enable_floating_ip = some f.enable_floating_ip;
  idle_timeout_in_minutes =
      if f.idle_timeout_in_minutes == 0 then none else some (int32 f.idle_timeout_in_minutes);
  load_distribution = f.load_distribution;
  frontend_ip_configuration = front;
  backend_address_pool = reference f.backend_address_pool_id;
  probe = reference f.probe_id;
}

expand_rule-sent :
    (d : Data RuleFields) (lb : LoadBalancer) (front : Option SubResource)
    → front_end d.fields.frontend_ip_configuration_name lb ≡ ok front
    → expand_rule d lb
      ≡ ok (record { name = some d.name; id = none; properties = some (sent d.fields front) })
unfolding expand_rule sent reference
expand_rule-sent d lb front h = ground arith

-- The numbers of a rule fit an `int32`.
abbrev pub IsSmall : RuleFields → Type 0
IsSmall f =
    (f.frontend_port < 2 ^ 31) × (f.backend_port < 2 ^ 31) × (f.idle_timeout_in_minutes < 2 ^ 31)

idle_kept :
    (n old : ℕ)
    → n < 2 ^ 31
    → (n ≡ 0 → old ≡ 0)
    → elim (if n == 0 then none else some (int32 n)) as (λ o. ℕ) [
      | none ↦ old
      | some m ↦ of_int32 m
    ]
      ≡ n
idle_kept zero old h unset = unset refl
idle_kept (suc n) old h unset = ground (arith, of_int32-int32 (suc n))

distribution_kept : (s old : Str) → (s ≡ [] → old ≡ []) → (if str_eq s [] then old else s) ≡ s
unfolding str_eq
distribution_kept [] old h = h refl
distribution_kept (b ∷ s) old h = ground arith

-- What a rule leaves out, the state does not have either, as a new one and one that was created from the
-- configuration.
abbrev pub LeavesOut : RuleFields → RuleFields → Type 0
LeavesOut f g =
    (f.idle_timeout_in_minutes ≡ 0 → g.idle_timeout_in_minutes ≡ 0)
    × (f.backend_address_pool_id ≡ [] → g.backend_address_pool_id ≡ [])
    × (f.probe_id ≡ [] → g.probe_id ≡ [])
    × (f.load_distribution ≡ [] → g.load_distribution ≡ [])

-- The fields with the ID of the front end.
abbrev pub with_front : Str → RuleFields → RuleFields
with_front i f = record f { frontend_ip_configuration_id = i }

-- What the flattening sets, where the front end's ID parses.
flatten_rule_front :
    (auth : Str → Option Str) (item : Item RuleProperties) (d : Data RuleFields)
    (p : RuleProperties) (i : Str) (fip : ResourceId) (name : Str)
    → item.properties ≡ some p
    → p.frontend_ip_configuration ≡ some (record { id = some i })
    → parse_azure_resource_id auth i ≡ ok fip
    → lookup (bytes "frontendIPConfigurations") fip.path ≡ some name
    → flatten_rule auth item d ≡ (
      ok tt,
      record d {
        fields = last_fields p (record (plain_fields p d.fields) {
          frontend_ip_configuration_name = name;
          frontend_ip_configuration_id = i;
        });
      },
    )
unfolding flatten_rule
flatten_rule_front auth item d p i fip name has_properties has_front parsed named = ground arith

sent_front :
    (f : RuleFields) (front : Option SubResource) → (sent f front).frontend_ip_configuration ≡ front
unfolding sent
sent_front f front = refl

sent_fields :
    (f g : RuleFields) (i : Str) (front : Option SubResource)
    → IsSmall f
    → LeavesOut f g
    → last_fields (sent f front) (record (plain_fields (sent f front) g) {
      frontend_ip_configuration_name = f.frontend_ip_configuration_name;
      frontend_ip_configuration_id = i;
    })
      ≡ with_front i f
unfolding last_fields plain_fields sent
sent_fields f g i front small unset =
    rw
      (
        of_int32-int32 f.frontend_port small.0,
        of_int32-int32 f.backend_port small.1,
        idle_kept f.idle_timeout_in_minutes g.idle_timeout_in_minutes small.2 unset.0,
        text_or-reference f.backend_address_pool_id g.backend_address_pool_id unset.1,
        text_or-reference f.probe_id g.probe_id unset.2,
        distribution_kept f.load_distribution g.load_distribution unset.3,
      )
      refl

-- Where the API returns a rule with the properties that were expanded from a configuration, and the ID of
-- its front end parses to the name in the configuration, the flattening gives the configuration in whatever
-- state it is done, and the ID of the front end. What the configuration leaves out of the timeout, the pool,
-- the probe and the distribution, the state must not have. Ports and timeout fit 31 bits.
pub flatten_rule-expand_rule :
    (auth : Str → Option Str) (d old : Data RuleFields) (lb : LoadBalancer) (i : Str)
    (fip : ResourceId)
    → IsSmall d.fields
    → LeavesOut d.fields old.fields
    → front_end d.fields.frontend_ip_configuration_name lb ≡ ok (some (record { id = some i }))
    → parse_azure_resource_id auth i ≡ ok fip
    → lookup (bytes "frontendIPConfigurations") fip.path
      ≡ some d.fields.frontend_ip_configuration_name
    → (item : Item RuleProperties) × (expand_rule d lb ≡ ok item)
      × (flatten_rule auth item old ≡ (ok tt, record old { fields = with_front i d.fields }))
flatten_rule-expand_rule auth d old lb i fip small unset front parsed named = (
  _,
  expand_rule-sent d lb _ front,
  flatten_rule_front auth _ old (sent d.fields _) i fip _ refl (sent_front d.fields _) parsed named
      ∙ ap (λ g. (ok tt, record old { fields = g }))
          (sent_fields d.fields old.fields i _ small unset),
)
