-- ===== src/ResourceId/Tests.antt =====
-- IDs of the repository's own tests, and the theorems at concrete resources.
use terraform_provider_azure.Base.{
  Dict, ◌≡◌, refl, inr, Option, none, [], ◌∷◌, arith, Str, bytes, str_eq, lookup, insert, erase, ok,
  err,
}
use terraform_provider_azure.Text.{
  split, trim_space, trim_prefix, trim_suffix, has_prefix, to_lower,
}
use terraform_provider_azure.Url.{Url, parse_request_uri, before, unescape}
use terraform_provider_azure.ResourceId.{
  ResourceId, compose_azure_resource_id, parse_azure_resource_id, no_group, collect,
}
use terraform_provider_azure.ResourceId.Segments.{bare_path, segments, is_segment, is_segment_sound}
use terraform_provider_azure.ResourceId.Parse.{IsParsed, parse_azure_resource_id-IsParsed}
use terraform_provider_azure.ResourceId.RoundTrip.{
  IsWellFormed, ReadsBack, compose-parse_azure_resource_id,
}

abbrev no_authority : Str → Option Str
no_authority s = none

abbrev topic : ResourceId
topic = record {
  subscription = bytes "34ca";
  group = bytes "g1";
  provider = bytes "Microsoft.ServiceBus";
  path = (bytes "topics", bytes "t1") ∷ (bytes "subscriptions", bytes "s1") ∷ [];
}

abbrev topic_id : Str
topic_id =
    bytes
      "/subscriptions/34ca/resourceGroups/g1/providers/Microsoft.ServiceBus/topics/t1/subscriptions/s1?v=1"

parse-topic : parse_azure_resource_id no_authority topic_id ≡ ok topic
unfolding parse_azure_resource_id parse_request_uri bare_path segments split trim_space trim_prefix
    trim_suffix has_prefix to_lower before unescape str_eq lookup insert erase
parse-topic = refl

parse_without_group :
    parse_azure_resource_id no_authority (bytes "/subscriptions/6d74bdd2")
    ≡ err (no_group (bytes "subscriptions/6d74bdd2"))
unfolding parse_azure_resource_id parse_request_uri bare_path segments split trim_space trim_prefix
    trim_suffix has_prefix to_lower before unescape str_eq lookup insert erase
parse_without_group = refl

topic-IsWellFormed : IsWellFormed topic
unfolding is_segment
topic-IsWellFormed = record {
  subscription = is_segment_sound (bytes "34ca") refl;
  group = is_segment_sound (bytes "g1") refl;
  rest = inr (is_segment_sound (bytes "Microsoft.ServiceBus") refl, λ e. cc e);
  entries = (
    (
      is_segment_sound (bytes "topics") refl,
      is_segment_sound (bytes "t1") refl,
      (λ e. ground (arith, e)),
      (λ e. ground (arith, e)),
    ),
    (
      (
        is_segment_sound (bytes "subscriptions") refl,
        is_segment_sound (bytes "s1") refl,
        (λ e. ground (arith, e)),
        (λ e. ground (arith, e)),
      ),
      tt,
    ),
  );
}

compose-parse_example :
    (id : Str) × (compose_azure_resource_id topic ≡ ok id) × ReadsBack no_authority id topic
compose-parse_example = compose-parse_azure_resource_id no_authority topic topic-IsWellFormed

IsParsed_example :
    (u : Url) × (m : Dict Str) × (parse_request_uri no_authority topic_id ≡ ok u)
    × (collect (segments (bare_path u.path)) [] [] ≡ ok (bytes "34ca", m))
    × IsParsed m topic
IsParsed_example = parse_azure_resource_id-IsParsed no_authority topic_id topic parse-topic
