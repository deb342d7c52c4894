-- ===== src/Handler/MapCloud.antt =====
-- A cloud that is a map from groups and names to resources: a concrete `Api` and its `Store`.
use terraform_provider_azure.Base.{refl, true, Option, none, some, Str, str_eq, if◌then◌else◌, ◌&&◌}
use terraform_provider_azure.Handler.{Api, Store, answer_of}

abbrev pub ResourceMap : Type 0 → Type 0
ResourceMap X = Str → Str → Option X

abbrev pub set_resource : {X : Type 0} → Str → Str → X → ResourceMap X → ResourceMap X
set_resource g n x c h m = if str_eq g h && str_eq n m then some x else c h m

abbrev pub map_cloud : (X : Type 0) → Api X
map_cloud X = record {
  Cloud = ResourceMap X;
  get = λ g n c. (answer_of (c g n), c);
  create_or_update = λ g n x c. (true, set_resource g n x c);
  wait_for_completion = λ g n c. (true, c);
  parse_authority = λ s. none;
}

abbrev pub map_store : (X : Type 0) → Store (map_cloud X)
map_store X = record {
  held = λ c. c;
  get_held = λ g n c. refl;
  put = set_resource;
  create_put = λ g n x c. refl;
  wait_held = λ g n c. refl;
  held_put = λ g n h m x c. refl;
}
