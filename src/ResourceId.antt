-- ===== src/ResourceId.antt =====
-- Azure Resource Manager IDs: azurerm/helpers/azure/resourceid.go, validate.go, the shim
-- azurerm/resourceid.go and the functions that take one part out of an ID (loadbalancer.go,
-- express_route_circuit.go). The children prove the round trip and what a parse guarantees.
mod Segments
mod Sort
pub mod Written
pub mod Parse
pub mod RoundTrip
mod Tests
unfoldable pub use Segments.*
use terraform_provider_azure.Base.{
  ℕ, ◌%◌, ◌≡◌, Bool, true, false, ◌&&◌, ◌||◌, not, Option, none, some, List, [], ◌∷◌, ◌++◌, map,
  ◌==◌, if◌then◌else◌, Str, bytes, str_eq, Dict, lookup, insert, erase, get_or_empty, length,
  Outcome, ok, err, panic, ◌>>=◌, ◌>>◌, fail_if, wrap,
}
use terraform_provider_azure.Url.{Url, UrlError, parse_request_uri}
use terraform_provider_azure.ResourceId.Sort.{sort_strings}

-- The errors, with what their messages show.
pub data IdError : Type 0 where
  bad_url : UrlError → IdError
  odd_segments : Str → IdError
  empty_pair : Str → Str → IdError
  no_subscription no_group : Str → IdError
  missing_fields no_path empty_path_item : IdError

pub record ResourceId : Type 0 where
  pub subscription : Str
  pub group : Str
  pub provider : Str
  pub path : Dict Str

-- The loop over the pairs of segments; its state is the subscription and the map so far. A single
-- last segment would be an index out of range, which the test before the loop rules out.
unfoldable pub collect : List Str → Str → Dict Str → Outcome IdError (Str × Dict Str)
collect [] sub m = ok (sub, m)
collect (key ∷ []) sub m = panic
collect (key ∷ value ∷ rest) sub m =
    let first = str_eq key (bytes "subscriptions") && str_eq sub [] in
    let others =
      collect rest (if first then value else sub) (if first then m else insert key value m) in
    if str_eq key [] || str_eq value [] then err (empty_pair key value) else others

-- The resource group, and the map without its entry.
unfoldable pub take_group : Str → Dict Str → Outcome IdError (Str × Dict Str)
take_group path m = elim (lookup (bytes "resourceGroups") m) [
  | some g ↦ ok (g, erase (bytes "resourceGroups") m)
  | none ↦ elim (lookup (bytes "resourcegroups") m) [
    | some g ↦ ok (g, erase (bytes "resourcegroups") m)
    | none ↦ err (no_group path)
  ]
]

-- The provider, if there is one, and the map without its entry.
unfoldable pub take_provider : Dict Str → Str × Dict Str
take_provider m = elim (lookup (bytes "providers") m) [
  | some p ↦ (p, erase (bytes "providers") m)
  | none ↦ ([], m)
]

-- What `ParseAzureResourceID` does with the path behind its outer slashes.
unfoldable pub parse_segments : Str → Outcome IdError ResourceId
unfolding collect take_group take_provider
parse_segments path = do
  fail_if (not (length (segments path) % 2 == 0)) (odd_segments path)
  found ← collect (segments path) [] []
  fail_if (str_eq found.0 []) (no_subscription path)
  grouped ← take_group path found.1
  ok (record {
    subscription = found.0;
    group = grouped.0;
    provider = (take_provider grouped.1).0;
    path = (take_provider grouped.1).1;
  })

-- The loop over the sorted keys.
pub compose_path : Dict Str → List Str → Str → Outcome IdError Str
compose_path m [] id = ok id
compose_path m (k ∷ ks) id =
    let v = get_or_empty (lookup k m) in
    let others = compose_path m ks (id ++ bytes "/" ++ k ++ bytes "/" ++ v) in
    if str_eq k [] || str_eq v [] then err empty_path_item else others

abbrev pub keys {ℓ} : {V : Type ℓ} → Dict V → List Str
keys = map (λ e. e.0)

-- `composeAzureResourceID`
unfoldable pub compose_azure_resource_id : ResourceId → Outcome IdError Str
unfolding compose_path
compose_azure_resource_id r = do
  fail_if (str_eq r.subscription [] || str_eq r.group []) missing_fields
  let id = bytes "/subscriptions/" ++ r.subscription ++ bytes "/resourceGroups/" ++ r.group
  if str_eq r.provider [] then ok id else do
    fail_if (length r.path == 0) no_path
    compose_path r.path (sort_strings (keys r.path)) (id ++ bytes "/providers/" ++ r.provider)

module _ (parse_authority : Str → Option Str) where
  -- `ParseAzureResourceID`
  unfoldable pub parse_azure_resource_id : Str → Outcome IdError ResourceId
  unfolding parse_segments
  parse_azure_resource_id id = do
    url ← wrap bad_url (parse_request_uri parse_authority id)
    parse_segments (bare_path url.path)

  -- `parseAzureResourceID` of the shim copies the fields.
  pub parse_shim : Str → Outcome IdError ResourceId
  parse_shim id = do
    parsed ← parse_azure_resource_id id
    ok (record {
      subscription = parsed.subscription;
      group = parsed.group;
      provider = parsed.provider;
      path = parsed.path;
    })

  -- `id.Path["…"]` of a parsed ID, as in `ParseNetworkSecurityGroupName`.
  unfoldable pub path_item : Str → Str → Outcome IdError Str
  path_item key id = do
    parsed ← parse_azure_resource_id id
    ok (get_or_empty (lookup key parsed.path))

  unfoldable pub parse_network_security_group_name : Str → Outcome IdError Str
  unfolding path_item
  parse_network_security_group_name = path_item (bytes "networkSecurityGroups")

  unfoldable pub parse_route_table_name : Str → Outcome IdError Str
  unfolding path_item
  parse_route_table_name = path_item (bytes "routeTables")

  -- `resourceGroupAndLBNameFromId`
  unfoldable pub resource_group_and_lb_name : Str → Outcome IdError (Str × Str)
  resource_group_and_lb_name id = do
    parsed ← parse_azure_resource_id id
    ok (parsed.group, get_or_empty (lookup (bytes "loadBalancers") parsed.path))

  -- `extractResourceGroupAndErcName`
  pub extract_resource_group_and_erc_name : Str → Outcome IdError (Str × Str)
  extract_resource_group_and_erc_name id = do
    parsed ← parse_azure_resource_id id
    ok (parsed.group, get_or_empty (lookup (bytes "expressRouteCircuits") parsed.path))
