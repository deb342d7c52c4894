-- ===== src/Subnet/Endpoints.antt =====
-- The service endpoints and the IP configurations of a subnet, as texts.
use terraform_provider_azure.Base.{
  ◌≡◌, refl, Option, none, some, List, [], ◌∷◌, ap, Str, Outcome, ok, ◌>>=◌, deref,
}
use terraform_provider_azure.Subnet.{ServiceEndpoint, IpConfiguration, SubnetError}

-- `expandAzureRmServiceEndpoints`
unfoldable pub expand_service_endpoints : {R : Type 0} → List Str → List (ServiceEndpoint R)
expand_service_endpoints [] = []
expand_service_endpoints (s ∷ ss) =
    record { service = some s; rest = none } ∷ expand_service_endpoints ss

-- The loops over pointers, each of which is dereferenced.
unfoldable pub deref_all : {A : Type 0} → (A → Option Str) → List A → Outcome SubnetError (List Str)
deref_all f [] = ok []
deref_all f (x ∷ xs) = do s ← deref (f x); ss ← deref_all f xs; ok (s ∷ ss)

-- `flattenSubnetServiceEndpoints`
unfoldable pub flatten_service_endpoints :
    {R : Type 0} → Option (List (ServiceEndpoint R)) → Outcome SubnetError (List Str)
unfolding deref_all
flatten_service_endpoints none = ok []
flatten_service_endpoints (some es) = deref_all (λ e. e.service) es

-- `flattenSubnetIPConfigurations`
unfoldable pub flatten_ip_configurations :
    {R : Type 0} → Option (List (IpConfiguration R)) → Outcome SubnetError (List Str)
unfolding deref_all
flatten_ip_configurations none = ok []
flatten_ip_configurations (some cs) = deref_all (λ c. c.id) cs

deref_all-expand_service_endpoints :
    (R : Type 0) (ss : List Str)
    → deref_all {A = ServiceEndpoint R} (λ e. e.service) (expand_service_endpoints ss) ≡ ok ss
unfolding deref_all expand_service_endpoints
deref_all-expand_service_endpoints R [] = refl
deref_all-expand_service_endpoints R (s ∷ ss) =
    ap (λ r. r >>= λ rest. ok (s ∷ rest)) (deref_all-expand_service_endpoints R ss)

-- Service endpoints that are sent and come back are those of the configuration.
pub flatten-expand_service_endpoints :
    (R : Type 0) (ss : List Str)
    → flatten_service_endpoints {R = R} (some (expand_service_endpoints ss)) ≡ ok ss
unfolding flatten_service_endpoints
flatten-expand_service_endpoints R ss = deref_all-expand_service_endpoints R ss
