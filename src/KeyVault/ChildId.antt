-- ===== src/KeyVault/ChildId.antt =====
-- The ID of a key, a secret or a certificate, which is a URL: azurerm/key_vault_child.go.
use terraform_provider_azure.Base.{
  ◌≡◌, Bool, Option, some, List, [], ◌∷◌, ◌++◌, ap, ◌==◌, ◌&&◌, ◌||◌, all, leb, not, Str, bytes,
  str_eq, All, Outcome, ok, err, ◌>>=◌, wrap,
}
use terraform_provider_azure.Text.{joined}
use terraform_provider_azure.Url.{Url, UrlError, parse_request_uri}
use terraform_provider_azure.Url.Absolute.{IsHostByte, parse_request_uri-absolute}
use terraform_provider_azure.ResourceId.{
  bare_path, segments, IsSegment, joined-IsPathByte, segments-joined,
}

pub record KeyVaultChildId : Type 0 where
  pub key_vault_base_url : Str
  pub name : Str
  pub version : Str

pub data ChildIdError : Type 0 where
  bad_url : UrlError → ChildIdError
  not_three_segments : ChildIdError

-- What is read from a URL and the segments of its path.
abbrev child_of_segments : Url → List Str → Outcome ChildIdError KeyVaultChildId
child_of_segments u (kind ∷ name ∷ version ∷ []) = ok (record {
  key_vault_base_url = u.scheme ++ bytes "://" ++ u.host ++ bytes "/";
  name = name;
  version = version;
})
child_of_segments u _ = err not_three_segments

-- `parseKeyVaultChildID`
unfoldable pub parse_key_vault_child_id :
    (Str → Option Str) → Str → Outcome ChildIdError KeyVaultChildId
parse_key_vault_child_id parse_authority id = do
  u ← wrap bad_url (parse_request_uri parse_authority id)
  child_of_segments u (segments (bare_path u.path))

-- `validateKeyVaultChildName`: whether it finds no error.
unfoldable pub is_key_vault_child_name : Str → Bool
is_key_vault_child_name name =
    not (str_eq name [])
    && all
        (λ c.
          leb b'0' c && leb c b'9'
          || leb b'a' c && leb c b'z'
          || leb b'A' c && leb c b'Z'
          || c == b'-')
        name

abbrev pub base_url : Str → Str
base_url host = bytes "https://" ++ host ++ bytes "/"

-- The URL of a version of a key, a secret or a certificate of a vault.
abbrev pub child_url : Str → Str → Str → Str → Str
child_url host kind name version =
    bytes "https://" ++ host ++ joined b'/' (kind ∷ name ∷ version ∷ [])

-- The URL of a version is read back as the vault's URL, the name and the version, where these and the kind
-- are segments that a URL leaves as they are, and the host is one that `net/url` takes as it is.
pub parse_key_vault_child_id-child_url :
    (auth : Str → Option Str) (host kind name version : Str)
    → All IsHostByte host
    → auth host ≡ some host
    → IsSegment kind
    → IsSegment name
    → IsSegment version
    → parse_key_vault_child_id auth (child_url host kind name version)
      ≡ ok (record { key_vault_base_url = base_url host; name = name; version = version })
unfolding parse_key_vault_child_id joined
parse_key_vault_child_id-child_url auth host kind name version h known k n v =
    rw
      (parse_request_uri-absolute auth host (kind ++ joined b'/' (name ∷ version ∷ [])) h
        (joined-IsPathByte (kind ∷ name ∷ version ∷ []) (k, (n, (v, tt)))).1 known)
      (ap
        (child_of_segments (record {
          scheme = bytes "https";
          host = host;
          path = joined b'/' (kind ∷ name ∷ version ∷ []);
        }))
        (segments-joined kind (name ∷ version ∷ []) k (n, (v, tt))))
