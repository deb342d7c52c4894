-- ===== src/StorageBlob/Id.antt =====
-- The ID of a blob, which is its URL: `parseStorageBlobID`.
use terraform_provider_azure.Base.{
  ℕ, ◌≡◌, refl, Option, some, List, [], ◌∷◌, ◌++◌, arith, ap, ◌∙◌, sym, if◌then◌else◌, ltb, ◌≤◌,
  Str, bytes, All, All-append, length, drop, Outcome, ok, err, panic, ◌>>=◌, wrap, append_assoc,
}
use terraform_provider_azure.Text.{
  split, push_head, split-append, Avoids, strip_prefix?, has_prefix, trim_prefix,
}
use terraform_provider_azure.Url.{Url, UrlError, parse_url}
use terraform_provider_azure.Url.Absolute.{
  IsHostByte, IsPlainByte, host_text, host_text_sound, parse_url-absolute,
}
use terraform_provider_azure.ResourceId.{IdError}

pub record StorageBlobId : Type 0 where
  pub storage_account_name : Str
  pub container_name : Str
  pub blob_name : Str

pub data BlobIdError : Type 0 where
  bad_url : UrlError → BlobIdError
  too_few_segments list_failed no_group client_failed no_account blob_failed : BlobIdError
  bad_group : IdError → BlobIdError

-- `strings.Replace(s, old, "", 1)`, for an `old` that is not empty.
unfoldable pub remove_first : Str → Str → Str
remove_first [] old = []
remove_first (c ∷ s) old =
    let rest = remove_first s old in
    if has_prefix (c ∷ s) old then drop (length old) (c ∷ s) else c ∷ rest

module _ (parse_authority : Str → Option Str) where
  -- What is read from a URL; the first segment is always there.
  unfoldable pub id_of_url : Str → Url → Outcome BlobIdError StorageBlobId
  unfolding remove_first
  id_of_url suffix uri =
      let segments = split b'/' (trim_prefix uri.path (bytes "/")) in
      if ltb (length segments) 2 then err too_few_segments else elim segments [
        | [] ↦ panic
        | container ∷ more ↦ ok (record {
          storage_account_name = remove_first uri.host (bytes ".blob." ++ suffix);
          container_name = container;
          blob_name = trim_prefix uri.path (bytes "/" ++ container ++ bytes "/");
        })
      ]

  -- `parseStorageBlobID`; `suffix` is the environment's `StorageEndpointSuffix`.
  unfoldable pub parse_storage_blob_id : Str → Str → Outcome BlobIdError StorageBlobId
  unfolding id_of_url
  parse_storage_blob_id input suffix = do
    uri ← wrap bad_url (parse_url parse_authority input)
    id_of_url suffix uri

-- The URL of a blob.
abbrev pub blob_url : StorageBlobId → Str → Str
blob_url id suffix =
    bytes "https://"
    ++ ((id.storage_account_name ++ (bytes ".blob." ++ suffix))
        ++ b'/' ∷ (id.container_name ++ b'/' ∷ id.blob_name))

strip_prefix-append : (p s : Str) → strip_prefix? p (p ++ s) ≡ some s
unfolding strip_prefix?
strip_prefix-append [] s = refl
strip_prefix-append (x ∷ p) s = ground (arith, strip_prefix-append p s)

strip_prefix_self : (s : Str) → strip_prefix? s s ≡ some []
unfolding strip_prefix?
strip_prefix_self [] = refl
strip_prefix_self (x ∷ s) = ground (arith, strip_prefix_self s)

trim_prefix-append : (p s : Str) → trim_prefix (p ++ s) p ≡ s
unfolding trim_prefix
trim_prefix-append p s = ground (arith, strip_prefix-append p s)

length-push_head_pos : (c : ℕ) (ws : List Str) → 1 ≤ length (push_head c ws)
unfolding push_head
length-push_head_pos c [] = omega arith
length-push_head_pos c (w ∷ ws) = omega arith

-- There is always a segment.
length-split_pos : (sep : ℕ) (s : Str) → 1 ≤ length (split sep s)
unfolding split
length-split_pos sep [] = omega arith
length-split_pos sep (c ∷ s) = ground (arith, length-push_head_pos c (split sep s))

drop-length : (s : Str) → drop (length s) s ≡ []
drop-length [] = refl
drop-length (c ∷ s) = drop-length s

remove_first-suffix : (w s : Str) → Avoids b'.' w → remove_first (w ++ b'.' ∷ s) (b'.' ∷ s) ≡ w
unfolding remove_first has_prefix strip_prefix?
remove_first-suffix [] s h = rw (strip_prefix_self s) (drop-length s)
remove_first-suffix (c ∷ w) s h = ground (arith, remove_first-suffix w s h.1)

-- A blob whose URL is read as it is written. The blob's name may hold slashes.
pub record IsPlainId (id : StorageBlobId) (suffix : Str) : Type 0 where
  pub account : All IsHostByte id.storage_account_name
  pub undotted : Avoids b'.' id.storage_account_name
  pub end_point : All IsHostByte suffix
  pub container : All IsPlainByte id.container_name
  pub unslashed : Avoids b'/' id.container_name
  pub blob : All IsPlainByte id.blob_name

module _ (auth : Str → Option Str) (id : StorageBlobId) (suffix : Str)
    (h : IsPlainId id suffix) where
  abbrev host : Str
  host = id.storage_account_name ++ (bytes ".blob." ++ suffix)

  abbrev path : Str
  path = id.container_name ++ b'/' ∷ id.blob_name

  host-plain : All IsHostByte host
  unfolding host_text
  host-plain = All-append IsHostByte id.storage_account_name (bytes ".blob." ++ suffix) h.account (
      All-append IsHostByte (bytes ".blob.") suffix (host_text_sound (bytes ".blob.") refl)
        h.end_point)

  path-plain : All IsPlainByte path
  path-plain =
      All-append IsPlainByte id.container_name (b'/' ∷ id.blob_name) h.container
        (((omega arith, omega arith), omega arith), h.blob)

  segments-path : split b'/' path ≡ id.container_name ∷ split b'/' id.blob_name
  segments-path = split-append b'/' id.container_name id.blob_name h.unslashed

  trim-container :
      trim_prefix (b'/' ∷ path) (bytes "/" ++ id.container_name ++ bytes "/") ≡ id.blob_name
  trim-container =
      ap (λ r. trim_prefix (b'/' ∷ r) (bytes "/" ++ id.container_name ++ bytes "/"))
        (sym (append_assoc id.container_name (bytes "/") id.blob_name))
      ∙ trim_prefix-append (bytes "/" ++ id.container_name ++ bytes "/") id.blob_name

  id_of_url-written :
      id_of_url auth suffix (record { scheme = bytes "https"; host = host; path = b'/' ∷ path })
      ≡ ok id
  unfolding id_of_url
  id_of_url-written = ground (
    arith,
    trim_prefix-append (bytes "/") path,
    segments-path,
    length-split_pos b'/' id.blob_name,
    trim-container,
    remove_first-suffix id.storage_account_name (bytes "blob." ++ suffix) h.undotted,
  )

  -- The URL of a blob is read back as the blob's account, container and name, where the account's name has
  -- no dot, the container's no slash, and none of them a byte that a URL reads otherwise; the name may hold
  -- slashes.
  pub parse_storage_blob_id-blob_url :
      auth host ≡ some host → parse_storage_blob_id auth (blob_url id suffix) suffix ≡ ok id
  unfolding parse_storage_blob_id
  parse_storage_blob_id-blob_url known =
      rw (parse_url-absolute auth host path host-plain path-plain known) id_of_url-written
