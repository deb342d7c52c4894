-- ===== src/StorageBlob/Account.antt =====
-- The resource group of a blob's account (`determineResourceGroupForStorageAccount`), the validators of
-- the resource's fields, and its handlers but the create.
use terraform_provider_azure.Base.{
  ℕ, zero, suc, ◌%◌, Bool, true, false, ◌||◌, Option, none, some, List, [], ◌∷◌, ◌==◌,
  if◌then◌else◌, Str, bytes, str_eq, Outcome, ok, err, panic, ◌>>=◌, wrap, deref,
}
use terraform_provider_azure.Text.{to_lower}
use terraform_provider_azure.ResourceId.{parse_azure_resource_id}
use terraform_provider_azure.StorageBlob.Id.{
  StorageBlobId, BlobIdError, bad_group, list_failed, no_group, client_failed, no_account,
  blob_failed, parse_storage_blob_id, remove_first,
}

-- The groups that the list of the accounts' resource groups holds, by name and ID.
pub record ResourceGroupEntry : Type 0 where
  pub name : Option Str
  pub id : Option Str

-- The group in the ID, which is dereferenced.
unfoldable pub group_of : (Str → Option Str) → Option Str → Outcome BlobIdError (Option Str)
group_of auth own = do
  id ← deref own
  parsed ← wrap bad_group (parse_azure_resource_id auth id)
  ok (some parsed.group)

-- The loop: the first entry of the name.
unfoldable pub group_named :
    (Str → Option Str) → Str → List ResourceGroupEntry → Outcome BlobIdError (Option Str)
unfolding group_of
group_named auth account [] = ok none
group_named auth account (g ∷ gs) =
    let rest = group_named auth account gs in
    elim g.name [ none ↦ rest | some n ↦ if str_eq n account then group_of auth g.id else rest ]

-- `determineResourceGroupForStorageAccount`, on what the list of the accounts returned: an error, no value, or
-- the accounts.
unfoldable pub determine_resource_group :
    (Str → Option Str)
    → Str
    → Option (Option (List ResourceGroupEntry))
    → Outcome BlobIdError (Option Str)
unfolding group_named
determine_resource_group auth account none = err list_failed
determine_resource_group auth account (some none) = ok none
determine_resource_group auth account (some (some gs)) = group_named auth account gs

-- The validators of the fields, on a Go `int` with its sign: whether they accept.
pub data ℤ : Type 0 where
  pos negsuc : ℕ → ℤ

-- `validateArmStorageBlobParallelism`
unfoldable pub validate_parallelism : ℤ → Bool
validate_parallelism (pos zero) = false
validate_parallelism (pos (suc n)) = true
validate_parallelism (negsuc n) = false

-- `validateArmStorageBlobAttempts`
unfoldable pub validate_attempts : ℤ → Bool
validate_attempts (pos zero) = false
validate_attempts (pos (suc n)) = true
validate_attempts (negsuc n) = false

-- `validateArmStorageBlobSize`: Go's remainder is 0 just where that of the absolute value is.
unfoldable pub validate_size : ℤ → Bool
validate_size (pos n) = n % 512 == 0
validate_size (negsuc n) = suc n % 512 == 0

-- `validateArmStorageBlobType`
unfoldable pub validate_type : Str → Bool
validate_type v = str_eq (to_lower v) (bytes "block") || str_eq (to_lower v) (bytes "page")

pub record BlobProperties : Type 0 where
  pub content_type : Str
  pub copy_source : Str
  pub blob_type : Str
  pub url : Str

-- The calls of the SDK, on the state of the cloud; `none` and `false` are errors.
pub record BlobService : Type 1 where
  pub Cloud : Type 0
  pub list : Cloud → Option (Option (List ResourceGroupEntry))
  pub account_exists : Str → Str → Cloud → Option Bool
  pub blob_exists : StorageBlobId → Cloud → Option Bool
  pub get_properties : StorageBlobId → Cloud → Option BlobProperties
  pub set_content_type : StorageBlobId → Option Str → Cloud → Bool × Cloud
  pub delete_if_exists : StorageBlobId → Cloud → Bool × Cloud
  pub parse_authority : Str → Option Str
  pub suffix : Str

-- The state of the resource, with what a read sets.
pub record Data : Type 0 where
  pub id : Str
  pub name : Str
  pub storage_container_name : Str
  pub storage_account_name : Str
  pub resource_group_name : Str
  pub content_type : Str
  pub source_uri : Str
  pub kind : Str
  pub url : Str

-- Where a blob is found: no group of the account, no account, or the blob's ID and group.
pub data Place : Type 0 where
  groupless accountless : Place
  at : StorageBlobId → Str → Place

module _ (service : BlobService) where
  -- The start of the handlers: the ID, the group of the account, and the client.
  unfoldable pub locate : Str → service.Cloud → Outcome BlobIdError Place
  unfolding determine_resource_group
  locate own c = do
    id ← parse_storage_blob_id service.parse_authority own service.suffix
    group ←
        determine_resource_group service.parse_authority id.storage_account_name (service.list c)
    elim group [
      | none ↦ ok groupless
      | some g ↦ elim (service.account_exists g id.storage_account_name c) [
        | none ↦ err client_failed
        | some there ↦ if there then ok (at id g) else ok accountless
      ]
    ]

  -- What a read sets of the properties.
  abbrev read_into : StorageBlobId → Str → BlobProperties → Data → Data
  read_into id group p d = record d {
    name = id.blob_name;
    storage_container_name = id.container_name;
    storage_account_name = id.storage_account_name;
    resource_group_name = group;
    content_type = p.content_type;
    source_uri = p.copy_source;
    kind = to_lower (remove_first p.blob_type (bytes "Blob"));
    url = p.url;
  }

  -- `resourceArmStorageBlobRead`
  unfoldable pub blob_read : Data → service.Cloud → Outcome BlobIdError Data
  unfolding locate
  blob_read d c = do
    place ← locate d.id c
    elim place [
      | groupless ↦ err no_group
      | accountless ↦ ok (record d { id = [] })
      | at id group ↦ elim (service.blob_exists id c) [
        | none ↦ err blob_failed
        | some there ↦ elim there [
          | false ↦ ok (record d { id = [] })
          | true ↦ elim (service.get_properties id c) [
            | none ↦ err blob_failed
            | some p ↦ ok (read_into id group p d)
          ]
        ]
      ]
    ]

  -- `resourceArmStorageBlobUpdate`; the content type where it has changed.
  unfoldable pub blob_update :
      Data → Option Str → service.Cloud → Outcome BlobIdError (Unit {0}) × service.Cloud
  unfolding locate
  blob_update d changed c = elim (locate d.id c) [
    | err e ↦ (err e, c)
    | panic ↦ (panic, c)
    | ok place ↦ elim place [
      | groupless ↦ (err no_group, c)
      | accountless ↦ (err no_account, c)
      | at id group ↦
          let (fine, c') = service.set_content_type id changed c in
          (if fine then ok tt else err blob_failed, c')
    ]
  ]

  -- `resourceArmStorageBlobDelete`; without a group or an account there is no blob.
  unfoldable pub blob_delete : Data → service.Cloud → Outcome BlobIdError (Unit {0}) × service.Cloud
  unfolding locate
  blob_delete d c = elim (locate d.id c) [
    | err e ↦ (err e, c)
    | panic ↦ (panic, c)
    | ok place ↦ elim place [
      | groupless ↦ (ok tt, c)
      | accountless ↦ (ok tt, c)
      | at id group ↦
          let (fine, c') = service.delete_if_exists id c in
          (if fine then ok tt else err blob_failed, c')
    ]
  ]
