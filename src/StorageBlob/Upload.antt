-- ===== src/StorageBlob/Upload.antt =====
-- The uploads of a file as a page blob or a block blob, and the create that chooses among them:
-- `resourceArmStorageBlobPageUploadFromSource`, `resourceArmStorageBlobBlockUploadFromSource` and
-- `resourceArmStorageBlobCreate`. What the workers do depends on their order, so an upload is a relation.
pub mod Took
pub mod Whole
mod Tests
use terraform_provider_azure.Base.{
  ℕ, ◌*◌, ◌≡◌, ◌≢◌, Bool, true, false, Option, none, some, List, [], ◌∷◌, ◌==◌, Str, bytes, Outcome,
  ok, err, wrap, if◌then◌else◌,
}
use terraform_provider_azure.Text.{to_lower}
use terraform_provider_azure.StorageBlob.Model.{File, SplitError, ByteRange}
use terraform_provider_azure.StorageBlob.Pages.{page_split}
use terraform_provider_azure.StorageBlob.Blocks.{Block, block_split}
use terraform_provider_azure.StorageBlob.Id.{StorageBlobId, BlobIdError, blob_url}
use terraform_provider_azure.StorageBlob.Account.{ℤ, pos, BlobService, Data, blob_read}
use terraform_provider_azure.StorageBlob.Worker.{
  Transfer, Reading, Pool, Reach, has_failed, sent_range,
}

-- A container and the name of a blob in it.
pub record BlobReference : Type 0 where
  pub container : Str
  pub name : Str

-- The calls of the SDK and of the standard library; a Boolean says whether a call returned no error.
pub record UploadService (Cloud : Type 0) : Type 0 where
  pub open_file : Str → Option File
  pub encode : Str → Str
  pub entropy : ℕ → Option Str
  pub cpus : ℕ
  pub read_page : File → ByteRange → Reading
  pub read_block : File → Block → Reading
  pub put_page_blob : BlobReference → ℤ → Str → Cloud → Bool × Cloud
  pub write_range : BlobReference → File → ByteRange → ℕ × ℕ → Cloud → Bool × Cloud
  pub create_block_blob : BlobReference → Cloud → Bool × Cloud
  pub put_block : BlobReference → File → Block → Cloud → Bool × Cloud
  pub put_block_list : BlobReference → List Str → Str → Cloud → Bool × Cloud
  pub copy : BlobReference → Str → Cloud → Bool × Cloud

pub data UploadError : Type 0 where
  open_failed put_failed transfer_failed list_failed copy_failed no_account client_failed :
      UploadError
  split_failed : SplitError → UploadError
  read_failed : BlobIdError → UploadError

module _ {Cloud : Type 0} (service : UploadService Cloud) (blob : BlobReference)
    (parallelism attempts : ℕ) where
  -- The workers of a page blob, whose size is the one that the split returned.
  abbrev pub page_transfer : File → ℕ → Transfer
  page_transfer file blob_size = record {
    Item = ByteRange;
    Cloud = Cloud;
    read = service.read_page file;
    send = λ r. service.write_range blob file r (sent_range blob_size r);
    attempts = attempts;
    workers = parallelism * service.cpus;
  }

  abbrev pub block_transfer : File → Transfer
  block_transfer file = record {
    Item = Block;
    Cloud = Cloud;
    read = service.read_block file;
    send = service.put_block blob file;
    attempts = attempts;
    workers = parallelism * service.cpus;
  }

module _ {Cloud : Type 0} (service : UploadService Cloud) (blob : BlobReference)
    (source content_type : Str) (parallelism attempts : ℕ) where
  -- The upload of pages from a state of the cloud, with its result and the cloud behind it.
  pub data PageUpload (c : Cloud) : Outcome UploadError (Unit {0}) → Cloud → Type 0 where
    not_opened : service.open_file source ≡ none → PageUpload c (err open_failed) c
    not_split :
        (file : File) (x : SplitError)
        → service.open_file source ≡ some file
        → page_split file ≡ err x
        → PageUpload c (err (split_failed x)) c
    not_put :
        (file : File) (size : ℕ) (ranges : List ByteRange) (c' : Cloud)
        → service.open_file source ≡ some file
        → page_split file ≡ ok (size, ranges)
        → service.put_page_blob blob (pos size) content_type c ≡ (false, c')
        → PageUpload c (err put_failed) c'
    not_sent :
        (file : File) (size : ℕ) (ranges : List ByteRange) (c' : Cloud)
        (s : Pool (page_transfer service blob parallelism attempts file size))
        → service.open_file source ≡ some file
        → page_split file ≡ ok (size, ranges)
        → service.put_page_blob blob (pos size) content_type c ≡ (true, c')
        → Reach (page_transfer service blob parallelism attempts file size) ranges c' s
        → s.waiting ≡ 0
        → has_failed (page_transfer service blob parallelism attempts file size) s ≡ true
        → PageUpload c (err transfer_failed) s.cloud
    sent :
        (file : File) (size : ℕ) (ranges : List ByteRange) (c' : Cloud)
        (s : Pool (page_transfer service blob parallelism attempts file size))
        → service.open_file source ≡ some file
        → page_split file ≡ ok (size, ranges)
        → service.put_page_blob blob (pos size) content_type c ≡ (true, c')
        → Reach (page_transfer service blob parallelism attempts file size) ranges c' s
        → s.waiting ≡ 0
        → has_failed (page_transfer service blob parallelism attempts file size) s ≡ false
        → PageUpload c (ok tt) s.cloud

  -- The upload of blocks, with the block list behind the wait.
  pub data BlockUpload (c : Cloud) : Outcome UploadError (Unit {0}) → Cloud → Type 0 where
    not_opened : service.open_file source ≡ none → BlockUpload c (err open_failed) c
    not_split :
        (file : File) (x : SplitError)
        → service.open_file source ≡ some file
        → block_split service.encode service.entropy file ≡ err x
        → BlockUpload c (err (split_failed x)) c
    not_sent :
        (file : File) (ids : List Str) (parts : List Block)
        (s : Pool (block_transfer service blob parallelism attempts file))
        → service.open_file source ≡ some file
        → block_split service.encode service.entropy file ≡ ok (ids, parts)
        → Reach (block_transfer service blob parallelism attempts file) parts c s
        → s.waiting ≡ 0
        → has_failed (block_transfer service blob parallelism attempts file) s ≡ true
        → BlockUpload c (err transfer_failed) s.cloud
    not_listed :
        (file : File) (ids : List Str) (parts : List Block)
        (s : Pool (block_transfer service blob parallelism attempts file)) (c' : Cloud)
        → service.open_file source ≡ some file
        → block_split service.encode service.entropy file ≡ ok (ids, parts)
        → Reach (block_transfer service blob parallelism attempts file) parts c s
        → s.waiting ≡ 0
        → has_failed (block_transfer service blob parallelism attempts file) s ≡ false
        → service.put_block_list blob ids content_type s.cloud ≡ (false, c')
        → BlockUpload c (err list_failed) c'
    listed :
        (file : File) (ids : List Str) (parts : List Block)
        (s : Pool (block_transfer service blob parallelism attempts file)) (c' : Cloud)
        → service.open_file source ≡ some file
        → block_split service.encode service.entropy file ≡ ok (ids, parts)
        → Reach (block_transfer service blob parallelism attempts file) parts c s
        → s.waiting ≡ 0
        → has_failed (block_transfer service blob parallelism attempts file) s ≡ false
        → service.put_block_list blob ids content_type s.cloud ≡ (true, c')
        → BlockUpload c (ok tt) c'

-- The fields of the resource that a create reads.
pub record CreateData : Type 0 where
  pub resource_group_name : Str
  pub storage_account_name : Str
  pub blob : BlobReference
  pub kind : Str
  pub size : ℤ
  pub source : Str
  pub source_uri : Str
  pub content_type : Str
  pub parallelism : ℕ
  pub attempts : ℕ

module _ {Cloud : Type 0} (service : UploadService Cloud) (d : CreateData) where
  -- The copy of a blob, or the upload by the type; a type that is none of the two does nothing.
  pub data BlobUpload (c : Cloud) : Outcome UploadError (Unit {0}) → Cloud → Type 0 where
    copies :
        (c' : Cloud)
        → d.source_uri ≢ []
        → service.copy d.blob d.source_uri c ≡ (true, c')
        → BlobUpload c (ok tt) c'
    copy_fails :
        (c' : Cloud)
        → d.source_uri ≢ []
        → service.copy d.blob d.source_uri c ≡ (false, c')
        → BlobUpload c (err copy_failed) c'
    block_fails :
        (c' : Cloud)
        → d.source_uri ≡ []
        → to_lower d.kind ≡ bytes "block"
        → service.create_block_blob d.blob c ≡ (false, c')
        → BlobUpload c (err put_failed) c'
    empty_block :
        (c' : Cloud)
        → d.source_uri ≡ []
        → to_lower d.kind ≡ bytes "block"
        → service.create_block_blob d.blob c ≡ (true, c')
        → d.source ≡ []
        → BlobUpload c (ok tt) c'
    block_source :
        (c' c'' : Cloud) (r : Outcome UploadError (Unit {0}))
        → d.source_uri ≡ []
        → to_lower d.kind ≡ bytes "block"
        → service.create_block_blob d.blob c ≡ (true, c')
        → d.source ≢ []
        → BlockUpload service d.blob d.source d.content_type d.parallelism d.attempts c' r c''
        → BlobUpload c r c''
    page_source :
        (c' : Cloud) (r : Outcome UploadError (Unit {0}))
        → d.source_uri ≡ []
        → to_lower d.kind ≡ bytes "page"
        → d.source ≢ []
        → PageUpload service d.blob d.source d.content_type d.parallelism d.attempts c r c'
        → BlobUpload c r c'
    empty_page :
        (c' : Cloud) (fine : Bool)
        → d.source_uri ≡ []
        → to_lower d.kind ≡ bytes "page"
        → d.source ≡ []
        → service.put_page_blob d.blob d.size d.content_type c ≡ (fine, c')
        → BlobUpload c (if fine then ok tt else err put_failed) c'
    other_type :
        d.source_uri ≡ []
        → to_lower d.kind ≢ bytes "block"
        → to_lower d.kind ≢ bytes "page"
        → BlobUpload c (ok tt) c

module _ (accounts : BlobService) (service : UploadService accounts.Cloud) (old : Data)
    (d : CreateData) where
  -- The state with the ID that a create sets.
  abbrev pub with_id : Data
  with_id = record old {
    id =
        blob_url
          (record {
            storage_account_name = d.storage_account_name;
            container_name = d.blob.container;
            blob_name = d.blob.name;
          })
          accounts.suffix;
  }

  -- `resourceArmStorageBlobCreate`, with the state behind the read.
  pub data BlobCreate (c : accounts.Cloud)
      : Outcome UploadError Data → accounts.Cloud → Type 0 where
    client_fails :
        accounts.account_exists d.resource_group_name d.storage_account_name c ≡ none
        → BlobCreate c (err client_failed) c
    accountless :
        accounts.account_exists d.resource_group_name d.storage_account_name c ≡ some false
        → BlobCreate c (err no_account) c
    upload_fails :
        (x : UploadError) (c' : accounts.Cloud)
        → accounts.account_exists d.resource_group_name d.storage_account_name c ≡ some true
        → BlobUpload service d c (err x) c'
        → BlobCreate c (err x) c'
    uploads :
        (c' : accounts.Cloud) (r : Outcome UploadError Data)
        → accounts.account_exists d.resource_group_name d.storage_account_name c ≡ some true
        → BlobUpload service d c (ok tt) c'
        → wrap read_failed (blob_read accounts with_id c') ≡ r
        → BlobCreate c r c'
