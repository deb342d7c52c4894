-- ===== src/StorageBlob/Upload/Tests.antt =====
-- The create of a page blob from a file of one byte, and of a block blob from the same file.
use terraform_provider_azure.Base.{
  ℕ, ◌+◌, ◌≡◌, ◌≢◌, refl, arith, true, false, some, [], ◌∷◌, Str, bytes, str_eq, ok, lookup, insert,
  erase,
}
use terraform_provider_azure.Text.{
  to_lower, split, trim_space, trim_prefix, trim_suffix, has_prefix, strip_prefix?,
}
use terraform_provider_azure.Url.{before, parse_request_uri, unescape}
use terraform_provider_azure.ResourceId.{parse_azure_resource_id, bare_path, segments}
use terraform_provider_azure.StorageBlob.Tests.{photo, end_point, every_host, photo-IsPlainId}
use terraform_provider_azure.StorageBlob.Model.{File, ByteRange}
use terraform_provider_azure.StorageBlob.Blocks.{Block, block_split, block_loop, block_at}
use terraform_provider_azure.StorageBlob.Worker.{
  Transfer, chunk, Pool, start, attempt, Reach, at_start, then_step, has_failed, initial,
}
use terraform_provider_azure.StorageBlob.Id.{remove_first, parse_storage_blob_id-blob_url}
use terraform_provider_azure.StorageBlob.Account.{
  pos, BlobService, Data, blob_read, locate, group_of, group_named, determine_resource_group,
}
use terraform_provider_azure.StorageBlob.Upload.{
  BlobReference, UploadService, page_transfer, block_transfer, listed, CreateData, block_source,
  BlobCreate, uploads, with_id,
}
use terraform_provider_azure.StorageBlob.Upload.Whole.{SentBlocks, create-TookBlocks}

abbrev file : File
file = record { stat = some 1; read_at = λ i n. some (1 ∷ []) }

-- The cloud counts the calls that change it.
abbrev service : UploadService ℕ
service = record {
  open_file = λ s. some file;
  encode = λ s. s;
  entropy = λ n. some (n ∷ []);
  cpus = 2;
  read_page = λ f r. chunk false;
  read_block = λ f b. chunk false;
  put_page_blob = λ b n t c. (true, c + 1);
  write_range = λ b f r s c. (true, c + 1);
  create_block_blob = λ b c. (true, c + 1);
  put_block = λ b f x c. (true, c + 1);
  put_block_list = λ b ids t c. (true, c + 1);
  copy = λ b u c. (true, c + 1);
}

abbrev page : ByteRange
page = record { offset = 0; length_ = 4096 }

abbrev blob : BlobReference
blob = record { container = bytes "c"; name = bytes "b" }

abbrev pages : Transfer
pages = page_transfer service blob 1 1 file 1

abbrev page_sent : Pool pages
page_sent = record {
  queue = [];
  busy = [];
  errors = [];
  waiting = 0;
  accepted = page ∷ [];
  cloud = 2;
}

abbrev accounts : BlobService
accounts = record {
  Cloud = ℕ;
  list = λ c. some (
      some (
        record {
          name = some (bytes "acc");
          id = some (
              bytes
                "/subscriptions/1/resourceGroups/g/providers/Microsoft.Storage/storageAccounts/acc");
        }
        ∷ []));
  account_exists = λ g a c. some true;
  blob_exists = λ id c. some true;
  get_properties = λ id c. some (record {
    content_type = bytes "text/plain";
    copy_source = [];
    blob_type = bytes "PageBlob";
    url = bytes "https://acc.blob.core.net/c/a/b.png";
  });
  set_content_type = λ id t c. (true, c + 1);
  delete_if_exists = λ id c. (true, c + 1);
  parse_authority = every_host;
  suffix = end_point;
}

abbrev old : Data
old = record {
  id = [];
  name = bytes "a/b.png";
  storage_container_name = bytes "c";
  storage_account_name = bytes "acc";
  resource_group_name = bytes "g";
  content_type = bytes "text/plain";
  source_uri = [];
  kind = bytes "page";
  url = [];
}

abbrev d : Str → CreateData
d kind = record {
  resource_group_name = bytes "g";
  storage_account_name = bytes "acc";
  blob = record { container = bytes "c"; name = bytes "a/b.png" };
  kind = kind;
  size = pos 0;
  source = bytes "file";
  source_uri = [];
  content_type = bytes "text/plain";
  parallelism = 1;
  attempts = 1;
}

abbrev new : Data
new = record (with_id accounts service old (d (bytes "page"))) {
  url = bytes "https://acc.blob.core.net/c/a/b.png";
}

grouped :
    determine_resource_group every_host (bytes "acc") (accounts.list 2) ≡ ok (some (bytes "g"))
unfolding determine_resource_group group_named group_of parse_azure_resource_id parse_request_uri
    bare_path segments split trim_space trim_prefix trim_suffix has_prefix to_lower before unescape
    str_eq lookup insert erase
grouped = refl

read_back :
    (c : ℕ) → blob_read accounts (with_id accounts service old (d (bytes "page"))) c ≡ ok new
unfolding blob_read locate remove_first to_lower has_prefix strip_prefix?
read_back c =
    ground (
      arith,
      grouped,
      parse_storage_blob_id-blob_url every_host photo end_point photo-IsPlainId refl,
    )

block_kind : to_lower (bytes "block") ≡ bytes "block"
unfolding to_lower
block_kind = refl

from_file : bytes "file" ≢ []
from_file h = ground arith

abbrev block : Block
block = record { section = record { offset = 0; length_ = 1 }; id = 0 ∷ [] }

split_block : block_split service.encode service.entropy file ≡ ok ((0 ∷ []) ∷ [], block ∷ [])
unfolding block_split block_loop block_at
split_block = refl

abbrev blocks : Transfer
blocks = block_transfer service blob 1 1 file

abbrev block_sent : Pool blocks
block_sent = record {
  queue = [];
  busy = [];
  errors = [];
  waiting = 0;
  accepted = block ∷ [];
  cloud = 2;
}

block_sent-Reach : Reach blocks (block ∷ []) 1 block_sent
unfolding initial
block_sent-Reach =
    then_step _ _ (then_step _ _ at_start (start block [] false (omega arith) refl refl))
      (attempt [] [] (record { item = block; left = 1; failing = false }) 0 2 refl refl refl)

block_created : BlobCreate accounts service old (d (bytes "block")) 0 (ok new) 3
unfolding has_failed
block_created =
    uploads 3 (ok new) refl
      (block_source 1 3 (ok tt) refl block_kind refl from_file (
        listed file ((0 ∷ []) ∷ []) (block ∷ []) block_sent 3 refl split_block block_sent-Reach refl
          refl refl))
      (rw (read_back 3) refl)

create-TookBlocks_example : SentBlocks accounts service old (d (bytes "block")) 0 3
create-TookBlocks_example =
    create-TookBlocks accounts service old (d (bytes "block")) (λ n. n ∷ []) 0 3 new (λ n. refl)
      (omega arith) refl block_kind from_file block_created
