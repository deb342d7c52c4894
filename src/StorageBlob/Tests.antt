-- ===== src/StorageBlob/Tests.antt =====
-- A file of two pages and eight bytes, with an empty page in the middle, and the upload of one part.
use terraform_provider_azure.Base.{
  length, ◌≤◌, bytes, Option, some, ℕ, ◌+◌, ◌*◌, ◌<◌, ◌≡◌, refl, ◌⊎◌, Bool, true, false, some, List,
  [], ◌∷◌, ◌==◌, arith, if◌then◌else◌, Str, All, ok,
}
use terraform_provider_azure.Url.Absolute.{plain_text, plain_text_sound, host_text, host_text_sound}
use terraform_provider_azure.StorageBlob.Id.{
  StorageBlobId, IsPlainId, blob_url, parse_storage_blob_id, parse_storage_blob_id-blob_url,
}
use terraform_provider_azure.StorageBlob.Model.{
  File, ByteRange, min_page_size, is_empty_page, rounded_size,
}
use terraform_provider_azure.StorageBlob.Pages.{page_split}
use terraform_provider_azure.StorageBlob.Pages.Passes.{IsRange, covered}
use terraform_provider_azure.StorageBlob.Pages.Cover.{page_split-covers}
use terraform_provider_azure.StorageBlob.Blocks.{
  Block, block_split, IsTiling, ids_of_blocks, block_split-tiles,
}
use terraform_provider_azure.StorageBlob.Worker.{
  chunk, Transfer, Pool, initial, Step, start, attempt, Reach, at_start, then_step, has_failed,
}
use terraform_provider_azure.StorageBlob.Worker.Settled.{count, settled-accounts, errors-le-parts}
use terraform_provider_azure.StorageBlob.Worker.Progress.{steps_left, workers-progress}

abbrev page_content : ℕ → Str
page_content i = if i == 4096 then 0 ∷ 0 ∷ [] else 0 ∷ 1 ∷ []

abbrev disk : File
disk = record { stat = some 8200; read_at = λ i n. some (page_content i) }

page_split-covers_example :
    (ranges : List ByteRange) × (page_split disk ≡ ok (8200, ranges))
    × All (IsRange (rounded_size 8200)) ranges
    × ((page : ℕ)
        → min_page_size * page < rounded_size 8200
        → covered (min_page_size * page) ranges
          ≡ (if is_empty_page (page_content (min_page_size * page)) then 0 else 1))
page_split-covers_example = page_split-covers disk 8200 page_content refl (λ i. refl)

block_split-tiles_example :
    (bs : List Block) × (block_split (λ s. 65 ∷ s) (λ n. some (n ∷ [])) disk
      ≡ ok (ids_of_blocks bs, bs))
    × IsTiling 8200 0 bs
block_split-tiles_example =
    block_split-tiles (λ s. 65 ∷ s) (λ n. some (n ∷ [])) (λ n. n ∷ []) disk 8200 (λ n. refl) refl

-- A service that takes everything.
abbrev willing : Transfer
willing = record {
  Item = ℕ;
  Cloud = ℕ;
  read = λ p. chunk false;
  send = λ p c. (true, c + 1);
  attempts = 1;
  workers = 8;
}

abbrev parts : List ℕ
parts = 7 ∷ []

abbrev in_hand : Pool willing
in_hand = record {
  queue = [];
  busy = record { item = 7; left = 1; failing = false } ∷ [];
  errors = [];
  waiting = 1;
  accepted = [];
  cloud = 0;
}

abbrev all_sent : Pool willing
all_sent = record { queue = []; busy = []; errors = []; waiting = 0; accepted = 7 ∷ []; cloud = 1 }

in_hand-Reach : Reach willing parts 0 in_hand
unfolding initial
in_hand-Reach = then_step _ _ at_start (start 7 [] false (omega arith) refl refl)

all_sent-Reach : Reach willing parts 0 all_sent
all_sent-Reach =
    then_step _ _ in_hand-Reach
      (attempt [] [] (record { item = 7; left = 1; failing = false }) 0 1 refl refl refl)

settled-accounts_example :
    ((test : ℕ → Bool)
      → count test all_sent.errors + count test all_sent.accepted ≡ count test parts)
    × (has_failed willing all_sent ≡ false
        → (test : ℕ → Bool) → count test all_sent.accepted ≡ count test parts)
settled-accounts_example =
    settled-accounts willing parts 0 all_sent (omega arith) all_sent-Reach refl

errors-le-parts_example : length in_hand.errors + in_hand.waiting ≤ length parts
errors-le-parts_example = errors-le-parts willing parts 0 in_hand (omega arith) in_hand-Reach

workers-progress_example :
    ((in_hand.waiting ≡ 0) ⊎ ((t : Pool willing) × Step willing in_hand t))
    × ((t : Pool willing)
        → Step willing in_hand t
        → steps_left willing t < steps_left willing in_hand)
workers-progress_example =
    workers-progress willing parts 0 in_hand (omega arith) (omega arith) in_hand-Reach

abbrev pub photo : StorageBlobId
photo = record {
  storage_account_name = bytes "acc";
  container_name = bytes "c";
  blob_name = bytes "a/b.png";
}

abbrev pub end_point : Str
end_point = bytes "core.net"

abbrev pub every_host : Str → Option Str
every_host s = some s

pub photo-IsPlainId : IsPlainId photo end_point
unfolding plain_text host_text
photo-IsPlainId = record {
  account = host_text_sound (bytes "acc") refl;
  undotted = (omega arith, (omega arith, (omega arith, tt)));
  end_point = host_text_sound end_point refl;
  container = plain_text_sound (bytes "c") refl;
  unslashed = (omega arith, tt);
  blob = plain_text_sound (bytes "a/b.png") refl;
}

parse_storage_blob_id-blob_url_example :
    parse_storage_blob_id every_host (blob_url photo end_point) end_point ≡ ok photo
parse_storage_blob_id-blob_url_example =
    parse_storage_blob_id-blob_url every_host photo end_point photo-IsPlainId refl
