-- ===== src/StorageBlob/Upload/Took.antt =====
-- What the upload of a page blob or a block blob that returns with no error has put on the cloud.
use terraform_provider_azure.Base.{
  ℕ, ◌+◌, ◌*◌, ◌≤◌, ◌<◌, ◌≡◌, refl, inl, inr, Option-cases, Outcome-cases, ◌/◌, Bool, true, ◌&&◌,
  leb, ltb, Option, some, List, [], ◌∷◌, Str, Outcome, ok, if◌then◌else◌, arith, sym, ap, ◌∙◌,
}
use terraform_provider_azure.StorageBlob.Model.{
  File, ByteRange, min_page_size, is_empty_page, rounded_size,
}
use terraform_provider_azure.StorageBlob.Pages.{page_split, page_loop}
use terraform_provider_azure.StorageBlob.Pages.Passes.{covered}
use terraform_provider_azure.StorageBlob.Pages.Cover.{page_split-covers}
use terraform_provider_azure.StorageBlob.Blocks.{
  Block, block_split, IsTiling, ids_of_blocks, block_split-tiles,
}
use terraform_provider_azure.StorageBlob.Worker.Calls.{Calls, Reach-Calls}
use terraform_provider_azure.StorageBlob.Worker.Settled.{count, settled-accounts}
use terraform_provider_azure.StorageBlob.Account.{pos}
use terraform_provider_azure.StorageBlob.Upload.{
  BlobReference, UploadService, UploadError, page_transfer, block_transfer, PageUpload, BlockUpload,
  not_opened, not_split, not_put, not_sent, sent, not_listed, listed,
}

-- The range holds the byte.
abbrev pub holds : ℕ → ByteRange → Bool
holds x r = leb r.offset x && ltb x (r.offset + r.length_)

covered-count : (x : ℕ) (rs : List ByteRange) → covered x rs ≡ count (holds x) rs
unfolding covered count
covered-count x [] = refl
covered-count x (r ∷ rs) = ground (arith, covered-count x rs)

page_split-stat :
    (file : File) (size : ℕ) (ranges : List ByteRange)
    → page_split file ≡ ok (size, ranges)
    → file.stat ≡ some size
unfolding page_split
page_split-stat file size ranges h = elim (Option-cases file.stat) [
  | inl e ↦ absurd (ground arith)
  | inr (n, e) ↦
      elim (Outcome-cases (
        page_loop (rounded_size n / min_page_size) file (rounded_size n) 0
          (record { offset = 0; length_ = 0 }) [])) [
            | inl (rs, e1) ↦ ground arith
            | inr (inl (x, e1)) ↦ ground arith
            | inr (inr e1) ↦ ground arith
          ]
]

block_split-stat :
    (encode : Str → Str) (entropy : ℕ → Option Str) (file : File) (ids : List Str)
    (parts : List Block)
    → block_split encode entropy file ≡ ok (ids, parts)
    → (size : ℕ) × (file.stat ≡ some size)
unfolding block_split
block_split-stat encode entropy file ids parts h = elim (Option-cases file.stat) [
  | inl e ↦ absurd (ground arith)
  | inr (n, e) ↦ (n, e)
]

module _ {Cloud : Type 0} (service : UploadService Cloud) (blob : BlobReference)
    (source content_type : Str) (parallelism attempts : ℕ) where
  -- The cloud is what these calls make of it: the page blob is created with the size of the file, and then
  -- ranges are sent, of which the service takes some. Those hold each page that is not empty once.
  abbrev pub TookPages : (ℕ → Str) → Cloud → Cloud → Type 0
  TookPages content c c' =
      (file : File) × (size : ℕ) × (c1 : Cloud) × (ranges : List ByteRange) × (service.open_file
          source
        ≡ some file)
      × (file.stat ≡ some size)
      × (service.put_page_blob blob (pos size) content_type c ≡ (true, c1))
      × Calls (page_transfer service blob parallelism attempts file size) c1 ranges c'
      × ((page : ℕ)
          → min_page_size * page < rounded_size size
          → count (holds (min_page_size * page)) ranges
            ≡ (if is_empty_page (content (min_page_size * page)) then 0 else 1))

  pub uploaded-TookPages :
      (content : ℕ → Str) (c c' : Cloud) (r : Outcome UploadError (Unit {0}))
      → ((file : File) (i : ℕ)
          → service.open_file source ≡ some file
          → file.read_at i min_page_size ≡ some (content i))
      → 1 ≤ attempts
      → r ≡ ok tt
      → PageUpload service blob source content_type parallelism attempts c r c'
      → TookPages content c c'
  uploaded-TookPages content c _ _ readable some_attempts fine (not_opened h) = cc
  uploaded-TookPages content c _ _ readable some_attempts fine (not_split file x h h') = cc
  uploaded-TookPages content c c' _ readable some_attempts fine
        (not_put file size ranges _ h h' h'') =
      cc
  uploaded-TookPages content c _ _ readable some_attempts fine
        (not_sent file size ranges c1 s h h' h'' reached over failed) =
      cc
  uploaded-TookPages content c _ _ readable some_attempts fine
        (sent file size ranges c1 s h h' h'' reached over none_failed) =
      let stat = page_split-stat file size ranges h' in
      let (ranges', split, _, covers) =
        page_split-covers file size content stat (λ i. readable file i h) in
      let same : ranges' ≡ ranges = ground (arith, split, h') in
      let (_, accepted) =
        settled-accounts (page_transfer service blob parallelism attempts file size) ranges c1 s
          some_attempts reached over in
      (
        file,
        size,
        c1,
        s.accepted,
        h,
        stat,
        h'',
        Reach-Calls (page_transfer service blob parallelism attempts file size) ranges c1 s reached,
        λ page below.
            accepted none_failed (holds (min_page_size * page))
            ∙ sym (covered-count _ ranges)
            ∙ ap (covered (min_page_size * page)) (sym same)
            ∙ covers page below,
      )

  -- The same of the blocks of a file, and of the block list behind them.
  abbrev pub TookBlocks : Cloud → Cloud → Type 0
  TookBlocks c c' =
      (file : File) × (size : ℕ) × (bs taken : List Block) × (c1 : Cloud) × (service.open_file
          source
        ≡ some file)
      × (file.stat ≡ some size)
      × IsTiling size 0 bs
      × Calls (block_transfer service blob parallelism attempts file) c taken c1
      × ((test : Block → Bool) → count test taken ≡ count test bs)
      × (service.put_block_list blob (ids_of_blocks bs) content_type c1 ≡ (true, c'))

  pub uploaded-TookBlocks :
      (random : ℕ → Str) (c c' : Cloud) (r : Outcome UploadError (Unit {0}))
      → ((n : ℕ) → service.entropy n ≡ some (random n))
      → 1 ≤ attempts
      → r ≡ ok tt
      → BlockUpload service blob source content_type parallelism attempts c r c'
      → TookBlocks c c'
  uploaded-TookBlocks random c _ _ given some_attempts fine (not_opened h) = cc
  uploaded-TookBlocks random c _ _ given some_attempts fine (not_split file x h h') = cc
  uploaded-TookBlocks random c _ _ given some_attempts fine
        (not_sent file ids parts s h h' reached over failed) =
      cc
  uploaded-TookBlocks random c c' _ given some_attempts fine
        (not_listed file ids parts s _ h h' reached over none_failed bad) =
      cc
  uploaded-TookBlocks random c c' _ given some_attempts fine
        (listed file ids parts s _ h h' reached over none_failed good) =
      let (size, stat) = block_split-stat service.encode service.entropy file ids parts h' in
      let (bs, split, tiling) =
        block_split-tiles service.encode service.entropy random file size given stat in
      let same : bs ≡ parts = ground (arith, split, h') in
      let same_ids : ids_of_blocks bs ≡ ids = ground (arith, split, h') in
      let (_, accepted) =
        settled-accounts (block_transfer service blob parallelism attempts file) parts c s
          some_attempts reached over in
      (
        file,
        size,
        bs,
        s.accepted,
        s.cloud,
        h,
        stat,
        tiling,
        Reach-Calls (block_transfer service blob parallelism attempts file) parts c s reached,
        λ test. accepted none_failed test ∙ ap (count test) (sym same),
        ap (λ xs. service.put_block_list blob xs content_type s.cloud) same_ids ∙ good,
      )
