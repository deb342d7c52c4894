-- ===== src/StorageBlob/Upload/Whole.antt =====
-- What a create that returns with no error has put on the cloud.
use terraform_provider_azure.Base.{
  true, ℕ, ◌≤◌, ◌≡◌, ◌≢◌, refl, some, [], Str, bytes, Outcome, ok, arith,
}
use terraform_provider_azure.Text.{to_lower}
use terraform_provider_azure.StorageBlob.Upload.Took.{TookBlocks, uploaded-TookBlocks}
use terraform_provider_azure.StorageBlob.Account.{BlobService, Data}
use terraform_provider_azure.StorageBlob.Upload.{
  UploadService, UploadError, CreateData, BlobUpload, copies, copy_fails, block_fails, empty_block,
  block_source, page_source, empty_page, other_type, BlobCreate, client_fails, accountless,
  upload_fails, uploads,
}

no_block : {v : Str} → v ≡ bytes "page" → v ≢ bytes "block"
no_block h h' = ground arith

module _ (accounts : BlobService) (service : UploadService accounts.Cloud) (old : Data)
    (d : CreateData) where
  -- An empty block blob is created first.
  abbrev pub SentBlocks : accounts.Cloud → accounts.Cloud → Type 0
  SentBlocks c c' =
      (c1 : accounts.Cloud) × (service.create_block_blob d.blob c ≡ (true, c1))
      × TookBlocks service d.blob d.source d.content_type d.parallelism d.attempts c1 c'

  blob-TookBlocks :
      (random : ℕ → Str) (c c' : accounts.Cloud) (r : Outcome UploadError (Unit {0}))
      → ((n : ℕ) → service.entropy n ≡ some (random n))
      → 1 ≤ d.attempts
      → d.source_uri ≡ []
      → to_lower d.kind ≡ bytes "block"
      → d.source ≢ []
      → r ≡ ok tt
      → BlobUpload service d c r c'
      → SentBlocks c c'
  blob-TookBlocks random c _ _ given some_attempts own block from_file fine (copies c' h h') =
      absurd (h own)
  blob-TookBlocks random c _ _ given some_attempts own block from_file fine (copy_fails c' h h') =
      absurd (h own)
  blob-TookBlocks random c _ _ given some_attempts own block from_file fine
        (block_fails c' h h' h'') =
      cc
  blob-TookBlocks random c _ _ given some_attempts own block from_file fine
        (empty_block c' h h' h'' h3) =
      absurd (from_file h3)
  blob-TookBlocks random c _ _ given some_attempts own block from_file fine
        (block_source c1 c' r h h' h'' h3 up) =
      (
        c1,
        h'',
        uploaded-TookBlocks service d.blob d.source d.content_type d.parallelism d.attempts random
            c1 c' r given some_attempts fine up,
      )
  blob-TookBlocks random c _ _ given some_attempts own block from_file fine
        (page_source c' r h page h'' up) =
      absurd (no_block page block)
  blob-TookBlocks random c _ _ given some_attempts own block from_file fine
        (empty_page c' f h h' h'' up) =
      absurd (from_file h'')
  blob-TookBlocks random c _ _ given some_attempts own block from_file fine (other_type h h' h'') =
      absurd (h' block)

  created-TookBlocks :
      (random : ℕ → Str) (c c' : accounts.Cloud) (r : Outcome UploadError Data) (new : Data)
      → ((n : ℕ) → service.entropy n ≡ some (random n))
      → 1 ≤ d.attempts
      → d.source_uri ≡ []
      → to_lower d.kind ≡ bytes "block"
      → d.source ≢ []
      → r ≡ ok new
      → BlobCreate accounts service old d c r c'
      → SentBlocks c c'
  created-TookBlocks random c _ _ new given some_attempts own block from_file fine
        (client_fails h) =
      cc
  created-TookBlocks random c _ _ new given some_attempts own block from_file fine (accountless h) =
      cc
  created-TookBlocks random c _ _ new given some_attempts own block from_file fine
        (upload_fails x c' h up) =
      cc
  created-TookBlocks random c _ _ new given some_attempts own block from_file fine
        (uploads c' r h up result) =
      blob-TookBlocks random c c' (ok tt) given some_attempts own block from_file refl up

  -- A create of a block blob from a file, with at least one attempt and randomness that does not fail, that
  -- returns with no error: the cloud is what three things make of it: the creation of the blob, calls that send
  -- blocks, and a block list. The service took, in these calls and in some order, blocks that follow each other
  -- from the start of the file to its end, and the list holds their IDs in that order.
  pub create-TookBlocks :
      (random : ℕ → Str) (c c' : accounts.Cloud) (new : Data)
      → ((n : ℕ) → service.entropy n ≡ some (random n))
      → 1 ≤ d.attempts
      → d.source_uri ≡ []
      → to_lower d.kind ≡ bytes "block"
      → d.source ≢ []
      → BlobCreate accounts service old d c (ok new) c'
      → SentBlocks c c'
  create-TookBlocks random c c' new given some_attempts own block from_file created =
      created-TookBlocks random c c' (ok new) new given some_attempts own block from_file refl
        created
