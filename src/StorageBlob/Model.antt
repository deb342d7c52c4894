-- ===== src/StorageBlob/Model.antt =====
-- The source file of an upload, as azurerm/resource_arm_storage_blob.go uses it. Sizes and offsets are
-- the source's `int64`; no sum below passes the rounded size of the file.
use terraform_provider_azure.Base.{
  ℕ, ◌+◌, ◌-◌, ◌%◌, Bool, Option, ◌==◌, not, all, if◌then◌else◌, Str,
}

-- An `os.File`: its size, if `Stat` returns no error, and the buffer that `ReadAt` leaves behind for an
-- offset and a length, zeros where the file ends, if it returns no error but `io.EOF`.
pub record File : Type 0 where
  pub stat : Option ℕ
  pub read_at : ℕ → ℕ → Option Str

pub data SplitError : Type 0 where
  no_stat : SplitError
  no_read : ℕ → SplitError
  no_entropy : SplitError

-- `byteRange`, and the section of the file that it becomes.
pub record ByteRange : Type 0 where
  pub offset : ℕ
  pub length_ : ℕ

abbrev pub min_page_size : ℕ
min_page_size = 4096

abbrev pub max_page_size : ℕ
max_page_size = 4194304

abbrev pub block_size : ℕ
block_size = 4194304

-- `bytes.Equal(pageBuf, emptyPage)`
unfoldable pub is_empty_page : Str → Bool
is_empty_page = all (λ b. b == 0)

-- The size of the file, rounded up to whole pages.
unfoldable pub rounded_size : ℕ → ℕ
rounded_size size =
    if not (size % min_page_size == 0) then size + (min_page_size - size % min_page_size) else size
