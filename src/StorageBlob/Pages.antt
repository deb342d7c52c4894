-- ===== src/StorageBlob/Pages.antt =====
-- `resourceArmStorageBlobPageSplit` of azurerm/resource_arm_storage_blob.go: the ranges of a file whose
-- pages are not empty.
pub mod Passes
pub mod Cover
use terraform_provider_azure.Base.{
  ℕ, zero, suc, ◌+◌, ◌-◌, ◌*◌, ◌%◌, ◌/◌, ◌≤◌, ◌<◌, ◌≡◌, refl, ◌⊎◌, inl, inr, Bool, true, false, not,
  ◌&&◌, ◌||◌, Option, none, some, List, [], ◌∷◌, ◌++◌, arith, ◌==◌, ltb, leb, if◌then◌else◌,
  Bool-cases, Str, All, All-append, Outcome, ok, err, panic, ◌>>=◌, sym, ◌∙◌, ap,
}
use terraform_provider_azure.StorageBlob.Model.{
  File, SplitError, no_stat, no_read, ByteRange, min_page_size, max_page_size, is_empty_page,
  rounded_size,
}

-- What a pass of the loop does with a page that is empty: the current range ends before it.
unfoldable pub skip_page : ℕ → ByteRange → List ByteRange → ByteRange × List ByteRange
skip_page i current ranges = (
  record { offset = i + min_page_size; length_ = 0 },
  (if not (current.length_ == 0) then ranges ++ current ∷ [] else ranges),
)

-- With one that is not: the current range grows, and ends where it is full or the blob ends.
unfoldable pub add_page : ℕ → ℕ → ByteRange → List ByteRange → ByteRange × List ByteRange
add_page blob_size i current ranges =
    let grown = current.length_ + min_page_size in
    if grown == max_page_size || current.offset + grown == blob_size
    then (
      record { offset = i + min_page_size; length_ = 0 },
      ranges ++ record { offset = current.offset; length_ = grown } ∷ [],
    )
    else (record { offset = current.offset; length_ = grown }, ranges)

-- The loop over the pages; the first argument counts those that are left.
unfoldable pub page_loop :
    ℕ → File → ℕ → ℕ → ByteRange → List ByteRange → Outcome SplitError (List ByteRange)
unfolding skip_page add_page
page_loop zero file blob_size i current ranges = ok ranges
page_loop (suc left) file blob_size i current ranges = elim (file.read_at i min_page_size) [
  | none ↦ err (no_read i)
  | some page ↦
      let (current', ranges') =
        if is_empty_page page
        then skip_page i current ranges
        else add_page blob_size i current ranges in
      page_loop left file blob_size (i + min_page_size) current' ranges'
]

-- The size that it returns is the file's own.
unfoldable pub page_split : File → Outcome SplitError (ℕ × List ByteRange)
unfolding page_loop rounded_size
page_split file = elim file.stat [
  | none ↦ err no_stat
  | some size ↦ do
    let blob_size = rounded_size size
    ranges ←
        page_loop (blob_size / min_page_size) file blob_size 0 (record { offset = 0; length_ = 0 })
          []
    ok (size, ranges)
]
