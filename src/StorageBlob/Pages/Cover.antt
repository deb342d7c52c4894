-- ===== src/StorageBlob/Pages/Cover.antt =====
-- What the ranges of a page blob cover.
use terraform_provider_azure.Base.{
  ℕ, zero, suc, ◌+◌, ◌*◌, ◌%◌, ◌/◌, ◌≤◌, ◌<◌, ◌≡◌, refl, inl, inr, true, false, some, List, [],
  arith, if◌then◌else◌, Bool-cases, Str, All, ok, ◌∙◌,
}
use terraform_provider_azure.StorageBlob.Pages.{skip_page, add_page, page_loop, page_split}
use terraform_provider_azure.StorageBlob.Pages.Passes.{
  covered, IsRange, IsRunning, pending, pending-end, pending-start, skip_page-IsRunning,
  add_page-IsRunning, skip_page-covered, add_page-covered, skip_page-All, add_page-All,
}
use terraform_provider_azure.StorageBlob.Model.{
  File, ByteRange, min_page_size, is_empty_page, rounded_size,
}

module _ (left : ℕ) (file : File) (blob_size i : ℕ) (current : ByteRange) (ranges : List ByteRange)
    (page : Str) where
  page_loop_empty :
      file.read_at i min_page_size ≡ some page
      → is_empty_page page ≡ true
      → page_loop (suc left) file blob_size i current ranges
        ≡ page_loop left file blob_size
            (i + min_page_size)
            (skip_page i current ranges).0
            (skip_page i current ranges).1
  unfolding page_loop
  page_loop_empty reads empty = rw (reads, page_loop, empty) refl

  page_loop_full :
      file.read_at i min_page_size ≡ some page
      → is_empty_page page ≡ false
      → page_loop (suc left) file blob_size i current ranges
        ≡ page_loop left file blob_size
            (i + min_page_size)
            (add_page blob_size i current ranges).0
            (add_page blob_size i current ranges).1
  unfolding page_loop
  page_loop_full reads full = rw (reads, page_loop, full) refl

-- The loop returns, if the pages can be read; its ranges hold what was pending, and are valid.
page_loop_lem :
    (file : File) (content : ℕ → Str)
    → ((i : ℕ) → file.read_at i min_page_size ≡ some (content i))
    → (left blob_size i : ℕ) (current : ByteRange) (ranges : List ByteRange)
    → IsRunning left blob_size i current
    → All (IsRange blob_size) ranges
    → (out : List ByteRange) × (page_loop left file blob_size i current ranges ≡ ok out)
      × All (IsRange blob_size) out
      × ((x : ℕ)
          → x % min_page_size ≡ 0
          → covered x out ≡ covered x ranges + pending content blob_size i current x)
unfolding page_loop
page_loop_lem file content reads zero blob_size i current ranges h valid =
    (ranges, refl, valid, λ x aligned. pending-end content blob_size i current ranges x h)
page_loop_lem file content reads (suc left) blob_size i current ranges h valid =
    elim (Bool-cases (is_empty_page (content i))) [
      | inl empty ↦
          let (out, runs, fine, holds) =
            page_loop_lem file content reads left blob_size (i + min_page_size) _ _
              (skip_page-IsRunning left blob_size i current ranges h)
              (skip_page-All left blob_size i current ranges h valid) in
          (
            out,
            page_loop_empty left file blob_size i current ranges (content i) (reads i) empty ∙ runs,
            fine,
            λ x aligned.
                holds x aligned
                ∙ skip_page-covered content left blob_size i current ranges x h empty aligned,
          )
      | inr full ↦
          let (out, runs, fine, holds) =
            page_loop_lem file content reads left blob_size (i + min_page_size) _ _
              (add_page-IsRunning left blob_size i current ranges h)
              (add_page-All left blob_size i current ranges h valid) in
          (
            out,
            page_loop_full left file blob_size i current ranges (content i) (reads i) full ∙ runs,
            fine,
            λ x aligned.
                holds x aligned
                ∙ add_page-covered content left blob_size i current ranges x h full aligned,
          )
    ]

rounded_size-whole :
    (size : ℕ) → min_page_size * (rounded_size size / min_page_size) ≡ rounded_size size
unfolding rounded_size
rounded_size-whole size = ground arith

rounded_size-least :
    (size : ℕ) → (size ≤ rounded_size size) × (rounded_size size < size + min_page_size)
unfolding rounded_size
rounded_size-least size = ground arith

first-IsRunning :
    (size : ℕ)
    → IsRunning
        (rounded_size size / min_page_size)
        (rounded_size size)
        0
        (record { offset = 0; length_ = 0 })
first-IsRunning size = record {
  here = refl;
  rest = omega (arith, rounded_size-whole size);
  room = omega arith;
  start = refl;
  whole = refl;
  last = inr refl;
}

page_split_of_loop :
    (file : File) (size : ℕ) (out : List ByteRange)
    → file.stat ≡ some size
    → page_loop
        (rounded_size size / min_page_size)
        file
        (rounded_size size)
        0
        (record { offset = 0; length_ = 0 })
        []
      ≡ ok out
    → page_split file ≡ ok (size, out)
unfolding page_split
page_split_of_loop file size out stat runs = ground arith

-- The split of a file whose pages can be read returns the file's size and ranges of whole pages, each
-- of 4 KiB to 4 MiB and inside the size rounded up to pages. A page below that size is in exactly one
-- range if it holds a byte that is not zero, and in none if it does not.
pub page_split-covers :
    (file : File) (size : ℕ) (content : ℕ → Str)
    → file.stat ≡ some size
    → ((i : ℕ) → file.read_at i min_page_size ≡ some (content i))
    → (ranges : List ByteRange) × (page_split file ≡ ok (size, ranges))
      × All (IsRange (rounded_size size)) ranges
      × ((page : ℕ)
          → min_page_size * page < rounded_size size
          → covered (min_page_size * page) ranges
            ≡ (if is_empty_page (content (min_page_size * page)) then 0 else 1))
unfolding page_split
page_split-covers file size content stat reads =
    let (out, runs, fine, holds) =
      page_loop_lem file content reads _ _ _ _ [] (first-IsRunning size) tt in
    (
      out,
      page_split_of_loop file size out stat runs,
      fine,
      λ page below.
          holds (min_page_size * page) (omega arith)
          ∙ pending-start content (rounded_size size) (min_page_size * page) below,
    )
