-- ===== src/StorageBlob/Pages/Passes.antt =====
-- What one pass of the split into pages does to the ranges, and to what they cover.
use terraform_provider_azure.Base.{
  ℕ, suc, ◌+◌, ◌*◌, ◌%◌, ◌≤◌, ◌<◌, ◌≡◌, refl, ◌⊎◌, inl, inr, true, false, not, ◌&&◌, ◌||◌, List, [],
  ◌∷◌, ◌++◌, arith, ◌==◌, ltb, leb, if◌then◌else◌, Bool-cases, Str, All, All-append, ap,
}
use terraform_provider_azure.StorageBlob.Pages.{skip_page, add_page}
use terraform_provider_azure.StorageBlob.Model.{
  ByteRange, min_page_size, max_page_size, is_empty_page,
}

-- How many of the ranges hold the byte.
unfoldable pub covered : ℕ → List ByteRange → ℕ
covered x [] = 0
covered x (r ∷ rs) =
    let rest = covered x rs in
    if leb r.offset x && ltb x (r.offset + r.length_) then suc rest else rest

covered-append :
    (x : ℕ) (rs qs : List ByteRange) → covered x (rs ++ qs) ≡ covered x rs + covered x qs
unfolding covered
covered-append x [] qs = omega arith
covered-append x (r ∷ rs) qs = ground (arith, covered-append x rs qs)

-- The ranges that may be uploaded: whole pages, up to 4 MiB of them, inside the blob.
abbrev pub IsRange : ℕ → ByteRange → Type 0
IsRange blob_size r =
    (r.offset % min_page_size ≡ 0)
    × (r.length_ % min_page_size ≡ 0)
    × (1 ≤ r.length_)
    × (r.length_ ≤ max_page_size)
    × (r.offset + r.length_ ≤ blob_size)

-- How often a byte at the start of a page is in the ranges that are still to come: once for a byte of
-- the current range, once for a page ahead that is not empty.
unfoldable pub pending : (ℕ → Str) → ℕ → ℕ → ByteRange → ℕ → ℕ
pending content blob_size i current x =
    if leb current.offset x && ltb x i
    then 1
    else if leb i x && ltb x blob_size && not (is_empty_page (content x))
    then 1
    else 0

-- What holds at every pass.
pub record IsRunning (left blob_size i : ℕ) (current : ByteRange) : Type 0 where
  pub here : i ≡ current.offset + current.length_
  pub rest : i + min_page_size * left ≡ blob_size
  pub room : current.length_ < max_page_size
  pub start : current.offset % min_page_size ≡ 0
  pub whole : current.length_ % min_page_size ≡ 0
  pub last : (1 ≤ left) ⊎ (current.length_ ≡ 0)

pub skip_page-IsRunning :
    (left blob_size i : ℕ) (current : ByteRange) (ranges : List ByteRange)
    → IsRunning (suc left) blob_size i current
    → IsRunning left blob_size (i + min_page_size) (skip_page i current ranges).0
unfolding skip_page
skip_page-IsRunning left blob_size i current ranges h = record {
  here = omega arith;
  rest = omega (arith, h.rest);
  room = omega arith;
  start = omega (arith, h.here, h.start, h.whole);
  whole = omega arith;
  last = inr refl;
}

pub add_page-IsRunning :
    (left blob_size i : ℕ) (current : ByteRange) (ranges : List ByteRange)
    → IsRunning (suc left) blob_size i current
    → IsRunning left blob_size (i + min_page_size) (add_page blob_size i current ranges).0
unfolding add_page
add_page-IsRunning left blob_size i current ranges h = record {
  here = ground (arith, h.here);
  rest = omega (arith, h.rest);
  room = ground (arith, h.here, h.room, h.whole);
  start = ground (arith, h.here, h.start, h.whole);
  whole = ground (arith, h.here, h.start, h.whole);
  last = ground (arith, h.here, h.rest);
}

module _ (content : ℕ → Str) where
  same_page : (x i : ℕ) → x ≡ i → is_empty_page (content x) ≡ is_empty_page (content i)
  same_page x i e = ap (λ y. is_empty_page (content y)) e

  pub skip_page-covered :
      (left blob_size i : ℕ) (current : ByteRange) (ranges : List ByteRange) (x : ℕ)
      → IsRunning (suc left) blob_size i current
      → is_empty_page (content i) ≡ true
      → x % min_page_size ≡ 0
      → covered x (skip_page i current ranges).1
          + pending content blob_size (i + min_page_size) (skip_page i current ranges).0 x
        ≡ covered x ranges + pending content blob_size i current x
  unfolding skip_page covered pending
  skip_page-covered left blob_size i current ranges x h empty aligned = ground (
    arith,
    h.here,
    h.rest,
    h.start,
    h.whole,
    covered-append x ranges (current ∷ []),
    same_page x i,
  )

  pub add_page-covered :
      (left blob_size i : ℕ) (current : ByteRange) (ranges : List ByteRange) (x : ℕ)
      → IsRunning (suc left) blob_size i current
      → is_empty_page (content i) ≡ false
      → x % min_page_size ≡ 0
      → covered x (add_page blob_size i current ranges).1
          + pending content blob_size (i + min_page_size) (add_page blob_size i current ranges).0 x
        ≡ covered x ranges + pending content blob_size i current x
  unfolding add_page covered pending
  add_page-covered left blob_size i current ranges x h full aligned = ground (
    arith,
    h.here,
    h.rest,
    h.start,
    h.whole,
    covered-append x ranges
        (record { offset = current.offset; length_ = current.length_ + min_page_size } ∷ []),
    same_page x i,
  )

module _ (content : ℕ → Str) where
  pub pending-end :
      (blob_size i : ℕ) (current : ByteRange) (ranges : List ByteRange) (x : ℕ)
      → IsRunning 0 blob_size i current
      → covered x ranges ≡ covered x ranges + pending content blob_size i current x
  unfolding pending
  pending-end blob_size i current ranges x h = ground (arith, h.here, h.rest, h.last)

  pub pending-start :
      (blob_size x : ℕ)
      → x < blob_size
      → covered x [] + pending content blob_size 0 (record { offset = 0; length_ = 0 }) x
        ≡ (if is_empty_page (content x) then 0 else 1)
  unfolding pending covered
  pending-start blob_size x h = ground arith

pub skip_page-All :
    (left blob_size i : ℕ) (current : ByteRange) (ranges : List ByteRange)
    → IsRunning (suc left) blob_size i current
    → All (IsRange blob_size) ranges
    → All (IsRange blob_size) (skip_page i current ranges).1
unfolding skip_page
skip_page-All left blob_size i current ranges h valid = elim (Bool-cases (current.length_ == 0)) [
  | inl none_yet ↦ rw none_yet valid
  | inr some_yet ↦ rw some_yet (
      All-append (IsRange blob_size) ranges _ valid (
        (h.start, h.whole, ground arith, omega (arith, h.room), omega (arith, h.here, h.rest)),
        tt,
      ))
]

pub add_page-All :
    (left blob_size i : ℕ) (current : ByteRange) (ranges : List ByteRange)
    → IsRunning (suc left) blob_size i current
    → All (IsRange blob_size) ranges
    → All (IsRange blob_size) (add_page blob_size i current ranges).1
unfolding add_page
add_page-All left blob_size i current ranges h valid =
    elim (Bool-cases (
      current.length_ + min_page_size == max_page_size
      || current.offset + (current.length_ + min_page_size) == blob_size)) [
        | inl ends ↦ rw ends (
            All-append (IsRange blob_size) ranges _ valid (
              (
                h.start,
                omega (arith, h.whole),
                omega arith,
                omega (arith, h.room, h.whole),
                omega (arith, h.here, h.rest),
              ),
              tt,
            ))
        | inr goes_on ↦ rw goes_on valid
      ]
