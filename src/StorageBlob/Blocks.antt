-- ===== src/StorageBlob/Blocks.antt =====
-- `resourceArmStorageBlobBlockSplit` of azurerm/resource_arm_storage_blob.go: the blocks of a block blob.
-- The source of randomness and the base64 encoding are the standard library's, and parameters.
use terraform_provider_azure.Base.{
  ℕ, zero, suc, ◌+◌, ◌-◌, ◌*◌, ◌/◌, ◌≤◌, ◌<◌, ◌≡◌, refl, inl, inr, true, false, Option, none, some,
  List, [], ◌∷◌, ◌++◌, map, append_assoc, append-nil, arith, ltb, if◌then◌else◌, Bool-cases, Str,
  Outcome, ok, err, ◌∙◌,
}
use terraform_provider_azure.StorageBlob.Model.{
  File, SplitError, no_stat, no_entropy, ByteRange, block_size,
}

-- `resourceArmStorageBlobBlock`
pub record Block : Type 0 where
  pub section : ByteRange
  pub id : Str

-- The section and the ID of the block at `i`.
unfoldable pub block_at : (Str → Str) → ℕ → ℕ → Str → Block
block_at encode size i random = record {
  section = record {
    offset = i;
    length_ = if ltb (size - i) block_size then size - i else block_size;
  };
  id = encode random;
}

module _ (encode : Str → Str) (entropy : ℕ → Option Str) where
  -- The loop over the file, on fuel; `n` counts the calls of `rand.Read`. The block list holds the IDs.
  unfoldable pub block_loop :
      ℕ → ℕ → ℕ → ℕ → List Str → List Block → Outcome SplitError (List Str × List Block)
  unfolding block_at
  block_loop zero size i n ids parts = ok (ids, parts)
  block_loop (suc fuel) size i n ids parts = elim (ltb i size) [
    | false ↦ ok (ids, parts)
    | true ↦ elim (entropy n) [
      | none ↦ err no_entropy
      | some random ↦
          block_loop fuel size (i + block_size) (n + 1) (ids ++ encode random ∷ [])
            (parts ++ block_at encode size i random ∷ [])
    ]
  ]

  unfoldable pub block_split : File → Outcome SplitError (List Str × List Block)
  unfolding block_loop
  block_split file = elim file.stat [
    | none ↦ err no_stat
    | some size ↦ block_loop (size / block_size + 1) size 0 0 [] []
  ]

-- The blocks follow each other from `i` to the end of the file, each of one byte to 4 MiB.
abbrev pub IsTiling : ℕ → ℕ → List Block → Type 0
IsTiling size i [] = i ≡ size
IsTiling size i (b ∷ bs) =
    (b.section.offset ≡ i)
    × (1 ≤ b.section.length_)
    × (b.section.length_ ≤ block_size)
    × IsTiling size (i + b.section.length_) bs

abbrev pub ids_of_blocks : List Block → List Str
ids_of_blocks = map (λ b. b.id)

module _ (encode : Str → Str) (entropy : ℕ → Option Str) (random : ℕ → Str)
    (given : (n : ℕ) → entropy n ≡ some (random n)) (size : ℕ) where
  last_block :
      (i : ℕ) (r : Str)
      → ltb i size ≡ true
      → ltb size (i + block_size) ≡ true
      → IsTiling size i (block_at encode size i r ∷ [])
  unfolding block_at
  last_block i r inside last = ground arith

  full_block :
      (i : ℕ) (r : Str) (bs : List Block)
      → ltb size (i + block_size) ≡ false
      → IsTiling size (i + block_size) bs
      → IsTiling size i (block_at encode size i r ∷ bs)
  unfolding block_at
  full_block i r bs more tiling =
      let full : ltb (size - i) block_size ≡ false = ground arith in
      rw full (refl, omega arith, omega arith, tiling)

  block_loop_next :
      (fuel i n : ℕ) (ids : List Str) (parts : List Block)
      → ltb i size ≡ true
      → block_loop encode entropy (suc fuel) size i n ids parts
        ≡ block_loop encode entropy fuel size
            (i + block_size)
            (n + 1)
            (ids ++ encode (random n) ∷ [])
            (parts ++ block_at encode size i (random n) ∷ [])
  unfolding block_loop
  block_loop_next fuel i n ids parts inside = rw (inside, block_loop, given n) refl

  block_loop_end :
      (fuel i n : ℕ) (ids : List Str) (parts : List Block)
      → size ≤ i
      → block_loop encode entropy fuel size i n ids parts ≡ ok (ids, parts)
  unfolding block_loop
  block_loop_end zero i n ids parts past = refl
  block_loop_end (suc fuel) i n ids parts past = ground arith

  block_loop_lem :
      (fuel i n : ℕ) (ids : List Str) (parts : List Block)
      → i ≤ size
      → size < i + block_size * fuel
      → (bs : List Block) × (block_loop encode entropy fuel size i n ids parts
          ≡ ok (ids ++ ids_of_blocks bs, parts ++ bs))
        × IsTiling size i bs
  unfolding block_at
  block_loop_lem zero i n ids parts below enough = absurd (omega arith)
  block_loop_lem (suc fuel) i n ids parts below enough = elim (Bool-cases (ltb i size)) [
    | inr at_end ↦
        ([], block_loop_end (suc fuel) i n ids parts (ground arith) ∙ simp append-nil, ground arith)
    | inl inside ↦
        let b = block_at encode size i (random n) in
        elim (Bool-cases (ltb size (i + block_size))) [
          | inl last ↦ (
            b ∷ [],
            block_loop_next fuel i n ids parts inside
                ∙ block_loop_end fuel (i + block_size) (n + 1) _ _ (ground arith),
            last_block i (random n) inside last,
          )
          | inr more ↦
              let (bs, runs, tiling) =
                block_loop_lem fuel (i + block_size) (n + 1) (ids ++ encode (random n) ∷ [])
                  (parts ++ b ∷ []) (ground arith) (omega (arith, enough)) in
              (
                b ∷ bs,
                block_loop_next fuel i n ids parts inside ∙ runs ∙ simp append_assoc,
                full_block i (random n) bs more tiling,
              )
        ]
  ]

block_split_of_loop :
    (encode : Str → Str) (entropy : ℕ → Option Str) (file : File) (size : ℕ)
    (out : List Str × List Block)
    → file.stat ≡ some size
    → block_loop encode entropy (size / block_size + 1) size 0 0 [] [] ≡ ok out
    → block_split encode entropy file ≡ ok out
unfolding block_split
block_split_of_loop encode entropy file size out stat runs = ground arith

-- The split of a file returns, if the randomness does: the blocks follow each other from the start of the
-- file to its end, each of one byte to 4 MiB, and the block list holds their IDs in the same order.
pub block_split-tiles :
    (encode : Str → Str) (entropy : ℕ → Option Str) (random : ℕ → Str) (file : File) (size : ℕ)
    → ((n : ℕ) → entropy n ≡ some (random n))
    → file.stat ≡ some size
    → (bs : List Block) × (block_split encode entropy file ≡ ok (ids_of_blocks bs, bs))
      × IsTiling size 0 bs
unfolding block_split
block_split-tiles encode entropy random file size given stat =
    let (bs, runs, tiling) =
      block_loop_lem encode entropy random given size (size / block_size + 1) 0 0 [] []
        (omega arith) (omega arith) in
    (bs, block_split_of_loop encode entropy file size _ stat runs, tiling)
