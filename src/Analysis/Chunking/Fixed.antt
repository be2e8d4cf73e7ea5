-- ===== src/Analysis/Chunking/Fixed.antt =====
-- `chunk_fixed_high_entropy` and its variant with a checkpoint. The loop runs on fuel, and the
-- number of blocks that the code computes beforehand is enough of it.
pub mod Blocks
pub mod Total
use pithos.Prelude.{
  ℕ, zero, suc, ◌+◌, ◌-◌, ◌/◌, min, Bool, true, false, Option, none, some, List, [], ltb, leb, ◌==◌,
  if◌then◌else◌,
}
use pithos.Core.{Result, ok, ◌>>=◌, ◌>>◌, ok_or, integer_overflow}
use pithos.Core.Checked.{checked_add, checked_sub}
use pithos.Analysis.Chunking.{
  FastCdcCrate, ChunkingConfig, ChunkOrigin, LogicalChunkDraft, fixed_high_entropy, validate_config,
  ensure_logical_size, ensure_chunk_count, push_relative_chunk,
}
use pithos.Analysis.Chunking.Coverage.{validate_chunk_coverage_with_checkpoint, no_checkpoint}

-- `u64::checked_div`
abbrev pub checked_div : ℕ → ℕ → Option ℕ
checked_div a b = if b == 0 then none else some (a / b)

-- The chain of `checked_sub`, `checked_div` and `checked_add`.
abbrev pub block_count : ℕ → ℕ → Result ℕ
block_count logical_size block_size = do
  below ← ok_or (checked_sub logical_size 1) integer_overflow
  full ← ok_or (checked_div below block_size) integer_overflow
  ok_or (checked_add full 1) integer_overflow

module _ {S : Type 0} (checkpoint : S → Result S) where
  -- The `while` loop: fuel, the relative offset, the chunks so far, the checkpoint's state.
  unfoldable pub fixed_loop :
      ChunkOrigin
      → ChunkingConfig
      → ℕ
      → ℕ
      → ℕ
      → List LogicalChunkDraft
      → S
      → Result (List LogicalChunkDraft × S)
  fixed_loop origin config logical_size zero relative_offset chunks s = ok (chunks, s)
  fixed_loop origin config logical_size (suc fuel) relative_offset chunks s =
      if ltb relative_offset logical_size
      then (checkpoint s >>= λ s1.
          let len = min (logical_size - relative_offset) config.high_entropy_fixed in
          push_relative_chunk chunks origin relative_offset len fixed_high_entropy config.max_chunks
          >>= λ next_chunks.
              ok_or (checked_add relative_offset len) integer_overflow >>= λ next_offset.
              fixed_loop origin config logical_size fuel next_offset next_chunks s1)
      else ok (chunks, s)

  unfoldable pub chunk_fixed_high_entropy_with_checkpoint :
      FastCdcCrate → ℕ → ChunkOrigin → ChunkingConfig → S → Result (List LogicalChunkDraft × S)
  chunk_fixed_high_entropy_with_checkpoint crate logical_size origin config s = do
    validate_config crate config
    ensure_logical_size logical_size config
    last ← ok_or (checked_add origin.base_offset logical_size) integer_overflow
    if logical_size == 0
        then ok ([], s)
        else (block_count logical_size config.high_entropy_fixed >>= λ chunk_count.
            ensure_chunk_count chunk_count config.max_chunks
            >> (fixed_loop origin config logical_size chunk_count 0 [] s >>= λ (chunks, s1).
                validate_chunk_coverage_with_checkpoint checkpoint chunks origin logical_size s1
                >>= λ s2. ok (chunks, s2)))

unfoldable pub chunk_fixed_high_entropy :
    FastCdcCrate → ℕ → ChunkOrigin → ChunkingConfig → Result (List LogicalChunkDraft)
chunk_fixed_high_entropy crate logical_size origin config = do
  (chunks, s) ←
      chunk_fixed_high_entropy_with_checkpoint no_checkpoint crate logical_size origin config tt
  ok chunks
