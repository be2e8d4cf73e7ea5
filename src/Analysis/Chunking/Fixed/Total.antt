-- ===== src/Analysis/Chunking/Fixed/Total.antt =====
-- `chunk_fixed_high_entropy` succeeds whenever its guards let the object in.
use pithos.Prelude.{
  append_nil, append_assoc, ℕ, zero, suc, ◌+◌, ◌-◌, ◌*◌, ◌/◌, ◌≤◌, ◌<◌, min, ◌≡◌, refl, subst, sym,
  ap, ◌∙◌, true, false, List, [], ◌∷◌, ◌++◌, arith, length, length-append, ltb, leb, ◌==◌,
}
use pithos.Core.{ok}
use pithos.Core.Checked.{u32_end, u64_end}
use pithos.Analysis.Chunking.{
  mib, FastCdcCrate, ChunkingConfig, ChunkOrigin, LogicalChunkDraft, fixed_high_entropy,
  validate_config, push_relative_chunk,
}
use pithos.Analysis.Chunking.Coverage.{no_checkpoint}
use pithos.Analysis.Chunking.Coverage.Exact.{Tiles, Tiles-accepted}
use pithos.Analysis.Chunking.Fixed.{
  block_count, fixed_loop, chunk_fixed_high_entropy_with_checkpoint, chunk_fixed_high_entropy,
}
use pithos.Analysis.Chunking.Fixed.Blocks.{
  fixed_draft, blocks, AreBlocks, Rounds, count_Rounds, Rounds-le, blocks-Tiles, blocks-AreBlocks,
}

push_fits :
    (chunks : List LogicalChunkDraft) (o : ChunkOrigin) (offset len max_chunks : ℕ)
    → length chunks + 1 ≤ max_chunks
    → length chunks + 1 < u64_end
    → 0 < len
    → len < u32_end
    → o.base_offset + offset + len < u64_end
    → push_relative_chunk chunks o offset len fixed_high_entropy max_chunks
      ≡ ok (chunks ++ (fixed_draft o offset len ∷ []))
unfolding push_relative_chunk
push_fits chunks o offset len max_chunks count fits filled short end = ground arith

fixed_loop-step :
    (o : ChunkOrigin) (config : ChunkingConfig) (size n offset : ℕ)
    (chunks : List LogicalChunkDraft) (len : ℕ)
    → len ≡ min (size - offset) config.high_entropy_fixed
    → offset < size
    → 0 < config.high_entropy_fixed
    → config.high_entropy_fixed < u32_end
    → length chunks + 1 ≤ config.max_chunks
    → length chunks + 1 < u64_end
    → o.base_offset + size < u64_end
    → fixed_loop no_checkpoint o config size (suc n) offset chunks tt
      ≡ fixed_loop no_checkpoint o config size n
          (offset + len)
          (chunks ++ (fixed_draft o offset len ∷ []))
          tt
unfolding fixed_loop
fixed_loop-step o config size n offset chunks len is_len more block short count fits end =
    let goes_on : ltb offset size ≡ true = ground arith in
    let next_fits : ltb (offset + len) u64_end ≡ true = ground arith in
    let pushed =
      push_fits chunks o offset len config.max_chunks count fits (omega arith) (omega arith)
        (omega arith) in
    rw (goes_on, sym is_len, pushed, next_fits) refl

fixed_loop-blocks :
    (o : ChunkOrigin) (config : ChunkingConfig) (size n offset : ℕ)
    (chunks : List LogicalChunkDraft)
    → offset ≤ size
    → 0 < config.high_entropy_fixed
    → config.high_entropy_fixed < u32_end
    → length chunks + n ≤ config.max_chunks
    → length chunks + n < u64_end
    → o.base_offset + size < u64_end
    → Rounds config.high_entropy_fixed n (size - offset)
    → fixed_loop no_checkpoint o config size n offset chunks tt
      ≡ ok (chunks ++ blocks o config.high_entropy_fixed size n offset, tt)
fixed_loop-blocks o config size zero offset chunks le block short count fits end h =
    unfold fixed_loop in ap (λ row. ok (row, tt)) (sym (append_nil chunks))
fixed_loop-blocks o config size (suc n) offset chunks le block short count fits end (more, rest) =
    let len = min (size - offset) config.high_entropy_fixed in
    let c = fixed_draft o offset len in
    let grown = length-append chunks (c ∷ []) in
    let ih =
      fixed_loop-blocks o config size n (offset + len) (chunks ++ (c ∷ [])) (omega arith) block
        short (omega arith) (omega arith) end
        (subst (Rounds config.high_entropy_fixed n) (omega arith) rest) in
    fixed_loop-step o config size n offset chunks len refl (omega arith) block short (omega arith)
      (omega arith) end
    ∙ ih
    ∙ ap (λ row. ok (row, tt))
        (append_assoc chunks (c ∷ []) (blocks o config.high_entropy_fixed size n (offset + len)))

validate_config_block :
    (crate : FastCdcCrate) (config : ChunkingConfig)
    → validate_config crate config ≡ ok tt
    → (mib ≤ config.high_entropy_fixed) × (config.high_entropy_fixed ≤ 4 * mib)
unfolding validate_config
validate_config_block crate config q = ground arith

minus_zero : (n : ℕ) → n ≡ n - 0
minus_zero n = omega arith

block_count_lem :
    (size block : ℕ)
    → 0 < size
    → 0 < block
    → (size - 1) / block + 1 < u64_end
    → block_count size block ≡ ok ((size - 1) / block + 1)
block_count_lem size block more filled fits =
    let one : leb 1 size ≡ true = ground arith in
    let divides : (block == 0) ≡ false = ground arith in
    let sum_fits : ltb ((size - 1) / block + 1) u64_end ≡ true = ground arith in
    rw (one, divides, sum_fits) refl

-- With a valid configuration, an object of at most the permitted size, whose end is a `u64` and whose
-- blocks are at most the permitted number, is cut without an error. The chunks tile the object, all of
-- the block size but the last, which has at most that.
pub chunk_fixed_high_entropy_total :
    (crate : FastCdcCrate) (size : ℕ) (origin : ChunkOrigin) (config : ChunkingConfig)
    → validate_config crate config ≡ ok tt
    → 0 < size
    → size ≤ config.max_logical_bytes
    → origin.base_offset + size < u64_end
    → (size - 1) / config.high_entropy_fixed + 1 ≤ config.max_chunks
    → (chunks : List LogicalChunkDraft) × (chunk_fixed_high_entropy crate size origin config
        ≡ ok chunks)
      × Tiles origin origin.base_offset (origin.base_offset + size) chunks
      × AreBlocks config.high_entropy_fixed chunks
unfolding chunk_fixed_high_entropy chunk_fixed_high_entropy_with_checkpoint
chunk_fixed_high_entropy_total crate size origin config valid more permitted fits count =
    let (low, high) = validate_config_block crate config valid in
    let block = config.high_entropy_fixed in
    let n = (size - 1) / block + 1 in
    let chunks = blocks origin block size n 0 in
    let exact = count_Rounds block size (omega arith) more in
    let from_start = subst (Rounds block n) (minus_zero size) exact in
    let n_le = Rounds-le block n size (omega arith) exact in
    let run =
      fixed_loop-blocks origin config size n 0 [] (omega arith) (omega arith) (omega arith)
        (omega arith) (omega arith) fits from_start in
    let tiles =
      blocks-Tiles origin block size n 0 origin.base_offset (omega arith) (omega arith)
        (omega arith) from_start in
    let covered = Tiles-accepted chunks origin size more fits tiles in
    let small : ltb config.max_logical_bytes size ≡ false = ground arith in
    let end_fits : ltb (origin.base_offset + size) u64_end ≡ true = ground arith in
    let filled : (size == 0) ≡ false = ground arith in
    let counted = block_count_lem size block more (omega arith) (omega arith) in
    let few : ltb config.max_chunks n ≡ false = ground arith in
    (
      chunks,
      rw (valid, small, end_fits, filled, counted, few, run, covered) refl,
      tiles,
      blocks-AreBlocks origin block size n 0 (omega arith) (omega arith) from_start,
    )
