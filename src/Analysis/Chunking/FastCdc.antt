-- ===== src/Analysis/Chunking/FastCdc.antt =====
-- `chunk_fastcdc` and its variant with a checkpoint: FastCDC over bytes in memory.
use pithos.Prelude.{subst, ℕ, ◌+◌, ◌<◌, ◌≡◌, List, [], ◌∷◌, length}
use pithos.Core.{Result, ok, ◌>>=◌, ◌>>◌, bind-inv, ok_or, integer_overflow}
use pithos.Core.Checked.{checked_add}
use pithos.Analysis.Chunking.{
  fastcdc_seed, CutChunk, FastCdcCrate, ChunkingConfig, ChunkOrigin, LogicalChunkDraft,
  fast_cdc_v2020, validate_config, ensure_logical_size, push_relative_chunk,
}
use pithos.Analysis.Chunking.Coverage.{validate_chunk_coverage_with_checkpoint, no_checkpoint}
use pithos.Analysis.Chunking.Coverage.Exact.{Tiles, validate_chunk_coverage-Tiles}

module _ {S : Type 0} (checkpoint : S → Result S) where
  -- The loop over what the chunker yields.
  unfoldable pub fastcdc_loop :
      ChunkOrigin
      → ChunkingConfig
      → List CutChunk
      → List LogicalChunkDraft
      → S
      → Result (List LogicalChunkDraft × S)
  fastcdc_loop origin config [] chunks s = ok (chunks, s)
  fastcdc_loop origin config (chunk ∷ rest) chunks s = do
    s1 ← checkpoint s
    next_chunks ←
        push_relative_chunk chunks origin chunk.offset chunk.length fast_cdc_v2020 config.max_chunks
    fastcdc_loop origin config rest next_chunks s1

  unfoldable pub chunk_fastcdc_with_checkpoint :
      FastCdcCrate → List ℕ → ChunkOrigin → ChunkingConfig → S → Result (List LogicalChunkDraft × S)
  chunk_fastcdc_with_checkpoint crate bytes origin config s = do
    validate_config crate config
    ensure_logical_size (length bytes) config
    last ← ok_or (checked_add origin.base_offset (length bytes)) integer_overflow
    (chunks, s1) ←
        fastcdc_loop origin config
          (crate.cut bytes config.fastcdc_min config.fastcdc_avg config.fastcdc_max fastcdc_seed) []
          s
    s2 ← validate_chunk_coverage_with_checkpoint checkpoint chunks origin (length bytes) s1
    ok (chunks, s2)

  -- Whatever the crate yields and the checkpoint does, chunks that come back for an input that is not
  -- empty tile it.
  pub chunk_fastcdc-Tiles :
      (crate : FastCdcCrate) (bytes : List ℕ) (origin : ChunkOrigin) (config : ChunkingConfig)
      (s : S) {chunks : List LogicalChunkDraft} {done : S}
      → 0 < length bytes
      → chunk_fastcdc_with_checkpoint crate bytes origin config s ≡ ok (chunks, done)
      → Tiles origin origin.base_offset (origin.base_offset + length bytes) chunks
  unfolding chunk_fastcdc_with_checkpoint
  chunk_fastcdc-Tiles crate bytes origin config s {chunks = chunks} {done = done} more q =
      let (u1, h1, q1) = bind-inv (validate_config crate config) _ q in
      let (u2, h2, q2) = bind-inv (ensure_logical_size (length bytes) config) _ q1 in
      let (last, h3, q3) =
        bind-inv (ok_or (checked_add origin.base_offset (length bytes)) integer_overflow) _ q2 in
      let (found, h4, q4) =
        bind-inv
          (fastcdc_loop origin config
            (crate.cut bytes config.fastcdc_min config.fastcdc_avg config.fastcdc_max fastcdc_seed)
            [] s)
          _ q3 in
      let (s2, covered, q5) =
        bind-inv
          (validate_chunk_coverage_with_checkpoint checkpoint found.0 origin (length bytes) found.1)
          _ q4 in
      let same : found.0 ≡ chunks = cc in
      subst (Tiles origin origin.base_offset (origin.base_offset + length bytes)) same
        (validate_chunk_coverage-Tiles checkpoint found.0 origin (length bytes) found.1 more
          covered).0

unfoldable pub chunk_fastcdc :
    FastCdcCrate → List ℕ → ChunkOrigin → ChunkingConfig → Result (List LogicalChunkDraft)
chunk_fastcdc crate bytes origin config = do
  (chunks, s) ← chunk_fastcdc_with_checkpoint no_checkpoint crate bytes origin config tt
  ok chunks
