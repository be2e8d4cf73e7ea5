-- ===== src/Analysis/Chunking/Structural.antt =====
-- `chunk_structural` and its variant with a checkpoint: the regions that a scanner found, each a chunk
-- or cut by FastCDC on its own.
pub mod Regions
pub mod Uncrossed
use pithos.Prelude.{
  ℕ, ◌+◌, ◌-◌, ◌!=◌, Bool, true, false, ◌||◌, List, [], ◌∷◌, ◌++◌, length, take, drop, ltb, leb,
  ◌==◌, if◌then◌else◌,
}
use pithos.Core.{
  Result, ok, err, ◌>>=◌, ◌>>◌, bail_if, ok_or, invalid_metadata, integer_overflow, resource_limit,
}
use pithos.Core.Checked.{checked_add, checked_sub}
use pithos.Analysis.Chunking.{
  FastCdcCrate, ChunkingConfig, ChunkOrigin, LogicalChunkDraft, structural, validate_config,
  ensure_logical_size, ensure_chunk_count, push_relative_chunk,
}
use pithos.Analysis.Chunking.Coverage.{validate_chunk_coverage_with_checkpoint, no_checkpoint}
use pithos.Analysis.Chunking.FastCdc.{chunk_fastcdc_with_checkpoint}

-- `boundary_ends.last().copied() != Some(logical_size)`, and true of no boundary at all.
abbrev pub ends_elsewhere : List ℕ → ℕ → Bool
ends_elsewhere [] size = true
ends_elsewhere (b ∷ []) size = b != size
ends_elsewhere (b ∷ c ∷ bs) size = ends_elsewhere (c ∷ bs) size

abbrev pub set_structural : LogicalChunkDraft → LogicalChunkDraft
set_structural chunk = record chunk { method = structural }

module _ {S : Type 0} (checkpoint : S → Result S) where
  -- The loop over the boundaries.
  unfoldable pub boundary_loop : ℕ → ℕ → List ℕ → S → Result S
  boundary_loop logical_size previous [] s = ok s
  boundary_loop logical_size previous (boundary ∷ boundaries) s = do
    s1 ← checkpoint s
    bail_if (leb boundary previous || ltb logical_size boundary)
        (invalid_metadata "structural boundaries")
    boundary_loop logical_size boundary boundaries s1

  unfoldable pub validate_boundary_ends : List ℕ → ℕ → S → Result S
  validate_boundary_ends boundary_ends logical_size s = do
    bail_if (ends_elsewhere boundary_ends logical_size) (invalid_metadata "structural boundaries")
    boundary_loop logical_size 0 boundary_ends s

  -- The loop that takes over the chunks of a region.
  unfoldable pub take_over :
      List LogicalChunkDraft → List LogicalChunkDraft → S → Result (List LogicalChunkDraft × S)
  take_over chunks [] s = ok (chunks, s)
  take_over chunks (chunk ∷ subchunks) s = do
    s1 ← checkpoint s
    take_over (chunks ++ (set_structural chunk ∷ [])) subchunks s1

  -- The `else` branch: a region that is longer than the FastCDC maximum.
  unfoldable pub cut_region :
      FastCdcCrate
      → List ℕ
      → ChunkOrigin
      → ChunkingConfig
      → ℕ
      → ℕ
      → List LogicalChunkDraft
      → S
      → Result (List LogicalChunkDraft × S)
  cut_region crate bytes origin config region_start region_end chunks s = do
    remaining_limit ← ok_or (checked_sub config.max_chunks (length chunks)) integer_overflow
    bail_if (remaining_limit == 0) (resource_limit "chunk count")
    sub_base ← ok_or (checked_add origin.base_offset region_start) integer_overflow
    (subchunks, s1) ←
        chunk_fastcdc_with_checkpoint checkpoint crate
          (take (region_end - region_start) (drop region_start bytes))
          (record origin { base_offset = sub_base })
          (record config {
            max_chunks = remaining_limit;
            max_logical_bytes = region_end - region_start;
          })
          s
    take_over chunks subchunks s1

  -- One round of the loop over the regions.
  unfoldable pub add_region :
      FastCdcCrate
      → List ℕ
      → ChunkOrigin
      → ChunkingConfig
      → ℕ
      → ℕ
      → List LogicalChunkDraft
      → S
      → Result (List LogicalChunkDraft × S)
  add_region crate bytes origin config region_start region_end chunks s = do
    s1 ← checkpoint s
    region_len ← ok_or (checked_sub region_end region_start) integer_overflow
    if leb region_len config.fastcdc_max
        then (push_relative_chunk chunks origin region_start region_len structural config.max_chunks
            >>= λ next_chunks. ok (next_chunks, s1))
        else cut_region crate bytes origin config region_start region_end chunks s1

  unfoldable pub region_loop :
      FastCdcCrate
      → List ℕ
      → ChunkOrigin
      → ChunkingConfig
      → ℕ
      → List ℕ
      → List LogicalChunkDraft
      → S
      → Result (List LogicalChunkDraft × S)
  region_loop crate bytes origin config region_start [] chunks s = ok (chunks, s)
  region_loop crate bytes origin config region_start (region_end ∷ ends) chunks s = do
    (next_chunks, s1) ← add_region crate bytes origin config region_start region_end chunks s
    region_loop crate bytes origin config region_end ends next_chunks s1

  unfoldable pub chunk_structural_with_checkpoint :
      FastCdcCrate
      → List ℕ
      → ChunkOrigin
      → List ℕ
      → ChunkingConfig
      → S
      → Result (List LogicalChunkDraft × S)
  chunk_structural_with_checkpoint crate bytes origin boundary_ends config s = do
    validate_config crate config
    ensure_logical_size (length bytes) config
    last ← ok_or (checked_add origin.base_offset (length bytes)) integer_overflow
    if length bytes == 0
        then (if length boundary_ends == 0
            then ok ([], s)
            else err (invalid_metadata "structural boundaries"))
        else (ensure_chunk_count (length boundary_ends) config.max_chunks
            >> (validate_boundary_ends boundary_ends (length bytes) s >>= λ s1.
                region_loop crate bytes origin config 0 boundary_ends [] s1 >>= λ (chunks, s2).
                validate_chunk_coverage_with_checkpoint checkpoint chunks origin (length bytes) s2
                >>= λ s3. ok (chunks, s3)))

unfoldable pub chunk_structural :
    FastCdcCrate → List ℕ → ChunkOrigin → List ℕ → ChunkingConfig → Result (List LogicalChunkDraft)
chunk_structural crate bytes origin boundary_ends config = do
  (chunks, s) ←
      chunk_structural_with_checkpoint no_checkpoint crate bytes origin boundary_ends config tt
  ok chunks
