-- ===== src/Analysis/Chunking/Coverage.antt =====
-- `validate_chunk_coverage` and its variant with a checkpoint. A checkpoint is an `FnMut() ->
-- Result<()>`: a step on the state that the closure captures. An error of it ends the whole run,
-- so that it returns the next state or an error.
pub mod Exact
use pithos.Prelude.{ℕ, ◌!=◌, Bool, true, false, ◌||◌, ◌&&◌, List, [], ◌∷◌, ltb, ◌==◌, if◌then◌else◌}
use pithos.Core.{Result, ok, err, ◌>>=◌, ◌>>◌, bail_if, ok_or, invalid_metadata, integer_overflow}
use pithos.Core.Checked.{checked_add}
use pithos.Analysis.Chunking.{ChunkOrigin, LogicalChunkDraft, is_micro_file}

-- The test of the one chunk that an empty object may have.
abbrev pub is_empty_coverage : List LogicalChunkDraft → ChunkOrigin → Bool
is_empty_coverage [] origin = true
is_empty_coverage (c ∷ []) origin =
    c.entry_id == origin.entry_id
    && (c.object_id == origin.object_id
        && (c.logical_offset == origin.base_offset && (c.length == 0 && is_micro_file c.method)))
is_empty_coverage (c ∷ d ∷ cs) origin = false

abbrev pub is_empty : List LogicalChunkDraft → Bool
is_empty [] = true
is_empty (c ∷ cs) = false

module _ {S : Type 0} (checkpoint : S → Result S) where
  -- The loop over the chunks and the test behind it.
  unfoldable pub coverage_loop : ChunkOrigin → ℕ → ℕ → List LogicalChunkDraft → S → Result S
  coverage_loop origin expected_end cursor [] s = do
    bail_if (cursor != expected_end) (invalid_metadata "chunk coverage")
    ok s
  coverage_loop origin expected_end cursor (chunk ∷ chunks) s = do
    s1 ← checkpoint s
    bail_if
        (chunk.entry_id != origin.entry_id
          || (chunk.object_id != origin.object_id
              || (chunk.logical_offset != cursor || chunk.length == 0)))
        (invalid_metadata "chunk coverage")
    next ← ok_or (checked_add cursor chunk.length) integer_overflow
    bail_if (ltb expected_end next) (invalid_metadata "chunk coverage")
    coverage_loop origin expected_end next chunks s1

  unfoldable pub validate_chunk_coverage_with_checkpoint :
      List LogicalChunkDraft → ChunkOrigin → ℕ → S → Result S
  validate_chunk_coverage_with_checkpoint chunks origin logical_size s = do
    s1 ← checkpoint s
    expected_end ← ok_or (checked_add origin.base_offset logical_size) integer_overflow
    if logical_size == 0
        then (if is_empty_coverage chunks origin
            then ok s1
            else err (invalid_metadata "empty chunk coverage"))
        else (if is_empty chunks
            then err (invalid_metadata "missing chunk coverage")
            else coverage_loop origin expected_end origin.base_offset chunks s1)

-- The closure `|| Ok(())`.
abbrev pub no_checkpoint : Unit {0} → Result (Unit {0})
no_checkpoint s = ok s

unfoldable pub validate_chunk_coverage :
    List LogicalChunkDraft → ChunkOrigin → ℕ → Result (Unit {0})
validate_chunk_coverage chunks origin logical_size =
    validate_chunk_coverage_with_checkpoint no_checkpoint chunks origin logical_size tt
