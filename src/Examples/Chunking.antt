-- ===== src/Examples/Chunking.antt =====
-- The chunkers at concrete inputs.
use pithos.Prelude.{All, ◌+◌, ℕ, zero, suc, ◌≡◌, ◌↔◌, refl, List, [], ◌∷◌, arith}
use pithos.Core.{Result, ok, err, cancelled}
use pithos.Analysis.Chunking.FastCdc.{fastcdc_loop, chunk_fastcdc_with_checkpoint}
use pithos.Analysis.Chunking.Structural.{
  validate_boundary_ends, boundary_loop, region_loop, add_region, chunk_structural_with_checkpoint,
}
use pithos.Analysis.Chunking.Structural.Regions.{Uncrossed}
use pithos.Analysis.Chunking.Structural.Uncrossed.{chunk_structural-Uncrossed}
use pithos.Analysis.Chunking.{
  structural, fast_cdc_v2020, push_relative_chunk, mib, CutChunk, FastCdcCrate, default_config,
  ChunkOrigin, LogicalChunkDraft, fixed_high_entropy, validate_config,
}
use pithos.Analysis.Chunking.Coverage.{
  validate_chunk_coverage, validate_chunk_coverage_with_checkpoint, coverage_loop,
}
use pithos.Analysis.Chunking.Coverage.Exact.{Tiles, validate_chunk_coverage_iff}
use pithos.Analysis.Chunking.Fixed.{chunk_fixed_high_entropy}
use pithos.Analysis.Chunking.Fixed.Blocks.{AreBlocks}
use pithos.Analysis.Chunking.Fixed.Total.{chunk_fixed_high_entropy_total}

-- The limits of the crate's version 2020, with a cutter that yields nothing.
abbrev cut_pieces : List ℕ → ℕ → ℕ → ℕ → ℕ → List CutChunk
cut_pieces bytes low middle high seed = []

abbrev sample_crate : FastCdcCrate
sample_crate = record {
  minimum_min = 64;
  minimum_max = 1_048_576;
  average_min = 256;
  average_max = 4_194_304;
  maximum_min = 1024;
  maximum_max = 16_777_216;
  cut = cut_pieces;
}

abbrev sample_origin : ChunkOrigin
sample_origin = record { entry_id = 3; object_id = 9; base_offset = 100 }

abbrev chunk_at : ℕ → ℕ → LogicalChunkDraft
chunk_at offset len = record {
  entry_id = 3;
  object_id = 9;
  logical_offset = offset;
  length = len;
  method = fixed_high_entropy;
}

abbrev two_chunks : List LogicalChunkDraft
two_chunks = chunk_at 100 40 ∷ chunk_at 140 2 ∷ []

default_valid : validate_config sample_crate default_config ≡ ok tt
unfolding validate_config
default_valid = refl

-- A checkpoint that allows so many calls.
abbrev countdown : ℕ → Result ℕ
countdown zero = err cancelled
countdown (suc n) = ok n

two_accepted :
    validate_chunk_coverage_with_checkpoint countdown two_chunks sample_origin 42 5 ≡ ok 2
unfolding validate_chunk_coverage_with_checkpoint coverage_loop
two_accepted = refl

validate_chunk_coverage_iff_example :
    (validate_chunk_coverage two_chunks sample_origin 42 ≡ ok tt)
    ↔ Tiles sample_origin 100 142 two_chunks
validate_chunk_coverage_iff_example =
    validate_chunk_coverage_iff two_chunks sample_origin 42 (omega arith) (omega arith)

-- Two and a half blocks of one MiB.
chunk_fixed_high_entropy_total_example :
    (chunks : List LogicalChunkDraft) × (chunk_fixed_high_entropy sample_crate 2_621_440
        sample_origin default_config
      ≡ ok chunks)
    × Tiles sample_origin 100 2_621_540 chunks
    × AreBlocks mib chunks
chunk_fixed_high_entropy_total_example =
    chunk_fixed_high_entropy_total sample_crate 2_621_440 sample_origin default_config default_valid
      (omega arith) (omega arith) (omega arith) (omega arith)

-- Two regions of three bytes.
abbrev small_bytes : List ℕ
small_bytes = 1 ∷ 2 ∷ 3 ∷ 4 ∷ 5 ∷ 6 ∷ []

abbrev region_chunks : List LogicalChunkDraft
region_chunks =
    record (chunk_at 100 3) { method = structural }
    ∷ record (chunk_at 103 3) { method = structural }
    ∷ []

regions_kept :
    chunk_structural_with_checkpoint countdown sample_crate small_bytes sample_origin
      (3 ∷ 6 ∷ [])
      default_config
      9
    ≡ ok (region_chunks, 2)
unfolding chunk_structural_with_checkpoint validate_config validate_boundary_ends boundary_loop
    region_loop add_region push_relative_chunk validate_chunk_coverage_with_checkpoint coverage_loop
regions_kept = refl

chunk_structural-Uncrossed_example :
    Tiles sample_origin 100 106 region_chunks
    × All (λ e. All (Uncrossed (100 + e)) region_chunks) (3 ∷ 6 ∷ [])
chunk_structural-Uncrossed_example =
    chunk_structural-Uncrossed countdown sample_crate small_bytes sample_origin (3 ∷ 6 ∷ [])
      default_config 9 (omega arith) regions_kept

-- The same six bytes, which the crate cuts in two.
abbrev cut_in_two : List ℕ → ℕ → ℕ → ℕ → ℕ → List CutChunk
cut_in_two bytes low middle high seed =
    record { offset = 0; length = 4 } ∷ record { offset = 4; length = 2 } ∷ []

abbrev cutting_crate : FastCdcCrate
cutting_crate = record sample_crate { cut = cut_in_two }

abbrev cut_chunks : List LogicalChunkDraft
cut_chunks =
    record (chunk_at 100 4) { method = fast_cdc_v2020 }
    ∷ record (chunk_at 104 2) { method = fast_cdc_v2020 }
    ∷ []

cut_accepted :
    chunk_fastcdc_with_checkpoint countdown cutting_crate small_bytes sample_origin default_config 9
    ≡ ok (cut_chunks, 4)
unfolding chunk_fastcdc_with_checkpoint validate_config fastcdc_loop push_relative_chunk
    validate_chunk_coverage_with_checkpoint coverage_loop
cut_accepted = refl
