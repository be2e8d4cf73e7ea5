-- ===== src/Analysis/Chunking.antt =====
-- crates/pithos-analysis/src/chunking.rs: the configuration, the chunk descriptors and the guards
-- that every chunker shares. `usize` is 64 bits wide, so that `usize::try_from` of a `u32` or a
-- `u64` succeeds, and reservations of memory succeed.
pub mod Coverage
pub mod Fixed
pub mod FastCdc
pub mod Structural
use pithos.Prelude.{
  ℕ, ◌+◌, ◌*◌, not, Bool, true, false, ◌||◌, ◌&&◌, List, [], ◌∷◌, ◌++◌, length, ltb, leb, ◌==◌,
}
use pithos.Core.{
  Result, ok, ◌>>=◌, ◌>>◌, bail_if, ok_or, invalid_metadata, resource_limit, integer_overflow,
  DecodeLimits, default_limits,
}
use pithos.Core.Checked.{checked_add, u32_try_from}

abbrev pub kib : ℕ
kib = 1024

abbrev pub mib : ℕ
mib = 1024 * kib

abbrev pub fastcdc_seed : ℕ
fastcdc_seed = 0

pub record ChunkingConfig : Type 0 where
  pub fastcdc_min : ℕ
  pub fastcdc_avg : ℕ
  pub fastcdc_max : ℕ
  pub high_entropy_fixed : ℕ
  pub micro_file_max : ℕ
  pub micro_pack_target : ℕ
  pub max_chunks : ℕ
  pub max_logical_bytes : ℕ
  pub max_metadata_bytes : ℕ
  pub max_path_bytes : ℕ

abbrev pub default_config : ChunkingConfig
default_config = record {
  fastcdc_min = 64 * kib;
  fastcdc_avg = 256 * kib;
  fastcdc_max = mib;
  high_entropy_fixed = mib;
  micro_file_max = 64 * kib;
  micro_pack_target = 4 * mib;
  max_chunks = default_limits.max_chunks;
  max_logical_bytes = default_limits.max_original_bytes;
  max_metadata_bytes = default_limits.max_metadata_bytes;
  max_path_bytes = default_limits.max_path_bytes;
}

-- A chunk that the crate `fastcdc` cuts off.
pub record CutChunk : Type 0 where
  pub offset : ℕ
  pub length : ℕ

-- What the code uses of the crate `fastcdc`: its limits, and `FastCDC::with_level_and_seed` at
-- `Normalization::Level1`, run to its end over the data, the three sizes and the seed.
pub record FastCdcCrate : Type 0 where
  pub minimum_min : ℕ
  pub minimum_max : ℕ
  pub average_min : ℕ
  pub average_max : ℕ
  pub maximum_min : ℕ
  pub maximum_max : ℕ
  pub cut : List ℕ → ℕ → ℕ → ℕ → ℕ → List CutChunk

-- `(low..=high).contains(&n)`
abbrev pub in_range : ℕ → ℕ → ℕ → Bool
in_range low high n = leb low n && leb n high

unfoldable pub validate_config : FastCdcCrate → ChunkingConfig → Result (Unit {0})
validate_config crate config = do
  bail_if
      (not (
        in_range crate.minimum_min crate.minimum_max config.fastcdc_min
        && (in_range crate.average_min crate.average_max config.fastcdc_avg
            && (in_range crate.maximum_min crate.maximum_max config.fastcdc_max
                && (ltb config.fastcdc_min config.fastcdc_avg
                    && ltb config.fastcdc_avg config.fastcdc_max)))))
      (invalid_metadata "FastCDC sizes")
  bail_if (not (in_range mib (4 * mib) config.high_entropy_fixed))
      (invalid_metadata "high entropy block size")
  bail_if (config.micro_file_max == 0 || ltb (64 * kib) config.micro_file_max)
      (invalid_metadata "microfile size limit")
  bail_if
      (not (in_range mib (16 * mib) config.micro_pack_target)
        || ltb config.micro_pack_target config.micro_file_max)
      (invalid_metadata "microfile pack target")
  bail_if
      (config.max_chunks == 0
        || (config.max_logical_bytes == 0
            || (config.max_metadata_bytes == 0 || config.max_path_bytes == 0)))
      (invalid_metadata "chunking resource limit")
  ok tt

pub record ChunkOrigin : Type 0 where
  pub entry_id : ℕ
  pub object_id : ℕ
  pub base_offset : ℕ

pub data ChunkingMethod : Type 0 where
  fast_cdc_v2020 fixed_high_entropy structural micro_file : ChunkingMethod

abbrev pub is_micro_file : ChunkingMethod → Bool
is_micro_file micro_file = true
is_micro_file _ = false

pub record LogicalChunkDraft : Type 0 where
  pub entry_id : ℕ
  pub object_id : ℕ
  pub logical_offset : ℕ
  pub length : ℕ
  pub method : ChunkingMethod

abbrev pub ensure_chunk_count : ℕ → ℕ → Result (Unit {0})
ensure_chunk_count count max_chunks = bail_if (ltb max_chunks count) (resource_limit "chunk count")

abbrev pub ensure_logical_size : ℕ → ChunkingConfig → Result (Unit {0})
ensure_logical_size size config =
    bail_if (ltb config.max_logical_bytes size) (resource_limit "logical bytes")

-- The chunk vector is passed through, as the code's `&mut` argument.
unfoldable pub push_relative_chunk :
    List LogicalChunkDraft
    → ChunkOrigin
    → ℕ
    → ℕ
    → ChunkingMethod
    → ℕ
    → Result (List LogicalChunkDraft)
push_relative_chunk chunks origin relative_offset len method max_chunks = do
  next_count ← ok_or (checked_add (length chunks) 1) integer_overflow
  ensure_chunk_count next_count max_chunks
  u32_len ← ok_or (u32_try_from len) integer_overflow
  bail_if (u32_len == 0) (invalid_metadata "zero-length chunk")
  logical_offset ← ok_or (checked_add origin.base_offset relative_offset) integer_overflow
  chunk_end ← ok_or (checked_add logical_offset u32_len) integer_overflow
  ok (
      chunks
      ++ (record {
        entry_id = origin.entry_id;
        object_id = origin.object_id;
        logical_offset = logical_offset;
        length = u32_len;
        method = method;
      }
          ∷ []))
