-- ===== src/Codecs.antt =====
-- crates/pithos-codecs/src/lib.rs: the codec ids, the level check and the memory bounds of the four
-- codecs. The compressors themselves are crates of others.
use pithos.Prelude.{ℕ, ◌+◌, ◌*◌, ◌^◌, ◌%◌, not, ◌&&◌, Option, none, some, ltb, ◌==◌, if◌then◌else◌}
use pithos.Prelude.Int.{ℤ, pos, negsuc, leb_ℤ}
use pithos.Core.{Result, ◌>>=◌, ◌>>◌, bail_if, ok_or, integer_overflow, invalid_metadata}
use pithos.Core.Bytes.{i32_bits}
use pithos.Core.Checked.{checked_add, u32_end, u64_end}

pub data CodecId : Type 0 where
  store zstd brotli lzma2 : CodecId

unfoldable pub codec_id_from_u16 : ℕ → Option CodecId
codec_id_from_u16 value =
    if value == 0
    then some store
    else if value == 1
    then some zstd
    else if value == 2
    then some brotli
    else if value == 3
    then some lzma2
    else none

abbrev pub mib : ℕ
mib = 1024 * 1024

abbrev pub checked_memory_bound : ℕ → ℕ → Result ℕ
checked_memory_bound input_len scratch_bytes =
    ok_or (checked_add input_len scratch_bytes) integer_overflow

abbrev pub validate_level : ℤ → ℤ → ℤ → Result (Unit {0})
validate_level level low high =
    bail_if (not (leb_ℤ low level && leb_ℤ level high)) (invalid_metadata "unsupported codec level")

-- `u64::checked_shl`
abbrev pub checked_shl : ℕ → ℕ → Option ℕ
checked_shl value bits = if ltb bits 64 then some (value * 2 ^ bits % u64_end) else none

-- `memory_bound` of the four implementations of `Codec`; of a `CodecConfig` it reads the level.
unfoldable pub store_memory_bound : ℕ → ℤ → Result ℕ
store_memory_bound input_len level = do
  validate_level level (pos 0) (pos 0)
  checked_memory_bound input_len 1

unfoldable pub zstd_memory_bound : ℕ → ℤ → Result ℕ
zstd_memory_bound input_len level = do
  validate_level level (negsuc 6) (pos 22)
  checked_memory_bound input_len (128 * mib)

unfoldable pub brotli_memory_bound : ℕ → ℤ → Result ℕ
brotli_memory_bound input_len level = do
  validate_level level (pos 0) (pos 11)
  checked_memory_bound input_len (32 * mib)

unfoldable pub lzma2_memory_bound : ℕ → ℤ → Result ℕ
lzma2_memory_bound input_len level = do
  validate_level level (pos 0) (pos 9)
  dictionary_bound ← ok_or (checked_shl 1 ((i32_bits level + 20) % u32_end)) integer_overflow
  checked_memory_bound input_len dictionary_bound

-- The engine's `codec_for_id(codec)`, and `memory_bound` of what it returns.
unfoldable pub memory_bound : CodecId → ℕ → ℤ → Result ℕ
memory_bound store input_len level = store_memory_bound input_len level
memory_bound zstd input_len level = zstd_memory_bound input_len level
memory_bound brotli input_len level = brotli_memory_bound input_len level
memory_bound lzma2 input_len level = lzma2_memory_bound input_len level
