-- ===== src/Format/Codec.antt =====
-- crates/pithos-format/src/lib.rs: `CodecRegistryRecord` and `CodecRegistry`, the section that
-- names the codec of each chain. A `BTreeSet` of chain ids is the list of the ids in it.

pub mod Record
pub mod Loop
pub mod RoundTrip
pub mod Chain
use pithos.Prelude.{
  ℕ, zero, suc, ◌-◌, ◌/◌, ◌%◌, ◌<◌, not, ◌&&◌, ◌||◌, Option, none, some, List, [], ◌∷◌, ◌++◌,
  length, take, drop, ltb, leb, ◌==◌, ◌!=◌, contains, if◌then◌else◌,
}
use pithos.Prelude.Int.{ℤ, pos}
use pithos.Core.{
  Result, ok, ◌>>=◌, ◌>>◌, bail_if, ok_or, invalid_metadata, unsupported_codec, invalid_range,
  resource_limit, integer_overflow,
}
use pithos.Core.Checked.{u16_end, u32_end, checked_add, checked_mul, u32_try_from}
use pithos.Core.Bytes.{IsI32, i32_bits, to_le_bytes}
use pithos.Format.Buffer.{zeroed, Patch, ◌until◌put◌, fill, read_u16, read_u32, read_i32}

abbrev pub codec_registry_record_len : ℕ
codec_registry_record_len = 16

abbrev pub codec_flag_required : ℕ
codec_flag_required = 1

pub record CodecRegistryRecord : Type 0 where
  pub chain_id : ℕ
  pub codec_id : ℕ
  pub codec_version : ℕ
  pub level : ℤ
  pub flags : ℕ

-- The ranges that the field types of the source give.
pub record IsCodecRecord (r : CodecRegistryRecord) : Type 0 where
  pub chain_u32 : r.chain_id < u32_end
  pub codec_u16 : r.codec_id < u16_end
  pub version_u16 : r.codec_version < u16_end
  pub level_i32 : IsI32 r.level
  pub flags_u32 : r.flags < u32_end

unfoldable pub store_record : ℕ → CodecRegistryRecord
store_record chain_id = record {
  chain_id = chain_id;
  codec_id = 0;
  codec_version = 1;
  level = pos 0;
  flags = codec_flag_required;
}

abbrev pub codec_fields : CodecRegistryRecord → List Patch
codec_fields r =
    (0 until 4 put to_le_bytes 4 r.chain_id)
    ∷ (4 until 6 put to_le_bytes 2 r.codec_id)
    ∷ (6 until 8 put to_le_bytes 2 r.codec_version)
    ∷ (8 until 12 put to_le_bytes 4 (i32_bits r.level))
    ∷ (12 until 16 put to_le_bytes 4 r.flags)
    ∷ []

unfoldable pub encode_codec_record : CodecRegistryRecord → List ℕ
encode_codec_record r = fill (zeroed codec_registry_record_len) (codec_fields r)

unfoldable pub decode_codec_record : List ℕ → CodecRegistryRecord
decode_codec_record buffer = record {
  chain_id = read_u32 buffer 0;
  codec_id = read_u16 buffer 4;
  codec_version = read_u16 buffer 6;
  level = read_i32 buffer 8;
  flags = read_u32 buffer 12;
}

-- `flags & CODEC_FLAG_REQUIRED` is the lowest bit, `flags & !CODEC_FLAG_REQUIRED` the others.
abbrev pub required_flag : ℕ → ℕ
required_flag flags = flags % 2

abbrev pub unknown_flags : ℕ → ℕ
unknown_flags flags = flags - flags % 2

unfoldable pub validate_for_decode : CodecRegistryRecord → Result (Unit {0})
validate_for_decode r = do
  bail_if (r.chain_id == 0) (invalid_metadata "codec chain zero is reserved for RAW")
  bail_if (unknown_flags r.flags != 0) (invalid_metadata "unknown codec registry flags")
  let known = leb r.codec_id 3 && r.codec_version == 1
  bail_if (not known && required_flag r.flags != 0) unsupported_codec
  ok tt

pub record CodecRegistry : Type 0 where
  pub records : List CodecRegistryRecord

-- The loop of `encode`: the ids seen before, and the bytes that the records left append.
unfoldable pub encode_records : List ℕ → List CodecRegistryRecord → Result (List ℕ)
encode_records seen [] = ok []
encode_records seen (r ∷ rs) = do
  bail_if (r.chain_id == 0 || contains seen r.chain_id)
      (invalid_metadata "duplicate or reserved codec chain")
  rest ← encode_records (r.chain_id ∷ seen) rs
  ok (encode_codec_record r ++ rest)

unfoldable pub encode_registry : CodecRegistry → Result (List ℕ)
encode_registry registry = do
  count ← ok_or (u32_try_from (length registry.records)) integer_overflow
  body_len ←
      ok_or (checked_mul (length registry.records) codec_registry_record_len) integer_overflow
  capacity ← ok_or (checked_add 4 body_len) integer_overflow
  body ← encode_records [] registry.records
  ok (to_le_bytes 4 count ++ body)

-- `bytes.chunks_exact(size)`: the first `count` pieces, of `size` bytes each.
unfoldable pub chunks : ℕ → ℕ → List ℕ → List (List ℕ)
chunks zero size bytes = []
chunks (suc count) size bytes = take size bytes ∷ chunks count size (drop size bytes)

abbrev pub chunks_exact : ℕ → List ℕ → List (List ℕ)
chunks_exact size bytes = chunks (length bytes / size) size bytes

-- The loop of `decode`: the ids seen before, and the records that the chunks left yield.
unfoldable pub decode_records : List ℕ → List (List ℕ) → Result (List CodecRegistryRecord)
decode_records seen [] = ok []
decode_records seen (record_bytes ∷ more) = do
  let r = decode_codec_record record_bytes
  validate_for_decode r
  bail_if (contains seen r.chain_id) (invalid_metadata "duplicate codec chain")
  rest ← decode_records (r.chain_id ∷ seen) more
  ok (r ∷ rest)

unfoldable pub decode_registry : List ℕ → ℕ → Result CodecRegistry
decode_registry input max_records = do
  bail_if (ltb (length input) 4) invalid_range
  let count = read_u32 input 0
  bail_if (ltb max_records count) (resource_limit "codec registry record count")
  body_len ← ok_or (checked_mul count codec_registry_record_len) integer_overflow
  expected_len ← ok_or (checked_add 4 body_len) integer_overflow
  bail_if (length input != expected_len) invalid_range
  records ← decode_records [] (chunks_exact codec_registry_record_len (drop 4 input))
  ok (record { records = records })

unfoldable pub find_chain : ℕ → List CodecRegistryRecord → Option CodecRegistryRecord
find_chain chain_id [] = none
find_chain chain_id (r ∷ rs) = if r.chain_id == chain_id then some r else find_chain chain_id rs

unfoldable pub chain : CodecRegistry → ℕ → Option CodecRegistryRecord
unfolding find_chain
chain registry chain_id = find_chain chain_id registry.records
