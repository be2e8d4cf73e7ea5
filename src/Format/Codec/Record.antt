-- ===== src/Format/Codec/Record.antt =====
-- `CodecRegistryRecord::encode` and `CodecRegistryRecord::decode` invert each other.
use pithos.Prelude.{ℕ, ◌≤◌, ◌≡◌, refl, some, List, arith, All, length}
use pithos.Core.Bytes.{IsByte, length-to_le_bytes}
use pithos.Format.Buffer.{zeroed, slice}
use pithos.Format.Buffer.Fill.{
  IsSized, written, slice-fill, length-fill, Matches, fill-Matches, eq_of_slice,
}
use pithos.Format.Buffer.Reads.{
  read_u16_of, read_u32_of, read_i32_of, read_u16_bytes, read_u32_bytes, read_i32_bytes,
}
use pithos.Format.Codec.{
  CodecRegistryRecord, IsCodecRecord, codec_fields, encode_codec_record, decode_codec_record,
}

module _ (r : CodecRegistryRecord) where
  fields-IsSized : IsSized 16 (codec_fields r)
  fields-IsSized = omega (arith, length-to_le_bytes)

  field :
      (a b : ℕ) {bs : List ℕ}
      → a ≤ b
      → written a b (codec_fields r) ≡ some bs
      → slice a b (encode_codec_record r) ≡ bs
  unfolding encode_codec_record
  field a b o w = slice-fill 16 a b (zeroed 16) (codec_fields r) refl fields-IsSized o w

  pub length-encode_codec_record : length (encode_codec_record r) ≡ 16
  unfolding encode_codec_record
  length-encode_codec_record = length-fill 16 (zeroed 16) (codec_fields r) refl fields-IsSized

pub decode_codec_record-encode_codec_record :
    (r : CodecRegistryRecord) → IsCodecRecord r → decode_codec_record (encode_codec_record r) ≡ r
unfolding decode_codec_record
decode_codec_record-encode_codec_record r v =
    let b = encode_codec_record r in
    λ i. record {
      chain_id = read_u32_of b 0 v.chain_u32 (field r 0 4 (omega arith) refl) i;
      codec_id = read_u16_of b 4 v.codec_u16 (field r 4 6 (omega arith) refl) i;
      codec_version = read_u16_of b 6 v.version_u16 (field r 6 8 (omega arith) refl) i;
      level = read_i32_of b 8 v.level_i32 (field r 8 12 (omega arith) refl) i;
      flags = read_u32_of b 12 v.flags_u32 (field r 12 16 (omega arith) refl) i;
    }

module _ (b : List ℕ) (size : length b ≡ 16) (bytes : All IsByte b) where
  fields_match : Matches b (codec_fields (decode_codec_record b))
  unfolding decode_codec_record
  fields_match = (
    (read_u32_bytes b bytes 16 size 0 (omega arith) refl).0,
    (
      (read_u16_bytes b bytes 16 size 4 (omega arith) refl).0,
      (
        (read_u16_bytes b bytes 16 size 6 (omega arith) refl).0,
        (
          read_i32_bytes b bytes 16 size 8 (omega arith) refl,
          ((read_u32_bytes b bytes 16 size 12 (omega arith) refl).0, tt),
        ),
      ),
    ),
  )

  pub encode_codec_record-decode_codec_record : encode_codec_record (decode_codec_record b) ≡ b
  unfolding encode_codec_record
  encode_codec_record-decode_codec_record =
      let r = decode_codec_record b in
      eq_of_slice 16 (encode_codec_record r) b (length-encode_codec_record r) size (
        fill-Matches 16 b 0 16 (zeroed 16) (codec_fields r) refl (fields-IsSized r) fields_match
          refl)
