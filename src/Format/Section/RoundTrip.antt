-- ===== src/Format/Section/RoundTrip.antt =====
-- `SectionType::from_u16` against the discriminants, and `SectionDirectoryRecord::encode` against
-- `SectionDirectoryRecord::decode`.
use pithos.Prelude.{ℕ, ◌≤◌, ◌≡◌, refl, some, List, arith, All, length}
use pithos.Core.Bytes.{IsByte, length-to_le_bytes}
use pithos.Format.Buffer.{zeroed, slice}
use pithos.Format.Buffer.Fill.{
  IsSized, written, slice-fill, length-fill, Matches, fill-Matches, eq_of_slice,
}
use pithos.Format.Buffer.Reads.{
  read_u16_of, read_u32_of, read_u64_of, read_u16_bytes, read_u32_bytes, read_u64_bytes,
}
use pithos.Format.Section.{
  SectionType, codec_registry, section_type_id, section_type_from_u16, SectionDirectoryRecord,
  IsSectionRecord, section_fields, encode_section, decode_section,
}

pub section_type_from_u16-section_type_id :
    (t : SectionType) → section_type_from_u16 (section_type_id t) ≡ some t
unfolding section_type_from_u16 section_type_id
section_type_from_u16-section_type_id codec_registry = refl
section_type_from_u16-section_type_id _ = refl

module _ (r : SectionDirectoryRecord) where
  fields-IsSized : IsSized 32 (section_fields r)
  fields-IsSized = omega (arith, length-to_le_bytes)

  field :
      (a b : ℕ) {bs : List ℕ}
      → a ≤ b
      → written a b (section_fields r) ≡ some bs
      → slice a b (encode_section r) ≡ bs
  unfolding encode_section
  field a b o w = slice-fill 32 a b (zeroed 32) (section_fields r) refl fields-IsSized o w

  pub length-encode_section : length (encode_section r) ≡ 32
  unfolding encode_section
  length-encode_section = length-fill 32 (zeroed 32) (section_fields r) refl fields-IsSized

-- A directory record, encoded and decoded, comes back.
pub decode_section-encode_section :
    (r : SectionDirectoryRecord) → IsSectionRecord r → decode_section (encode_section r) ≡ r
unfolding decode_section
decode_section-encode_section r v =
    let b = encode_section r in
    λ i. record {
      section_type = read_u16_of b 0 v.type_u16 (field r 0 2 (omega arith) refl) i;
      section_version = read_u16_of b 2 v.version_u16 (field r 2 4 (omega arith) refl) i;
      flags = read_u32_of b 4 v.flags_u32 (field r 4 8 (omega arith) refl) i;
      offset = read_u64_of b 8 v.offset_u64 (field r 8 16 (omega arith) refl) i;
      length = read_u64_of b 16 v.length_u64 (field r 16 24 (omega arith) refl) i;
      crc32c = read_u32_of b 24 v.crc_u32 (field r 24 28 (omega arith) refl) i;
      reserved = read_u32_of b 28 v.reserved_u32 (field r 28 32 (omega arith) refl) i;
    }

module _ (b : List ℕ) (size : length b ≡ 32) (bytes : All IsByte b) where
  fields_match : Matches b (section_fields (decode_section b))
  unfolding decode_section
  fields_match = (
    (read_u16_bytes b bytes 32 size 0 (omega arith) refl).0,
    (
      (read_u16_bytes b bytes 32 size 2 (omega arith) refl).0,
      (
        (read_u32_bytes b bytes 32 size 4 (omega arith) refl).0,
        (
          (read_u64_bytes b bytes 32 size 8 (omega arith) refl).0,
          (
            (read_u64_bytes b bytes 32 size 16 (omega arith) refl).0,
            (
              (read_u32_bytes b bytes 32 size 24 (omega arith) refl).0,
              ((read_u32_bytes b bytes 32 size 28 (omega arith) refl).0, tt),
            ),
          ),
        ),
      ),
    ),
  )

  decoded_IsSectionRecord : IsSectionRecord (decode_section b)
  unfolding decode_section
  decoded_IsSectionRecord = record {
    type_u16 = (read_u16_bytes b bytes 32 size 0 (omega arith) refl).1;
    version_u16 = (read_u16_bytes b bytes 32 size 2 (omega arith) refl).1;
    flags_u32 = (read_u32_bytes b bytes 32 size 4 (omega arith) refl).1;
    offset_u64 = (read_u64_bytes b bytes 32 size 8 (omega arith) refl).1;
    length_u64 = (read_u64_bytes b bytes 32 size 16 (omega arith) refl).1;
    crc_u32 = (read_u32_bytes b bytes 32 size 24 (omega arith) refl).1;
    reserved_u32 = (read_u32_bytes b bytes 32 size 28 (omega arith) refl).1;
  }

-- Any 32 bytes decode to a record in range whose encoding they are.
pub encode_section-decode_section :
    (b : List ℕ)
    → length b ≡ 32
    → All IsByte b
    → IsSectionRecord (decode_section b) × (encode_section (decode_section b) ≡ b)
unfolding encode_section
encode_section-decode_section b size bytes =
    let r = decode_section b in
    (
      decoded_IsSectionRecord b size bytes,
      eq_of_slice 32 (encode_section r) b (length-encode_section r) size (
          fill-Matches 32 b 0 32 (zeroed 32) (section_fields r) refl (fields-IsSized r)
            (fields_match b size bytes) refl),
    )
