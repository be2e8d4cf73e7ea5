-- ===== src/Format/Group/RoundTrip.antt =====
-- `GroupRecord::encode` and `GroupRecord::decode` invert each other.
use pithos.Prelude.{ℕ, ◌≤◌, ◌≡◌, refl, sym, some, List, arith, All, length}
use pithos.Core.{ok}
use pithos.Core.Bytes.{IsByte, length-to_le_bytes}
use pithos.Format.Same.{same_bytes→eq, eq→same_bytes}
use pithos.Format.Buffer.{zeroed, slice, read_u16, read_u32, read_u64}
use pithos.Format.Buffer.Fill.{
  IsSized, written, slice-fill, length-fill, Matches, fill-Matches, eq_of_slice,
}
use pithos.Format.Buffer.Reads.{
  read_u16_of, read_u32_of, read_u64_of, read_u16_bytes, read_u32_bytes, read_u64_bytes,
}
use pithos.Format.Group.{
  GroupRecord, IsGroupRecord, group_magic, group_fields, encode_group, decode_group_record,
}

-- The buffer holds the record `r` in its fields.
record GroupAt (b : List ℕ) (r : GroupRecord) : Type 0 where
  at_magic : slice 0 4 b ≡ group_magic
  at_version : read_u16 b 4 ≡ r.version
  at_flags : read_u16 b 6 ≡ r.flags
  at_id : read_u64 b 8 ≡ r.group_id
  at_chain : read_u32 b 16 ≡ r.codec_chain_id
  at_chunks : read_u32 b 20 ≡ r.chunk_count
  at_uncompressed : read_u64 b 24 ≡ r.uncompressed_len
  at_compressed : read_u64 b 32 ≡ r.compressed_len
  at_descriptor : read_u32 b 40 ≡ r.descriptor_len
  at_crc : read_u32 b 44 ≡ r.payload_crc32c

GroupAt-decode : (b : List ℕ) (r : GroupRecord) → GroupAt b r → decode_group_record b ≡ ok r
unfolding decode_group_record
GroupAt-decode b r at = ground (arith, eq→same_bytes (slice 0 4 b) group_magic at.at_magic)

decode-GroupAt : (b : List ℕ) (r : GroupRecord) → decode_group_record b ≡ ok r → GroupAt b r
unfolding decode_group_record
decode-GroupAt b r e = ground (arith, same_bytes→eq (slice 0 4 b) group_magic)

module _ (r : GroupRecord) where
  fields-IsSized : IsSized 48 (group_fields r)
  fields-IsSized = omega (arith, length-to_le_bytes)

  field :
      (a b : ℕ) {bs : List ℕ}
      → a ≤ b
      → written a b (group_fields r) ≡ some bs
      → slice a b (encode_group r) ≡ bs
  unfolding encode_group
  field a b o w = slice-fill 48 a b (zeroed 48) (group_fields r) refl fields-IsSized o w

  pub length-encode_group : length (encode_group r) ≡ 48
  unfolding encode_group
  length-encode_group = length-fill 48 (zeroed 48) (group_fields r) refl fields-IsSized

  encode-GroupAt : IsGroupRecord r → GroupAt (encode_group r) r
  encode-GroupAt v =
      let b = encode_group r in
      record {
        at_magic = field 0 4 (omega arith) refl;
        at_version = read_u16_of b 4 v.version_u16 (field 4 6 (omega arith) refl);
        at_flags = read_u16_of b 6 v.flags_u16 (field 6 8 (omega arith) refl);
        at_id = read_u64_of b 8 v.id_u64 (field 8 16 (omega arith) refl);
        at_chain = read_u32_of b 16 v.chain_u32 (field 16 20 (omega arith) refl);
        at_chunks = read_u32_of b 20 v.chunks_u32 (field 20 24 (omega arith) refl);
        at_uncompressed = read_u64_of b 24 v.uncompressed_u64 (field 24 32 (omega arith) refl);
        at_compressed = read_u64_of b 32 v.compressed_u64 (field 32 40 (omega arith) refl);
        at_descriptor = read_u32_of b 40 v.descriptor_u32 (field 40 44 (omega arith) refl);
        at_crc = read_u32_of b 44 v.crc_u32 (field 44 48 (omega arith) refl);
      }

-- A group record, encoded and decoded, comes back.
pub decode_group_record-encode_group :
    (r : GroupRecord) → IsGroupRecord r → decode_group_record (encode_group r) ≡ ok r
decode_group_record-encode_group r v = GroupAt-decode (encode_group r) r (encode-GroupAt r v)

module _ (b : List ℕ) (r : GroupRecord) (at : GroupAt b r) (size : length b ≡ 48)
    (bytes : All IsByte b) where
  fields_match : Matches b (group_fields r)
  fields_match = (
    sym at.at_magic,
    (
      (read_u16_bytes b bytes 48 size 4 (omega arith) at.at_version).0,
      (
        (read_u16_bytes b bytes 48 size 6 (omega arith) at.at_flags).0,
        (
          (read_u64_bytes b bytes 48 size 8 (omega arith) at.at_id).0,
          (
            (read_u32_bytes b bytes 48 size 16 (omega arith) at.at_chain).0,
            (
              (read_u32_bytes b bytes 48 size 20 (omega arith) at.at_chunks).0,
              (
                (read_u64_bytes b bytes 48 size 24 (omega arith) at.at_uncompressed).0,
                (
                  (read_u64_bytes b bytes 48 size 32 (omega arith) at.at_compressed).0,
                  (
                    (read_u32_bytes b bytes 48 size 40 (omega arith) at.at_descriptor).0,
                    ((read_u32_bytes b bytes 48 size 44 (omega arith) at.at_crc).0, tt),
                  ),
                ),
              ),
            ),
          ),
        ),
      ),
    ),
  )

  GroupAt-IsGroupRecord : IsGroupRecord r
  GroupAt-IsGroupRecord = record {
    version_u16 = (read_u16_bytes b bytes 48 size 4 (omega arith) at.at_version).1;
    flags_u16 = (read_u16_bytes b bytes 48 size 6 (omega arith) at.at_flags).1;
    id_u64 = (read_u64_bytes b bytes 48 size 8 (omega arith) at.at_id).1;
    chain_u32 = (read_u32_bytes b bytes 48 size 16 (omega arith) at.at_chain).1;
    chunks_u32 = (read_u32_bytes b bytes 48 size 20 (omega arith) at.at_chunks).1;
    uncompressed_u64 = (read_u64_bytes b bytes 48 size 24 (omega arith) at.at_uncompressed).1;
    compressed_u64 = (read_u64_bytes b bytes 48 size 32 (omega arith) at.at_compressed).1;
    descriptor_u32 = (read_u32_bytes b bytes 48 size 40 (omega arith) at.at_descriptor).1;
    crc_u32 = (read_u32_bytes b bytes 48 size 44 (omega arith) at.at_crc).1;
  }

-- Only the encoding of a record in range decodes to that record.
pub encode_group-decode_group_record :
    (b : List ℕ) (r : GroupRecord)
    → length b ≡ 48
    → All IsByte b
    → decode_group_record b ≡ ok r
    → IsGroupRecord r × (encode_group r ≡ b)
unfolding encode_group
encode_group-decode_group_record b r size bytes e =
    let at = decode-GroupAt b r e in
    (
      GroupAt-IsGroupRecord b r at size bytes,
      eq_of_slice 48 (encode_group r) b (length-encode_group r) size (
          fill-Matches 48 b 0 48 (zeroed 48) (group_fields r) refl (fields-IsSized r)
            (fields_match b r at size bytes) refl),
    )
