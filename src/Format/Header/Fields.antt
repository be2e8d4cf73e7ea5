-- ===== src/Format/Header/Fields.antt =====
-- `GlobalHeader`: what `encode` leaves in each field of the 96 bytes, and what a successful
-- `decode` found there.
use pithos.Prelude.{ℕ, ◌≤◌, ◌<◌, ◌≡◌, refl, sym, ap, ◌∙◌, ◌⊎◌, some, List, arith, length}
use mathlib.Core.Path.{ap₂}
use pithos.Core.Checked.{u32_end}
use pithos.Core.Bytes.{to_le_bytes, length-to_le_bytes}
use pithos.Format.Crc.{Crc32c}
use pithos.Format.Buffer.{zeroed, slice, fill, read_u16, read_u32, read_u64}
use pithos.Format.Buffer.Sealed.{length-sealed, sealed_beside, sealed_field, sealed_crc}
use pithos.Format.Buffer.Reads.{read_u16_of, read_u32_of, read_u64_of}
use pithos.Format.Buffer.Fill.{IsSized, written}
use pithos.Format.Header.{
  GlobalHeader, IsHeader, header_fields, header_crc, encode_header, global_magic, header_len,
  major_version, minor_version,
}

-- The buffer holds the header `h` in its fields, with the checksum of the rest.
pub record HeaderAt (crc : Crc32c) (buffer : List ℕ) (h : GlobalHeader) : Type 0 where
  pub at_magic : slice 0 8 buffer ≡ global_magic
  pub at_crc : read_u32 buffer 88 ≡ header_crc crc buffer
  pub at_len : read_u32 buffer 12 ≡ header_len
  pub at_major : read_u16 buffer 8 ≡ h.major
  pub at_minor : read_u16 buffer 10 ≡ h.minor
  pub at_flags : read_u64 buffer 16 ≡ h.flags
  pub at_id : slice 24 40 buffer ≡ h.archive_id
  pub at_total : read_u64 buffer 40 ≡ h.original_total_size
  pub at_entries : read_u64 buffer 48 ≡ h.entry_count
  pub at_chunks : read_u64 buffer 56 ≡ h.logical_chunk_count
  pub at_groups : read_u64 buffer 64 ≡ h.group_count
  pub at_directory : read_u64 buffer 72 ≡ h.section_directory_offset
  pub at_footer : read_u64 buffer 80 ≡ h.footer_offset
  pub at_sections : read_u32 buffer 92 ≡ h.section_count

-- The versions that this decoder reads.
pub record IsReadable (h : GlobalHeader) : Type 0 where
  pub major_exact : h.major ≡ major_version
  pub minor_known : h.minor ≤ minor_version

module _ (crc : Crc32c) (h : GlobalHeader) (valid : IsHeader h) where
  pub fields-IsSized : IsSized 96 (header_fields h)
  fields-IsSized = omega (arith, length-to_le_bytes, valid.id_length)

  plain_crc : ℕ
  unfolding encode_header
  plain_crc = header_crc crc (fill (zeroed header_len) (header_fields h))

  pub length-encode_header : length (encode_header crc h) ≡ 96
  unfolding encode_header plain_crc
  length-encode_header =
      length-sealed 96 88 92 (omega arith) refl (header_fields h) fields-IsSized plain_crc

  field :
      (a b : ℕ) {bs : List ℕ}
      → a ≤ b
      → (b ≤ 88) ⊎ (92 ≤ a)
      → written a b (header_fields h) ≡ some bs
      → slice a b (encode_header crc h) ≡ bs
  unfolding encode_header plain_crc
  field = sealed_field 96 88 92 (omega arith) refl (header_fields h) fields-IsSized plain_crc

  pub beside_crc :
      (a b : ℕ)
      → a ≤ b
      → (b ≤ 88) ⊎ (92 ≤ a)
      → slice a b (encode_header crc h) ≡ slice a b (fill (zeroed header_len) (header_fields h))
  unfolding encode_header plain_crc
  beside_crc = sealed_beside 96 88 92 (omega arith) refl (header_fields h) fields-IsSized plain_crc

  same_crc : header_crc crc (encode_header crc h) ≡ plain_crc
  unfolding header_crc encode_header plain_crc
  same_crc =
      let beside =
        sealed_beside 96 88 92 (omega arith) refl (header_fields h) fields-IsSized plain_crc in
      ap₂ (λ front back. crc.append (crc.append 0 front) back)
        (beside_crc 0 88 (omega arith) (omega arith)) (beside_crc 92 96 (omega arith) (omega arith))

  plain_crc_u32 : plain_crc < u32_end
  unfolding plain_crc header_crc
  plain_crc_u32 = crc.append_u32 _ _

  crc_field : slice 88 92 (encode_header crc h) ≡ to_le_bytes 4 plain_crc
  unfolding encode_header plain_crc
  crc_field = sealed_crc 96 88 92 (omega arith) refl (header_fields h) fields-IsSized plain_crc

  read_crc : read_u32 (encode_header crc h) 88 ≡ header_crc crc (encode_header crc h)
  read_crc = read_u32_of (encode_header crc h) 88 plain_crc_u32 crc_field ∙ sym same_crc

  -- Every field of an encoded header reads back.
  pub encode_header-HeaderAt : HeaderAt crc (encode_header crc h) h
  encode_header-HeaderAt =
      let b = encode_header crc h in
      record {
        at_magic = field 0 8 (omega arith) (omega arith) refl;
        at_crc = read_crc;
        at_len = read_u32_of b 12 (omega arith) (field 12 16 (omega arith) (omega arith) refl);
        at_major = read_u16_of b 8 valid.major_u16 (field 8 10 (omega arith) (omega arith) refl);
        at_minor = read_u16_of b 10 valid.minor_u16 (field 10 12 (omega arith) (omega arith) refl);
        at_flags = read_u64_of b 16 valid.flags_u64 (field 16 24 (omega arith) (omega arith) refl);
        at_id = field 24 40 (omega arith) (omega arith) refl;
        at_total = read_u64_of b 40 valid.total_u64 (field 40 48 (omega arith) (omega arith) refl);
        at_entries =
            read_u64_of b 48 valid.entries_u64 (field 48 56 (omega arith) (omega arith) refl);
        at_chunks =
            read_u64_of b 56 valid.chunks_u64 (field 56 64 (omega arith) (omega arith) refl);
        at_groups =
            read_u64_of b 64 valid.groups_u64 (field 64 72 (omega arith) (omega arith) refl);
        at_directory =
            read_u64_of b 72 valid.directory_u64 (field 72 80 (omega arith) (omega arith) refl);
        at_footer =
            read_u64_of b 80 valid.footer_u64 (field 80 88 (omega arith) (omega arith) refl);
        at_sections =
            read_u32_of b 92 valid.sections_u32 (field 92 96 (omega arith) (omega arith) refl);
      }

  pub crc_bytes :
      slice 88 92 (encode_header crc h) ≡ to_le_bytes 4 (header_crc crc (encode_header crc h))
  crc_bytes = crc_field ∙ ap (to_le_bytes 4) (sym same_crc)
