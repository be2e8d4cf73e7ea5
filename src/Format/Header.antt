-- ===== src/Format/Header.antt =====
-- crates/pithos-format/src/lib.rs: `GlobalHeader`, the 96 bytes at the front of an archive.

pub mod Fields
pub mod RoundTrip
use pithos.Prelude.{ℕ, ◌≡◌, not, ◌||◌, List, [], ◌∷◌, ltb, ◌!=◌, All, length, ◌<◌}
use pithos.Core.{
  Result, ok, ◌>>◌, bail_if, invalid_magic, checksum_mismatch, unsupported_container_version,
}
use pithos.Core.Checked.{u16_end, u32_end, u64_end}
use pithos.Core.Bytes.{IsByte, to_le_bytes}
use pithos.Format.Buffer.{
  zeroed, slice, copy_from_slice, Patch, ◌until◌put◌, fill, read_u16, read_u32, read_u64,
}
use pithos.Format.Crc.{Crc32c, crc32c}
use pithos.Format.Same.{same_bytes}

-- b"UDOC\r\n\x1A\n"
abbrev pub global_magic : List ℕ
global_magic = b'U' ∷ b'D' ∷ b'O' ∷ b'C' ∷ 13 ∷ 10 ∷ 0x1a ∷ 10 ∷ []

abbrev pub header_len : ℕ
header_len = 96

abbrev pub major_version : ℕ
major_version = 0

abbrev pub minor_version : ℕ
minor_version = 1

abbrev pub required_raw_sections : ℕ
required_raw_sections = 6

abbrev pub required_compressed_sections : ℕ
required_compressed_sections = 7

pub record GlobalHeader : Type 0 where
  pub major : ℕ
  pub minor : ℕ
  pub flags : ℕ
  pub archive_id : List ℕ
  pub original_total_size : ℕ
  pub entry_count : ℕ
  pub logical_chunk_count : ℕ
  pub group_count : ℕ
  pub section_directory_offset : ℕ
  pub footer_offset : ℕ
  pub section_count : ℕ

unfoldable pub new_header : List ℕ → GlobalHeader
new_header archive_id = record {
  major = major_version;
  minor = minor_version;
  flags = 0;
  archive_id = archive_id;
  original_total_size = 0;
  entry_count = 0;
  logical_chunk_count = 0;
  group_count = 0;
  section_directory_offset = header_len;
  footer_offset = 0;
  section_count = required_raw_sections;
}

-- The ranges that the field types of the source give.
pub record IsHeader (h : GlobalHeader) : Type 0 where
  pub major_u16 : h.major < u16_end
  pub minor_u16 : h.minor < u16_end
  pub flags_u64 : h.flags < u64_end
  pub id_length : length h.archive_id ≡ 16
  pub id_bytes : All IsByte h.archive_id
  pub total_u64 : h.original_total_size < u64_end
  pub entries_u64 : h.entry_count < u64_end
  pub chunks_u64 : h.logical_chunk_count < u64_end
  pub groups_u64 : h.group_count < u64_end
  pub directory_u64 : h.section_directory_offset < u64_end
  pub footer_u64 : h.footer_offset < u64_end
  pub sections_u32 : h.section_count < u32_end

-- The assignments of `encode` before the checksum, in the order of the source.
abbrev pub header_fields : GlobalHeader → List Patch
header_fields h =
    (0 until 8 put global_magic)
    ∷ (8 until 10 put to_le_bytes 2 h.major)
    ∷ (10 until 12 put to_le_bytes 2 h.minor)
    ∷ (12 until 16 put to_le_bytes 4 header_len)
    ∷ (16 until 24 put to_le_bytes 8 h.flags)
    ∷ (24 until 40 put h.archive_id)
    ∷ (40 until 48 put to_le_bytes 8 h.original_total_size)
    ∷ (48 until 56 put to_le_bytes 8 h.entry_count)
    ∷ (56 until 64 put to_le_bytes 8 h.logical_chunk_count)
    ∷ (64 until 72 put to_le_bytes 8 h.group_count)
    ∷ (72 until 80 put to_le_bytes 8 h.section_directory_offset)
    ∷ (80 until 88 put to_le_bytes 8 h.footer_offset)
    ∷ (92 until 96 put to_le_bytes 4 h.section_count)
    ∷ []

module _ (crc : Crc32c) where
  unfoldable pub header_crc : List ℕ → ℕ
  header_crc buffer =
      let first = crc32c crc (slice 0 88 buffer) in crc.append first (slice 92 96 buffer)

  unfoldable pub encode_header : GlobalHeader → List ℕ
  encode_header h =
      let buffer = fill (zeroed header_len) (header_fields h) in
      copy_from_slice 88 92 (to_le_bytes 4 (header_crc buffer)) buffer

  unfoldable pub decode_header : List ℕ → Result GlobalHeader
  decode_header buffer = do
    bail_if (not (same_bytes (slice 0 8 buffer) global_magic)) invalid_magic
    bail_if (read_u32 buffer 88 != header_crc buffer) checksum_mismatch
    let major = read_u16 buffer 8
    let minor = read_u16 buffer 10
    bail_if (read_u32 buffer 12 != header_len || major != major_version || ltb minor_version minor)
        unsupported_container_version
    ok (record {
      major = major;
      minor = minor;
      flags = read_u64 buffer 16;
      archive_id = slice 24 40 buffer;
      original_total_size = read_u64 buffer 40;
      entry_count = read_u64 buffer 48;
      logical_chunk_count = read_u64 buffer 56;
      group_count = read_u64 buffer 64;
      section_directory_offset = read_u64 buffer 72;
      footer_offset = read_u64 buffer 80;
      section_count = read_u32 buffer 92;
    })
