-- ===== src/Examples/Fixed.antt =====
-- The fixed-size records of the format at concrete inputs.
use pithos.Prelude.{ℕ, ◌+◌, ◌%◌, ◌≡◌, refl, List, [], ◌∷◌, arith, replicate, length, All}
use pithos.Core.{ok, err, checksum_mismatch}
use pithos.Core.Checked.{u32_end}
use pithos.Core.Bytes.{IsByte, to_le_bytes, from_le_bytes}
use pithos.Format.Crc.{Crc32c}
use pithos.Format.Same.{same_bytes}
use pithos.Format.Buffer.{fill, copy_from_slice, read_u16, read_u32, read_u64}
use pithos.Format.Header.{GlobalHeader, IsHeader, header_crc, encode_header, decode_header}
use pithos.Format.Header.Fields.{length-encode_header}
use pithos.Format.Header.RoundTrip.{decode_header-encode_header, encode_header-decode_header}
use pithos.Format.Section.{SectionDirectoryRecord}
use pithos.Format.Group.{GroupRecord, encode_group}
use pithos.Format.Footer.{Footer, footer_crc, encode_footer, decode_footer}

abbrev sum_bytes : List ℕ → ℕ
sum_bytes [] = 0
sum_bytes (b ∷ bs) = b + sum_bytes bs

-- A checksum for the runs: a sum of the bytes in the place of CRC32C.
abbrev byte_sum : Crc32c
byte_sum = record {
  append = λ state bytes. (state + sum_bytes bytes) % u32_end;
  append_u32 = λ state bytes. omega arith;
}

abbrev sample_header : GlobalHeader
sample_header = record {
  major = 0;
  minor = 1;
  flags = 0;
  archive_id = replicate 16 7;
  original_total_size = 1_000_000;
  entry_count = 42;
  logical_chunk_count = 40;
  group_count = 3;
  section_directory_offset = 96;
  footer_offset = 5000;
  section_count = 7;
}

abbrev sample_valid : IsHeader sample_header
sample_valid = omega arith

decode_header-encode_header_example :
    decode_header byte_sum (encode_header byte_sum sample_header) ≡ ok sample_header
decode_header-encode_header_example =
    decode_header-encode_header byte_sum sample_header sample_valid (omega arith)

sample_bytes : All IsByte (encode_header byte_sum sample_header)
unfolding encode_header header_crc fill copy_from_slice to_le_bytes
sample_bytes = omega arith

encode_header-decode_header_example :
    IsHeader sample_header
    × (encode_header byte_sum sample_header ≡ encode_header byte_sum sample_header)
encode_header-decode_header_example =
    encode_header-decode_header byte_sum (encode_header byte_sum sample_header) sample_header
      (length-encode_header byte_sum sample_header sample_valid) sample_bytes
      decode_header-encode_header_example

-- A flipped bit in the section count is noticed.
corrupt_header :
    decode_header byte_sum (copy_from_slice 92 93 (6 ∷ []) (encode_header byte_sum sample_header))
    ≡ err checksum_mismatch
unfolding decode_header encode_header header_crc fill copy_from_slice to_le_bytes from_le_bytes
    read_u16 read_u32 read_u64 same_bytes
corrupt_header = refl

abbrev sample_section : SectionDirectoryRecord
sample_section = record {
  section_type = 2;
  section_version = 1;
  flags = 0;
  offset = 320;
  length = 90;
  crc32c = 4_000_000_000;
  reserved = 0;
}

abbrev sample_group : GroupRecord
sample_group = record {
  version = 1;
  flags = 0;
  group_id = 2;
  codec_chain_id = 1;
  chunk_count = 5;
  uncompressed_len = 70_000;
  compressed_len = 30_000;
  descriptor_len = 0;
  payload_crc32c = 77;
}

group_bytes : All IsByte (encode_group sample_group)
unfolding encode_group fill copy_from_slice to_le_bytes
group_bytes = omega arith

abbrev sample_footer : Footer
sample_footer = record {
  archive_length = 5064;
  blake3_root = replicate 32 9;
  directory_crc32c = 7;
  version = 1;
}

-- The encoded footer with other reserved bytes, and the checksum that fits them.
abbrev with_reserved : List ℕ
with_reserved = copy_from_slice 60 64 (1 ∷ 2 ∷ 3 ∷ 4 ∷ []) (encode_footer byte_sum sample_footer)

abbrev odd_footer : List ℕ
odd_footer = copy_from_slice 56 60 (to_le_bytes 4 (footer_crc byte_sum with_reserved)) with_reserved

odd_footer_decodes : decode_footer byte_sum odd_footer ≡ ok sample_footer
unfolding decode_footer encode_footer footer_crc fill copy_from_slice to_le_bytes from_le_bytes
    read_u32 read_u64 same_bytes
odd_footer_decodes = refl

odd_footer_length : length odd_footer ≡ 64
unfolding encode_footer footer_crc fill copy_from_slice to_le_bytes
odd_footer_length = refl

odd_footer_bytes : All IsByte odd_footer
unfolding encode_footer footer_crc fill copy_from_slice to_le_bytes
odd_footer_bytes = omega arith
