-- ===== src/Format/Group.antt =====
-- crates/pithos-format/src/lib.rs: `GroupRecord`, the 48-byte descriptor of a solid group.
pub mod RoundTrip
use pithos.Prelude.{ℕ, ◌<◌, not, List, [], ◌∷◌}
use pithos.Core.{Result, ok, ◌>>=◌, ◌>>◌, bail_if, invalid_magic}
use pithos.Core.Checked.{u16_end, u32_end, u64_end}
use pithos.Core.Bytes.{to_le_bytes}
use pithos.Format.Same.{same_bytes}
use pithos.Format.Buffer.{zeroed, slice, Patch, ◌until◌put◌, fill, read_u16, read_u32, read_u64}

-- b"UGRP"
abbrev pub group_magic : List ℕ
group_magic = b'U' ∷ b'G' ∷ b'R' ∷ b'P' ∷ []

abbrev pub group_record_len : ℕ
group_record_len = 48

pub record GroupRecord : Type 0 where
  pub version : ℕ
  pub flags : ℕ
  pub group_id : ℕ
  pub codec_chain_id : ℕ
  pub chunk_count : ℕ
  pub uncompressed_len : ℕ
  pub compressed_len : ℕ
  pub descriptor_len : ℕ
  pub payload_crc32c : ℕ

-- The ranges that the field types of the source give.
pub record IsGroupRecord (r : GroupRecord) : Type 0 where
  pub version_u16 : r.version < u16_end
  pub flags_u16 : r.flags < u16_end
  pub id_u64 : r.group_id < u64_end
  pub chain_u32 : r.codec_chain_id < u32_end
  pub chunks_u32 : r.chunk_count < u32_end
  pub uncompressed_u64 : r.uncompressed_len < u64_end
  pub compressed_u64 : r.compressed_len < u64_end
  pub descriptor_u32 : r.descriptor_len < u32_end
  pub crc_u32 : r.payload_crc32c < u32_end

abbrev pub group_fields : GroupRecord → List Patch
group_fields r =
    (0 until 4 put group_magic)
    ∷ (4 until 6 put to_le_bytes 2 r.version)
    ∷ (6 until 8 put to_le_bytes 2 r.flags)
    ∷ (8 until 16 put to_le_bytes 8 r.group_id)
    ∷ (16 until 20 put to_le_bytes 4 r.codec_chain_id)
    ∷ (20 until 24 put to_le_bytes 4 r.chunk_count)
    ∷ (24 until 32 put to_le_bytes 8 r.uncompressed_len)
    ∷ (32 until 40 put to_le_bytes 8 r.compressed_len)
    ∷ (40 until 44 put to_le_bytes 4 r.descriptor_len)
    ∷ (44 until 48 put to_le_bytes 4 r.payload_crc32c)
    ∷ []

unfoldable pub encode_group : GroupRecord → List ℕ
encode_group r = fill (zeroed group_record_len) (group_fields r)

unfoldable pub decode_group_record : List ℕ → Result GroupRecord
decode_group_record buffer = do
  bail_if (not (same_bytes (slice 0 4 buffer) group_magic)) invalid_magic
  ok (record {
    version = read_u16 buffer 4;
    flags = read_u16 buffer 6;
    group_id = read_u64 buffer 8;
    codec_chain_id = read_u32 buffer 16;
    chunk_count = read_u32 buffer 20;
    uncompressed_len = read_u64 buffer 24;
    compressed_len = read_u64 buffer 32;
    descriptor_len = read_u32 buffer 40;
    payload_crc32c = read_u32 buffer 44;
  })
