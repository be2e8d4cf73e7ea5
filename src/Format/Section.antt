-- ===== src/Format/Section.antt =====
-- crates/pithos-format/src/lib.rs: `SectionType` and `SectionDirectoryRecord`.
pub mod RoundTrip
use pithos.Prelude.{ℕ, zero, suc, ◌<◌, Option, none, some, List, [], ◌∷◌}
use pithos.Core.Checked.{u16_end, u32_end, u64_end}
use pithos.Core.Bytes.{to_le_bytes}
use pithos.Format.Buffer.{zeroed, Patch, ◌until◌put◌, fill, read_u16, read_u32, read_u64}

pub data SectionType : Type 0 where
  codec_registry entry_table object_graph base_dictionary_area group_table : SectionType
  payload_area restore_map central_index integrity_tree optional_telemetry : SectionType

-- The discriminants of the source, `section_type as u16`.
unfoldable pub section_type_id : SectionType → ℕ
section_type_id codec_registry = 1
section_type_id entry_table = 2
section_type_id object_graph = 3
section_type_id base_dictionary_area = 4
section_type_id group_table = 5
section_type_id payload_area = 6
section_type_id restore_map = 7
section_type_id central_index = 8
section_type_id integrity_tree = 9
section_type_id optional_telemetry = 10

unfoldable pub section_type_from_u16 : ℕ → Option SectionType
section_type_from_u16 (suc zero) = some codec_registry
section_type_from_u16 (suc (suc zero)) = some entry_table
section_type_from_u16 (suc (suc (suc zero))) = some object_graph
section_type_from_u16 (suc (suc (suc (suc zero)))) = some base_dictionary_area
section_type_from_u16 (suc (suc (suc (suc (suc zero))))) = some group_table
section_type_from_u16 (suc (suc (suc (suc (suc (suc zero)))))) = some payload_area
section_type_from_u16 (suc (suc (suc (suc (suc (suc (suc zero))))))) = some restore_map
section_type_from_u16 (suc (suc (suc (suc (suc (suc (suc (suc zero)))))))) = some central_index
section_type_from_u16 (suc (suc (suc (suc (suc (suc (suc (suc (suc zero))))))))) =
    some integrity_tree
section_type_from_u16 (suc (suc (suc (suc (suc (suc (suc (suc (suc (suc zero)))))))))) =
    some optional_telemetry
section_type_from_u16 _ = none

abbrev pub section_entry_len : ℕ
section_entry_len = 32

pub record SectionDirectoryRecord : Type 0 where
  pub section_type : ℕ
  pub section_version : ℕ
  pub flags : ℕ
  pub offset : ℕ
  pub length : ℕ
  pub crc32c : ℕ
  pub reserved : ℕ

-- The ranges that the field types of the source give.
pub record IsSectionRecord (r : SectionDirectoryRecord) : Type 0 where
  pub type_u16 : r.section_type < u16_end
  pub version_u16 : r.section_version < u16_end
  pub flags_u32 : r.flags < u32_end
  pub offset_u64 : r.offset < u64_end
  pub length_u64 : r.length < u64_end
  pub crc_u32 : r.crc32c < u32_end
  pub reserved_u32 : r.reserved < u32_end

abbrev pub section_fields : SectionDirectoryRecord → List Patch
section_fields r =
    (0 until 2 put to_le_bytes 2 r.section_type)
    ∷ (2 until 4 put to_le_bytes 2 r.section_version)
    ∷ (4 until 8 put to_le_bytes 4 r.flags)
    ∷ (8 until 16 put to_le_bytes 8 r.offset)
    ∷ (16 until 24 put to_le_bytes 8 r.length)
    ∷ (24 until 28 put to_le_bytes 4 r.crc32c)
    ∷ (28 until 32 put to_le_bytes 4 r.reserved)
    ∷ []

unfoldable pub encode_section : SectionDirectoryRecord → List ℕ
encode_section r = fill (zeroed section_entry_len) (section_fields r)

unfoldable pub decode_section : List ℕ → SectionDirectoryRecord
decode_section buffer = record {
  section_type = read_u16 buffer 0;
  section_version = read_u16 buffer 2;
  flags = read_u32 buffer 4;
  offset = read_u64 buffer 8;
  length = read_u64 buffer 16;
  crc32c = read_u32 buffer 24;
  reserved = read_u32 buffer 28;
}
