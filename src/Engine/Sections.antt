-- ===== src/Engine/Sections.antt =====
-- crates/pithos-engine/src/lib.rs: `validate_header_limits`, the loop of `read_catalog` over the
-- section directory, and `validate_section_ranges`. A `BTreeMap` from section ids is the list of
-- its records in the order of their ids.
pub mod Disjoint
pub mod Complete
use pithos.Prelude.{
  ℕ, ◌+◌, ◌≡◌, not, Bool, true, false, ◌||◌, ◌&&◌, Option, none, some, List, [], ◌∷◌, ltb, leb,
  ◌==◌, ◌!=◌, if◌then◌else◌,
}
use pithos.Core.{
  Result, ok, err, ◌>>=◌, ◌>>◌, bail_if, ok_or, DecodeLimits, unsupported_container_version,
  resource_limit, invalid_range, integer_overflow, overlapping_sections, invalid_metadata,
  duplicate_section, missing_section,
}
use pithos.Core.Checked.{checked_add}
use pithos.Format.Header.{GlobalHeader, required_raw_sections, required_compressed_sections}
use pithos.Format.Section.{
  SectionType, codec_registry, entry_table, group_table, payload_area, restore_map, central_index,
  integrity_tree, section_type_id, section_type_from_u16, SectionDirectoryRecord, decode_section,
}

unfoldable pub validate_header_limits : GlobalHeader → ℕ → DecodeLimits → Result (Unit {0})
validate_header_limits header file_length limits = do
  bail_if (header.flags != 0) unsupported_container_version
  bail_if
      (not (
          header.section_count == required_raw_sections
          || header.section_count == required_compressed_sections)
        || ltb limits.max_sections header.section_count)
      (resource_limit "section count")
  bail_if (ltb limits.max_entries header.entry_count) (resource_limit "entry count")
  bail_if (ltb limits.max_groups header.group_count) (resource_limit "group count")
  bail_if (ltb limits.max_chunks header.logical_chunk_count) (resource_limit "chunk count")
  bail_if (ltb limits.max_original_bytes header.original_total_size)
      (resource_limit "original bytes")
  bail_if (leb file_length header.footer_offset) invalid_range
  ok tt

-- A pair `(offset, end)`.
pub record Range : Type 0 where
  pub start : ℕ
  pub end : ℕ

-- The closure of `map`, and the `collect` over it.
unfoldable pub section_range : ℕ → ℕ → SectionDirectoryRecord → Result Range
section_range directory_end footer_offset r = do
  end ← ok_or (checked_add r.offset r.length) integer_overflow
  bail_if (ltb r.offset directory_end || ltb footer_offset end) invalid_range
  ok (record { start = r.offset; end = end })

unfoldable pub section_ranges : ℕ → ℕ → List SectionDirectoryRecord → Result (List Range)
section_ranges directory_end footer_offset [] = ok []
section_ranges directory_end footer_offset (r ∷ rs) = do
  range ← section_range directory_end footer_offset r
  rest ← section_ranges directory_end footer_offset rs
  ok (range ∷ rest)

-- `sort_unstable` of pairs, whose result is the one sorted arrangement: by insertion.
abbrev pub range_le : Range → Range → Bool
range_le a b = ltb a.start b.start || a.start == b.start && leb a.end b.end

unfoldable pub insert_range : Range → List Range → List Range
insert_range a [] = a ∷ []
insert_range a (b ∷ bs) = if range_le a b then a ∷ b ∷ bs else b ∷ insert_range a bs

unfoldable pub sort_ranges : List Range → List Range
sort_ranges [] = []
sort_ranges (a ∷ as') = insert_range a (sort_ranges as')

-- The loop over `windows(2)`.
unfoldable pub check_windows : List Range → Result (Unit {0})
check_windows [] = ok tt
check_windows (a ∷ []) = ok tt
check_windows (a ∷ b ∷ rest) = do
  bail_if (ltb b.start a.end) overlapping_sections
  check_windows (b ∷ rest)

unfoldable pub validate_section_ranges : List SectionDirectoryRecord → ℕ → ℕ → Result (Unit {0})
validate_section_ranges records directory_end footer_offset = do
  ranges ← section_ranges directory_end footer_offset records
  check_windows (sort_ranges ranges)

abbrev pub is_raw_section : SectionType → Bool
is_raw_section entry_table = true
is_raw_section group_table = true
is_raw_section payload_area = true
is_raw_section restore_map = true
is_raw_section central_index = true
is_raw_section integrity_tree = true
is_raw_section _ = false

abbrev pub is_codec_registry : SectionType → Bool
is_codec_registry codec_registry = true
is_codec_registry _ = false

-- `section_map.get(&id)`, and `insert`, which keeps the order of the ids.
unfoldable pub get_section : ℕ → List SectionDirectoryRecord → Option SectionDirectoryRecord
get_section id [] = none
get_section id (r ∷ rs) = if r.section_type == id then some r else get_section id rs

unfoldable pub insert_section :
    SectionDirectoryRecord → List SectionDirectoryRecord → List SectionDirectoryRecord
insert_section r [] = r ∷ []
insert_section r (s ∷ ss) =
    if ltb r.section_type s.section_type
    then r ∷ s ∷ ss
    else if r.section_type == s.section_type
    then r ∷ ss
    else s ∷ insert_section r ss

abbrev pub is_some {ℓ} : {A : Type ℓ} → Option A → Bool
is_some none = false
is_some (some a) = true

-- One round of the loop over the directory's chunks.
unfoldable pub add_section :
    List SectionDirectoryRecord → SectionDirectoryRecord → Result (List SectionDirectoryRecord)
add_section section_map r = do
  bail_if (r.section_version != 1 || r.flags != 0 || r.reserved != 0)
      (invalid_metadata "section flags/version")
  section_type ← ok_or (section_type_from_u16 r.section_type) unsupported_container_version
  bail_if (not (is_raw_section section_type) && not (is_codec_registry section_type))
      unsupported_container_version
  bail_if (is_some (get_section r.section_type section_map)) duplicate_section
  ok (insert_section r section_map)

unfoldable pub read_sections :
    List SectionDirectoryRecord → List (List ℕ) → Result (List SectionDirectoryRecord)
read_sections section_map [] = ok section_map
read_sections section_map (chunk ∷ chunks) = do
  next ← add_section section_map (decode_section chunk)
  read_sections next chunks
