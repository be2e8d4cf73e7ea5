-- ===== src/Examples/Sections.antt =====
-- The section directory at a concrete input.
use pithos.Prelude.{ℕ, ◌≡◌, ◌↔◌, arith, refl, List, [], ◌∷◌, All, map}
use pithos.Core.{ok, err, overlapping_sections}
use pithos.Format.Section.{SectionDirectoryRecord}
use pithos.Engine.Sections.{
  section_ranges, section_range, insert_range, sort_ranges, check_windows, validate_section_ranges,
}
use pithos.Engine.Sections.Complete.{validate_section_ranges_iff}
use pithos.Engine.Sections.Disjoint.{Inside, AllApart, range_of}

abbrev entries_at : ℕ → SectionDirectoryRecord
entries_at offset = record {
  section_type = 1;
  section_version = 1;
  flags = 0;
  offset = offset;
  length = 20;
  crc32c = 7;
  reserved = 0;
}

abbrev three_sections : List SectionDirectoryRecord
three_sections = entries_at 320 ∷ entries_at 288 ∷ entries_at 400 ∷ []

overlap_refused :
    validate_section_ranges (entries_at 300 ∷ entries_at 288 ∷ []) 288 500
    ≡ err overlapping_sections
unfolding validate_section_ranges section_ranges section_range insert_range sort_ranges
    check_windows
overlap_refused = refl

three_accepted : validate_section_ranges three_sections 288 500 ≡ ok tt
unfolding validate_section_ranges section_ranges section_range insert_range sort_ranges
    check_windows
three_accepted = refl

validate_section_ranges_iff_example :
    (validate_section_ranges three_sections 288 500 ≡ ok tt)
    ↔ (All (Inside 288 500) three_sections × AllApart (map range_of three_sections))
validate_section_ranges_iff_example =
    validate_section_ranges_iff three_sections 288 500 (omega arith)
