-- ===== src/Engine/Sections/Complete.antt =====
-- `validate_section_ranges` accepts every directory whose sections lie between the directory and the
-- footer and do not overlap.
use pithos.Prelude.{
  ℕ, ◌+◌, ◌<◌, ◌≡◌, ◌↔◌, refl, inl, inr, true, false, List, [], ◌∷◌, map, arith, All, All_imp,
  Bool-cases, ltb,
}
use pithos.Core.{ok}
use pithos.Core.Checked.{u64_end}
use pithos.Format.Section.{SectionDirectoryRecord}
use pithos.Engine.Sections.{
  Range, section_range, section_ranges, range_le, insert_range, sort_ranges, check_windows,
  validate_section_ranges,
}
use pithos.Engine.Sections.Disjoint.{
  Apart, AllApart, IsForward, Apart-sym, insert_range-All, All-sort_ranges, map-IsForward, range_of,
  Inside, validate_section_ranges-AllApart,
}

abbrev IsSorted : List Range → Type 0
IsSorted [] = Unit
IsSorted (a ∷ as') = All (λ b. range_le a b ≡ true) as' × IsSorted as'

range_le_trans : (a b c : Range) → range_le a b ≡ true → range_le b c ≡ true → range_le a c ≡ true
range_le_trans a b c h k = ground arith

range_le_total : (a b : Range) → range_le a b ≡ false → range_le b a ≡ true
range_le_total a b h = ground arith

insert_range-IsSorted : (a : Range) (bs : List Range) → IsSorted bs → IsSorted (insert_range a bs)
unfolding insert_range
insert_range-IsSorted a [] h = (tt, tt)
insert_range-IsSorted a (b ∷ bs) h = elim (Bool-cases (range_le a b)) [
  | inl le ↦
      let later =
        All_imp (λ c. range_le b c ≡ true) (λ c. range_le a c ≡ true) bs
          (λ c k. range_le_trans a b c le k) h.0 in
      rw le ((le, later), h)
  | inr gt ↦ rw gt (
    insert_range-All (λ c. range_le b c ≡ true) a bs (range_le_total a b gt) h.0,
    insert_range-IsSorted a bs h.1,
  )
]

sort_ranges-IsSorted : (as' : List Range) → IsSorted (sort_ranges as')
unfolding sort_ranges
sort_ranges-IsSorted [] = tt
sort_ranges-IsSorted (a ∷ as') =
    insert_range-IsSorted a (sort_ranges as') (sort_ranges-IsSorted as')

insert_range-AllApart :
    (a : Range) (bs : List Range) → All (Apart a) bs → AllApart bs → AllApart (insert_range a bs)
unfolding insert_range
insert_range-AllApart a [] h k = (tt, tt)
insert_range-AllApart a (b ∷ bs) h k = elim (Bool-cases (range_le a b)) [
  | inl le ↦ rw le (h, k)
  | inr gt ↦
      rw gt (
        insert_range-All (Apart b) a bs (Apart-sym a b h.0) k.0,
        insert_range-AllApart a bs h.1 k.1,
      )
]

sort_ranges-AllApart : (as' : List Range) → AllApart as' → AllApart (sort_ranges as')
unfolding sort_ranges
sort_ranges-AllApart [] h = tt
sort_ranges-AllApart (a ∷ as') h =
    insert_range-AllApart a (sort_ranges as') (All-sort_ranges (Apart a) as' h.0)
      (sort_ranges-AllApart as' h.1)

next_behind :
    (a b : Range)
    → IsForward a
    → IsForward b
    → range_le a b ≡ true
    → Apart a b
    → ltb b.start a.end ≡ false
next_behind a b f g le (inl h) = ground arith
next_behind a b f g le (inr h) = ground arith

sorted_windows :
    (ranges : List Range)
    → All IsForward ranges
    → IsSorted ranges
    → AllApart ranges
    → check_windows ranges ≡ ok tt
unfolding check_windows
sorted_windows [] f s h = refl
sorted_windows (a ∷ []) f s h = refl
sorted_windows (a ∷ b ∷ rest) f s h =
    rw (next_behind a b f.0 f.1.0 s.0.0 h.0.0) (sorted_windows (b ∷ rest) f.1 s.1 h.1)

section_range-Inside :
    (d f : ℕ) (r : SectionDirectoryRecord)
    → f < u64_end
    → Inside d f r
    → section_range d f r ≡ ok (range_of r)
unfolding section_range
section_range-Inside d f r fits h =
    let end_fits : ltb (r.offset + r.length) u64_end ≡ true = ground arith in
    let after : ltb r.offset d ≡ false = ground arith in
    let before : ltb f (r.offset + r.length) ≡ false = ground arith in
    rw (end_fits, after, before) refl

section_ranges-Inside :
    (d f : ℕ) (records : List SectionDirectoryRecord)
    → f < u64_end
    → All (Inside d f) records
    → section_ranges d f records ≡ ok (map range_of records)
unfolding section_ranges
section_ranges-Inside d f [] fits h = refl
section_ranges-Inside d f (r ∷ rs) fits h =
    let first = section_range-Inside d f r fits h.0 in
    let ih = section_ranges-Inside d f rs fits h.1 in rw (first, ih) refl

-- For a footer offset that is a `u64`, the sections are accepted exactly when all lie between the end
-- of the directory and the footer and no two of them share a byte or enclose an empty one.
pub validate_section_ranges_iff :
    (records : List SectionDirectoryRecord) (directory_end footer_offset : ℕ)
    → footer_offset < u64_end
    → (validate_section_ranges records directory_end footer_offset ≡ ok tt)
      ↔ (All (Inside directory_end footer_offset) records × AllApart (map range_of records))
unfolding validate_section_ranges
validate_section_ranges_iff records d f fits = (
  λ q. validate_section_ranges-AllApart records d f q,
  λ h.
      let ranges = map range_of records in
      let forward = map-IsForward records in
      let collected = section_ranges-Inside d f records fits h.0 in
      rw collected (
        sorted_windows (sort_ranges ranges) (All-sort_ranges IsForward ranges forward)
          (sort_ranges-IsSorted ranges) (sort_ranges-AllApart ranges h.1)),
)
