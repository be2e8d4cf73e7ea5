-- ===== src/Engine/Sections/Disjoint.antt =====
-- `validate_section_ranges` accepts only sections that lie between the directory and the footer and
-- do not overlap.
use pithos.Prelude.{
  map, ℕ, ◌+◌, ◌≤◌, ◌≡◌, subst, ◌⊎◌, inl, inr, List, [], ◌∷◌, arith, All, Bool-cases,
}
use pithos.Core.{ok, bind-inv}
use pithos.Format.Section.{SectionDirectoryRecord}
use pithos.Engine.Sections.{
  Range, section_range, section_ranges, range_le, insert_range, sort_ranges, check_windows,
  validate_section_ranges,
}

abbrev pub Apart : Range → Range → Type 0
Apart a b = (a.end ≤ b.start) ⊎ (b.end ≤ a.start)

abbrev pub AllApart : List Range → Type 0
AllApart [] = Unit
AllApart (a ∷ as') = All (Apart a) as' × AllApart as'

abbrev pub IsForward : Range → Type 0
IsForward a = a.start ≤ a.end

-- In a row that the windows accept, every later range begins behind the first.
windows_behind :
    (low : ℕ) (a : Range) (rest : List Range)
    → All IsForward (a ∷ rest)
    → check_windows (a ∷ rest) ≡ ok tt
    → low ≤ a.start
    → All (λ b. low ≤ b.start) (a ∷ rest)
unfolding check_windows
windows_behind low a [] f c h = (h, tt)
windows_behind low a (b ∷ rest) f c h =
    (h, windows_behind low b rest f.1 (ground arith) (ground arith))

behind_Apart :
    (a : Range) (rest : List Range) → All (λ b. a.end ≤ b.start) rest → All (Apart a) rest
behind_Apart a [] h = tt
behind_Apart a (b ∷ rest) h = (inl h.0, behind_Apart a rest h.1)

windows-AllApart :
    (ranges : List Range) → All IsForward ranges → check_windows ranges ≡ ok tt → AllApart ranges
unfolding check_windows
windows-AllApart [] f c = tt
windows-AllApart (a ∷ []) f c = (tt, tt)
windows-AllApart (a ∷ b ∷ rest) f c = (
  behind_Apart a (b ∷ rest) (windows_behind a.end b rest f.1 (ground arith) (ground arith)),
  windows-AllApart (b ∷ rest) f.1 (ground arith),
)

-- What holds of all ranges of the sorted row holds of the row before sorting.
All-insert_range :
    (P : Range → Type 0) (a : Range) (bs : List Range) → All P (insert_range a bs) → P a × All P bs
unfolding insert_range
All-insert_range P a [] h = h
All-insert_range P a (b ∷ bs) h = elim (Bool-cases (range_le a b)) [
  | inl le ↦ rw le at h
  | inr gt ↦
      let h' : All P (b ∷ insert_range a bs) = rw gt at h in
      let ih = All-insert_range P a bs h'.1 in (ih.0, (h'.0, ih.1))
]

pub insert_range-All :
    (P : Range → Type 0) (a : Range) (bs : List Range) → P a → All P bs → All P (insert_range a bs)
unfolding insert_range
insert_range-All P a [] p h = (p, tt)
insert_range-All P a (b ∷ bs) p h = elim (Bool-cases (range_le a b)) [
  | inl le ↦ rw le (p, h)
  | inr gt ↦ rw gt (h.0, insert_range-All P a bs p h.1)
]

pub Apart-sym : (a b : Range) → Apart a b → Apart b a
Apart-sym a b (inl h) = inr h
Apart-sym a b (inr h) = inl h

AllApart-insert_range :
    (a : Range) (bs : List Range) → AllApart (insert_range a bs) → All (Apart a) bs × AllApart bs
unfolding insert_range
AllApart-insert_range a [] h = h
AllApart-insert_range a (b ∷ bs) h = elim (Bool-cases (range_le a b)) [
  | inl le ↦ rw le at h
  | inr gt ↦
      let h' : All (Apart b) (insert_range a bs) × AllApart (insert_range a bs) = rw gt at h in
      let front = All-insert_range (Apart b) a bs h'.0 in
      let ih = AllApart-insert_range a bs h'.1 in ((Apart-sym b a front.0, ih.0), (front.1, ih.1))
]

pub All-sort_ranges : (P : Range → Type 0) (as' : List Range) → All P as' → All P (sort_ranges as')
unfolding sort_ranges
All-sort_ranges P [] h = tt
All-sort_ranges P (a ∷ as') h =
    insert_range-All P a (sort_ranges as') h.0 (All-sort_ranges P as' h.1)

sort_ranges-All : (P : Range → Type 0) (as' : List Range) → All P (sort_ranges as') → All P as'
unfolding sort_ranges
sort_ranges-All P [] h = tt
sort_ranges-All P (a ∷ as') h =
    let back = All-insert_range P a (sort_ranges as') h in (back.0, sort_ranges-All P as' back.1)

AllApart-sort_ranges : (as' : List Range) → AllApart (sort_ranges as') → AllApart as'
unfolding sort_ranges
AllApart-sort_ranges [] h = tt
AllApart-sort_ranges (a ∷ as') h =
    let back = AllApart-insert_range a (sort_ranges as') h in
    (sort_ranges-All (Apart a) as' back.0, AllApart-sort_ranges as' back.1)

abbrev pub range_of : SectionDirectoryRecord → Range
range_of r = record { start = r.offset; end = r.offset + r.length }

-- A section that starts behind the directory and ends before the footer.
abbrev pub Inside : ℕ → ℕ → SectionDirectoryRecord → Type 0
Inside directory_end footer_offset r =
    (directory_end ≤ r.offset) × (r.offset + r.length ≤ footer_offset)

section_range-ok :
    (d f : ℕ) (r : SectionDirectoryRecord) {range : Range}
    → section_range d f r ≡ ok range
    → Inside d f r × (range ≡ range_of r)
unfolding section_range
section_range-ok d f r q = ground arith

section_ranges-ok :
    (d f : ℕ) (records : List SectionDirectoryRecord) {ranges : List Range}
    → section_ranges d f records ≡ ok ranges
    → All (Inside d f) records × (ranges ≡ map range_of records)
unfolding section_ranges
section_ranges-ok d f [] q = (tt, ground arith)
section_ranges-ok d f (r ∷ rs) {ranges = ranges} q =
    let (range, e1, q1) = bind-inv (section_range d f r) _ q in
    let (rest, e2, q2) = bind-inv (section_ranges d f rs) _ q1 in
    let first = section_range-ok d f r e1 in
    let ih = section_ranges-ok d f rs e2 in
    let same : ranges ≡ range ∷ rest = cc q2 in
    let head_same : range ≡ range_of r = first.1 in
    let tail_same : rest ≡ map range_of rs = ih.1 in
    let both : ranges ≡ range_of r ∷ map range_of rs = cc in ((first.0, ih.0), both)

pub map-IsForward : (records : List SectionDirectoryRecord) → All IsForward (map range_of records)
map-IsForward [] = tt
map-IsForward (r ∷ rs) = (omega arith, map-IsForward rs)

-- Accepted sections all lie between the end of the directory and the footer, and no two of them share
-- a byte.
pub validate_section_ranges-AllApart :
    (records : List SectionDirectoryRecord) (directory_end footer_offset : ℕ)
    → validate_section_ranges records directory_end footer_offset ≡ ok tt
    → All (Inside directory_end footer_offset) records × AllApart (map range_of records)
unfolding validate_section_ranges
validate_section_ranges-AllApart records d f q =
    let (ranges, e, c) = bind-inv (section_ranges d f records) _ q in
    let (inside, same) = section_ranges-ok d f records e in
    let accepted : check_windows (sort_ranges (map range_of records)) ≡ ok tt =
      subst (λ row. check_windows (sort_ranges row) ≡ ok tt) same c in
    (
      inside,
      AllApart-sort_ranges (map range_of records) (
          windows-AllApart (sort_ranges (map range_of records))
            (All-sort_ranges IsForward (map range_of records) (map-IsForward records)) accepted),
    )
