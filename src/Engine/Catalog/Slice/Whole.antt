-- ===== src/Engine/Catalog/Slice/Whole.antt =====
-- The slices of the mappings that tile a group are its bytes.
use pithos.Prelude.{
  get_elem?, zero, suc, ℕ, ◌+◌, ◌-◌, ◌≤◌, ◌<◌, ◌≡◌, refl, sym, ap, subst, true, false, Option, some,
  List, [], ◌∷◌, ◌++◌, arith, length, take, drop, take-append-drop, drop-drop, drop_all, ltb, leb,
}
use pithos.Core.{DecodeLimits, Result, ok, ◌>>=◌}
use pithos.Core.Checked.{u64_end}
use pithos.Format.Tables.{GroupTableRecord, RestoreMapRecord}
use pithos.Format.Codec.{CodecRegistry}
use pithos.Format.Section.{SectionDirectoryRecord}
use pithos.Engine.Catalog.Groups.{check_groups, mappings_of}
use pithos.Engine.Catalog.Groups.Tiled.{MappingsTile, IsMapped, GroupsTile, check_groups-GroupsTile}
use pithos.Engine.Catalog.Slice.{restored_slice}

-- The whole slices of a row of mappings, one behind the other.
unfoldable pub joined_slices : List ℕ → List RestoreMapRecord → Result (List ℕ)
joined_slices decoded_group [] = ok []
joined_slices decoded_group (r ∷ rs) = do
  slice ← restored_slice decoded_group r 0 r.length
  rest ← joined_slices decoded_group rs
  ok (slice ++ rest)

MappingsTile-le :
    (first last : ℕ) (rs : List RestoreMapRecord) → MappingsTile first last rs → first ≤ last
MappingsTile-le first last [] h = omega arith
MappingsTile-le first last (r ∷ rs) (at, rest) =
    let ih = MappingsTile-le (first + r.length) last rs rest in omega arith

restored_slice_whole :
    (bytes : List ℕ) (r : RestoreMapRecord)
    → r.group_offset + r.length ≤ length bytes
    → length bytes < u64_end
    → restored_slice bytes r 0 r.length ≡ ok (take r.length (drop r.group_offset bytes))
unfolding restored_slice
restored_slice_whole bytes r inside fits =
    let len_fits : ltb r.length u64_end ≡ true = ground arith in
    let within : ltb r.length r.length ≡ false = ground arith in
    let at_fits : ltb r.group_offset u64_end ≡ true = ground arith in
    let end_fits : ltb (r.group_offset + r.length) u64_end ≡ true = ground arith in
    let forward : leb r.group_offset (r.group_offset + r.length) ≡ true = ground arith in
    let reaches : leb (r.group_offset + r.length) (length bytes) ≡ true = ground arith in
    let zero_left : 0 + r.length ≡ r.length = omega arith in
    let zero_right : r.group_offset + 0 ≡ r.group_offset = omega arith in
    let minus : r.group_offset + r.length - r.group_offset ≡ r.length = omega arith in
    rw (zero_left, len_fits, within, zero_right, at_fits, end_fits, forward, reaches, minus) refl

joined_slices-drop :
    (bytes : List ℕ) (first : ℕ) (rs : List RestoreMapRecord)
    → length bytes < u64_end
    → MappingsTile first (length bytes) rs
    → joined_slices bytes rs ≡ ok (drop first bytes)
unfolding joined_slices
joined_slices-drop bytes first [] fits h = ap ok (sym (drop_all first bytes (omega arith)))
joined_slices-drop bytes first (r ∷ rs) fits (at, rest) =
    let le = MappingsTile-le (first + r.length) (length bytes) rs rest in
    let here = restored_slice_whole bytes r (omega arith) fits in
    let ih = joined_slices-drop bytes (first + r.length) rs fits rest in
    let split = take-append-drop r.length (drop first bytes) in
    let further = drop-drop r.length first (first + r.length) bytes (omega arith) in
    rw (here, ih, at, sym further) (ap ok split)

GroupsTile-IsMapped :
    (restore_map : List RestoreMapRecord) (position first last i : ℕ)
    (groups : List GroupTableRecord) (r : GroupTableRecord)
    → GroupsTile restore_map position first last groups
    → get_elem? groups i ≡ some r
    → IsMapped restore_map r.group × (r.group.group_id ≡ position + i)
GroupsTile-IsMapped restore_map position first last i [] r h g = cc
GroupsTile-IsMapped restore_map position first last zero (a ∷ groups) r (id, at, mapped, rest) g =
    let same : a ≡ r = cc in
    (
      subst (λ x. IsMapped restore_map x.group) same mapped,
      subst (λ x. x.group.group_id ≡ position + 0) same (omega arith),
    )
GroupsTile-IsMapped restore_map position first last (suc i) (a ∷ groups) r (id, at, mapped, rest)
      g =
    let ih =
      GroupsTile-IsMapped restore_map (position + 1) (first + a.group.compressed_len) last i groups
        r rest g in
    (ih.0, omega arith)

-- When the group table is accepted, then for every group and every decoded content of the length that
-- it states, a `u64`, each slice of a mapping of the group is there, and the slices one behind the other
-- are the content.
pub joined_slices-check_groups :
    {S : Type 0} (checkpoint : S → Result S) (limits : DecodeLimits)
    (registry : Option CodecRegistry) (restore_map : List RestoreMapRecord)
    (payload_section : SectionDirectoryRecord) (groups : List GroupTableRecord) (s : S) {done : S}
    (i : ℕ) (r : GroupTableRecord) (bytes : List ℕ)
    → check_groups checkpoint limits registry restore_map payload_section groups s ≡ ok done
    → get_elem? groups i ≡ some r
    → length bytes ≡ r.group.uncompressed_len
    → length bytes < u64_end
    → joined_slices bytes (mappings_of i restore_map) ≡ ok bytes
joined_slices-check_groups checkpoint limits registry restore_map payload_section groups s i r bytes
      q g len fits =
    let tile =
      check_groups-GroupsTile checkpoint limits registry restore_map payload_section groups s q in
    let (mapped, id) =
      GroupsTile-IsMapped restore_map 0 payload_section.offset
        (payload_section.offset + payload_section.length) i groups r tile g in
    let same : r.group.group_id ≡ i = omega arith in
    let rows =
      subst (λ n. MappingsTile 0 r.group.uncompressed_len (mappings_of n restore_map)) same
        mapped.2 in
    joined_slices-drop bytes 0 (mappings_of i restore_map) fits
      (subst (λ n. MappingsTile 0 n (mappings_of i restore_map)) (sym len) rows)
