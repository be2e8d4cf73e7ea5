-- ===== src/Engine/Catalog/Groups/Tiled.antt =====
-- Accepted groups tile the payload section, and the mappings of each tile its decoded bytes.
use pithos.Prelude.{ℕ, ◌+◌, ◌<◌, ◌≡◌, subst, ◌||◌, Option, List, [], ◌∷◌, arith, length, ltb, ◌!=◌}
use pithos.Core.{
  Result, ok, bind-inv, ok_first, bail_if, ok_or, invalid_metadata, integer_overflow, invalid_range,
  DecodeLimits,
}
use pithos.Core.Checked.{checked_add}
use pithos.Format.Codec.{CodecRegistry}
use pithos.Format.Group.{GroupRecord}
use pithos.Format.Section.{SectionDirectoryRecord}
use pithos.Format.Tables.{GroupTableRecord, RestoreMapRecord}
use pithos.Engine.Catalog.Groups.{
  is_empty, mappings_of, mapping_loop, check_group_header, check_mappings, check_group, group_loop,
  check_groups,
}

-- Each mapping begins where the one before it ends: from `first` to `last`.
abbrev pub MappingsTile : ℕ → ℕ → List RestoreMapRecord → Type 0
MappingsTile first last [] = first ≡ last
MappingsTile first last (r ∷ rs) =
    (r.group_offset ≡ first) × MappingsTile (first + r.length) last rs

-- The mappings of a group: so many as it says, and they tile its decoded bytes.
abbrev pub IsMapped : List RestoreMapRecord → GroupRecord → Type 0
IsMapped restore_map group =
    (length (mappings_of group.group_id restore_map) ≡ group.chunk_count)
    × (0 < group.chunk_count)
    × MappingsTile 0 group.uncompressed_len (mappings_of group.group_id restore_map)

-- The ids of the groups are their positions, each group begins in the payload where the one before it
-- ends, and each is mapped.
abbrev pub GroupsTile : List RestoreMapRecord → ℕ → ℕ → ℕ → List GroupTableRecord → Type 0
GroupsTile restore_map position first last [] = first ≡ last
GroupsTile restore_map position first last (r ∷ rs) =
    (r.group.group_id ≡ position)
    × (r.payload_offset ≡ first)
    × IsMapped restore_map r.group
    × GroupsTile restore_map (position + 1) (first + r.group.compressed_len) last rs

mapping_loop-MappingsTile :
    (first : ℕ) (rs : List RestoreMapRecord) {last : ℕ}
    → mapping_loop first rs ≡ ok last
    → MappingsTile first last rs
unfolding mapping_loop
mapping_loop-MappingsTile first [] q = ground arith
mapping_loop-MappingsTile first (r ∷ rs) {last = last} q =
    let (u, h1, q1) =
      bind-inv (bail_if (r.group_offset != first) (invalid_metadata "restore group order")) _ q in
    let (next, h2, q2) = bind-inv (ok_or (checked_add first r.length) integer_overflow) _ q1 in
    let same : next ≡ first + r.length = ground arith in
    (ground arith, subst (λ n. MappingsTile n last rs) same (mapping_loop-MappingsTile next rs q2))

some_mapping :
    (rs : List RestoreMapRecord) (n : ℕ)
    → bail_if (length rs != n || is_empty rs) (invalid_metadata "group chunk count") ≡ ok tt
    → (length rs ≡ n) × (0 < n)
some_mapping [] n q = ground arith
some_mapping (r ∷ rs) n q = ground arith

check_mappings-IsMapped :
    (restore_map : List RestoreMapRecord) (group : GroupRecord)
    → check_mappings restore_map group ≡ ok tt
    → IsMapped restore_map group
unfolding check_mappings
check_mappings-IsMapped restore_map group q =
    let rs = mappings_of group.group_id restore_map in
    let (u, h1, q1) =
      bind-inv
        (bail_if (length rs != group.chunk_count || is_empty rs)
          (invalid_metadata "group chunk count"))
        _ q in
    let (last, h2, q2) = bind-inv (mapping_loop 0 rs) _ q1 in
    let (v, h3, q3) =
      bind-inv (bail_if (last != group.uncompressed_len) (invalid_metadata "restore group length"))
        _ q2 in
    let counted = some_mapping rs group.chunk_count h1 in
    let same : last ≡ group.uncompressed_len = ground arith in
    (
      counted.0,
      counted.1,
      subst (λ n. MappingsTile 0 n rs) same (mapping_loop-MappingsTile 0 rs h2),
    )

header_id :
    (position : ℕ) (group : GroupRecord)
    → bail_if
        (group.group_id != position
          || (group.version != 1 || (group.flags != 0 || group.descriptor_len != 0)))
        (invalid_metadata "group header")
      ≡ ok tt
    → group.group_id ≡ position
header_id position group q = ground arith

check_group_header_id :
    (limits : DecodeLimits) (registry : Option CodecRegistry) (position : ℕ) (group : GroupRecord)
    → check_group_header limits registry position group ≡ ok tt
    → group.group_id ≡ position
unfolding check_group_header
check_group_header_id limits registry position group q =
    let (u, h1, q1) =
      bind-inv
        (bail_if
          (group.group_id != position
            || (group.version != 1 || (group.flags != 0 || group.descriptor_len != 0)))
          (invalid_metadata "group header"))
        _ q in
    header_id position group h1

module _ {S : Type 0} (checkpoint : S → Result S) (limits : DecodeLimits)
    (registry : Option CodecRegistry) (restore_map : List RestoreMapRecord)
    (payload_section : SectionDirectoryRecord) where
  check_group-IsMapped :
      (payload_end position first : ℕ) (r : GroupTableRecord) {last : ℕ}
      → check_group checkpoint limits registry restore_map payload_section payload_end position
          first r
        ≡ ok last
      → (r.group.group_id ≡ position)
        × (r.payload_offset ≡ first)
        × IsMapped restore_map r.group
        × (last ≡ first + r.group.compressed_len)
  unfolding check_group
  check_group-IsMapped payload_end position first r {last = last} q =
      let (u, h1, q1) = bind-inv (check_group_header limits registry position r.group) _ q in
      let (group_end, h2, q2) =
        bind-inv (ok_or (checked_add r.payload_offset r.group.compressed_len) integer_overflow) _
          q1 in
      let (v, h3, q3) =
        bind-inv
          (bail_if
            (ltb r.payload_offset payload_section.offset
              || (r.payload_offset != first || ltb payload_end group_end))
            invalid_range)
          _ q2 in
      let (w, h4, q4) = bind-inv (check_mappings restore_map r.group) _ q3 in
      let at : r.payload_offset ≡ first = ground arith in
      (
        check_group_header_id limits registry position r.group h1,
        at,
        check_mappings-IsMapped restore_map r.group h4,
        ground arith,
      )

  group_loop-GroupsTile :
      (payload_end position first : ℕ) (groups : List GroupTableRecord) (s : S) {last : ℕ}
      {done : S}
      → group_loop checkpoint limits registry restore_map payload_section payload_end position first
          groups s
        ≡ ok (last, done)
      → GroupsTile restore_map position first last groups
  unfolding group_loop
  group_loop-GroupsTile payload_end position first [] s q = ok_first q
  group_loop-GroupsTile payload_end position first (r ∷ rs) s {last = last} q =
      let (s1, h1, q1) = bind-inv (checkpoint s) _ q in
      let (group_end, h2, q2) =
        bind-inv
          (check_group checkpoint limits registry restore_map payload_section payload_end position
            first r)
          _ q1 in
      let (id, at, mapped, end) = check_group-IsMapped payload_end position first r h2 in
      let ih = group_loop-GroupsTile payload_end (position + 1) group_end rs s1 q2 in
      (id, at, mapped, subst (λ n. GroupsTile restore_map (position + 1) n last rs) end ih)

  -- Accepted groups have their positions as ids and lie in the payload section one behind the other,
  -- from its begin to its end. Each has at least one mapping, so many as it says, and its mappings tile
  -- its decoded bytes in their order.
  pub check_groups-GroupsTile :
      (groups : List GroupTableRecord) (s : S) {done : S}
      → check_groups checkpoint limits registry restore_map payload_section groups s ≡ ok done
      → GroupsTile restore_map 0 payload_section.offset
          (payload_section.offset + payload_section.length)
          groups
  unfolding check_groups
  check_groups-GroupsTile groups s q =
      let (end, h1, q1) =
        bind-inv
          (ok_or (checked_add payload_section.offset payload_section.length) integer_overflow) _
          q in
      let (r, h2, q2) =
        bind-inv
          (group_loop checkpoint limits registry restore_map payload_section end 0
            payload_section.offset groups s)
          _ q1 in
      let (u, h3, q3) =
        bind-inv (bail_if (r.0 != end) (invalid_metadata "unreferenced payload bytes")) _ q2 in
      let same : r.0 ≡ payload_section.offset + payload_section.length = ground arith in
      subst (λ n. GroupsTile restore_map 0 payload_section.offset n groups) same
        (group_loop-GroupsTile end 0 payload_section.offset groups s h2)
