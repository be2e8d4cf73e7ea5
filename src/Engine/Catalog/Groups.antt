-- ===== src/Engine/Catalog/Groups.antt =====
-- The loop of `read_catalog` over the group table.
pub mod Tiled
use pithos.Prelude.{
  ℕ, ◌+◌, ◌*◌, Bool, true, false, ◌||◌, ◌&&◌, not, Option, none, some, List, [], ◌∷◌, length, ltb,
  ◌==◌, ◌!=◌, if◌then◌else◌,
}
use pithos.Core.{
  Result, ok, err, ◌>>=◌, ◌>>◌, bail_if, ok_or, invalid_metadata, integer_overflow, invalid_range,
  resource_limit, unsupported_codec, DecodeLimits,
}
use pithos.Core.Checked.{checked_add, checked_mul}
use pithos.Codecs.{codec_id_from_u16, memory_bound}
use pithos.Format.Codec.{CodecRegistry, chain}
use pithos.Format.Group.{GroupRecord}
use pithos.Format.Section.{SectionDirectoryRecord}
use pithos.Format.Tables.{GroupTableRecord, RestoreMapRecord}

abbrev pub is_empty : List RestoreMapRecord → Bool
is_empty [] = true
is_empty (r ∷ rs) = false

-- `checked_mul(…).is_some_and(|maximum| len > maximum)`
abbrev pub above : ℕ → Option ℕ → Bool
above len none = false
above len (some maximum) = ltb maximum len

-- The `match` on the chain id and the registry.
unfoldable pub check_codec : GroupRecord → Option CodecRegistry → Result (Unit {0})
check_codec group none =
    if group.codec_chain_id == 0
    then bail_if (group.chunk_count != 1 || group.uncompressed_len != group.compressed_len)
        (invalid_metadata "RAW group")
    else err unsupported_codec
check_codec group (some registry) =
    if group.codec_chain_id == 0
    then err unsupported_codec
    else (ok_or (chain registry group.codec_chain_id) unsupported_codec >>= λ record'.
        ok_or (codec_id_from_u16 record'.codec_id) unsupported_codec >>= λ codec_id.
        memory_bound codec_id group.uncompressed_len record'.level >>= λ bound. ok tt)

-- `restore_map.iter().filter(…)`
unfoldable pub mappings_of : ℕ → List RestoreMapRecord → List RestoreMapRecord
mappings_of group_id [] = []
mappings_of group_id (restore ∷ rest) =
    let kept = mappings_of group_id rest in
    if restore.group_id == group_id then restore ∷ kept else kept

unfoldable pub mapping_loop : ℕ → List RestoreMapRecord → Result ℕ
mapping_loop expected_offset [] = ok expected_offset
mapping_loop expected_offset (restore ∷ rest) = do
  bail_if (restore.group_offset != expected_offset) (invalid_metadata "restore group order")
  next ← ok_or (checked_add expected_offset restore.length) integer_overflow
  mapping_loop next rest

-- What one round checks of a group before its range in the payload.
unfoldable pub check_group_header :
    DecodeLimits → Option CodecRegistry → ℕ → GroupRecord → Result (Unit {0})
check_group_header limits registry position group = do
  bail_if
      (group.group_id != position
        || (group.version != 1 || (group.flags != 0 || group.descriptor_len != 0)))
      (invalid_metadata "group header")
  bail_if (ltb limits.max_group_output group.uncompressed_len) (resource_limit "group output")
  most ← ok_or (checked_add limits.max_group_output (1024 * 1024)) integer_overflow
  bail_if (ltb most group.compressed_len) (resource_limit "group output")
  bail_if
      (group.compressed_len != 0
        && above group.uncompressed_len
            (checked_mul group.compressed_len limits.max_expansion_ratio))
      (resource_limit "group expansion ratio")
  check_codec group registry

-- What one round checks of a group's mappings.
unfoldable pub check_mappings : List RestoreMapRecord → GroupRecord → Result (Unit {0})
check_mappings restore_map group = do
  let mappings = mappings_of group.group_id restore_map
  bail_if (length mappings != group.chunk_count || is_empty mappings)
      (invalid_metadata "group chunk count")
  expected_offset ← mapping_loop 0 mappings
  bail_if (expected_offset != group.uncompressed_len) (invalid_metadata "restore group length")
  ok tt

module _ {S : Type 0} (checkpoint : S → Result S) (limits : DecodeLimits)
    (registry : Option CodecRegistry) (restore_map : List RestoreMapRecord)
    (payload_section : SectionDirectoryRecord) where
  -- One round: the end of the group in the payload.
  unfoldable pub check_group : ℕ → ℕ → ℕ → GroupTableRecord → Result ℕ
  check_group payload_end position previous_group_end r = do
    check_group_header limits registry position r.group
    group_end ← ok_or (checked_add r.payload_offset r.group.compressed_len) integer_overflow
    bail_if
        (ltb r.payload_offset payload_section.offset
          || (r.payload_offset != previous_group_end || ltb payload_end group_end))
        invalid_range
    check_mappings restore_map r.group
    ok group_end

  unfoldable pub group_loop : ℕ → ℕ → ℕ → List GroupTableRecord → S → Result (ℕ × S)
  group_loop payload_end position previous_group_end [] s = ok (previous_group_end, s)
  group_loop payload_end position previous_group_end (r ∷ rest) s = do
    s1 ← checkpoint s
    group_end ← check_group payload_end position previous_group_end r
    group_loop payload_end (position + 1) group_end rest s1

  unfoldable pub check_groups : List GroupTableRecord → S → Result S
  check_groups groups s = do
    payload_end ← ok_or (checked_add payload_section.offset payload_section.length) integer_overflow
    (previous_group_end, s1) ← group_loop payload_end 0 payload_section.offset groups s
    bail_if (previous_group_end != payload_end) (invalid_metadata "unreferenced payload bytes")
    ok s1
