-- ===== src/Examples/Catalog.antt =====
-- The tables of an archive at concrete inputs.
use pithos.Prelude.{ℕ, zero, suc, ◌≡◌, refl, some, List, [], ◌∷◌, arith}
use pithos.Prelude.Int.{pos}
use pithos.Core.{Result, ok, err, cancelled, default_limits}
use pithos.Codecs.{codec_id_from_u16, memory_bound, store_memory_bound}
use pithos.Format.Codec.{CodecRegistry, find_chain, chain}
use pithos.Format.Section.{SectionDirectoryRecord}
use pithos.Format.Tables.{GroupTableRecord, RestoreMapRecord}
use pithos.Engine.Catalog.Groups.{
  check_codec, mappings_of, mapping_loop, check_group_header, check_mappings, check_group,
  group_loop, check_groups,
}
use pithos.Engine.Catalog.Groups.Tiled.{GroupsTile, check_groups-GroupsTile}
use pithos.Engine.Catalog.Slice.Whole.{joined_slices, joined_slices-check_groups}

abbrev store_registry : CodecRegistry
store_registry = record {
  records = record { chain_id = 1; codec_id = 0; codec_version = 1; level = pos 0; flags = 1 } ∷ [];
}

abbrev payload : SectionDirectoryRecord
payload = record {
  section_type = 4;
  section_version = 1;
  flags = 0;
  offset = 288;
  length = 7;
  crc32c = 0;
  reserved = 0;
}

abbrev stored_group : ℕ → ℕ → ℕ → ℕ → GroupTableRecord
stored_group id count len offset = record {
  group = record {
    version = 1;
    flags = 0;
    group_id = id;
    codec_chain_id = 1;
    chunk_count = count;
    uncompressed_len = len;
    compressed_len = len;
    descriptor_len = 0;
    payload_crc32c = 5;
  };
  payload_offset = offset;
}

abbrev pub two_groups : List GroupTableRecord
two_groups = stored_group 0 2 5 288 ∷ stored_group 1 1 2 293 ∷ []

abbrev pub mapping : ℕ → ℕ → ℕ → ℕ → RestoreMapRecord
mapping entry group offset len = record {
  entry_id = entry;
  original_offset = 0;
  length = len;
  group_id = group;
  group_offset = offset;
}

abbrev three_mappings : List RestoreMapRecord
three_mappings = mapping 0 0 0 3 ∷ mapping 2 1 0 2 ∷ mapping 1 0 3 2 ∷ []

abbrev allowed : ℕ → Result ℕ
allowed zero = err cancelled
allowed (suc n) = ok n

groups_accepted :
    check_groups allowed default_limits (some store_registry) three_mappings payload two_groups 5
    ≡ ok 3
unfolding check_groups group_loop check_group check_group_header check_codec chain find_chain
    codec_id_from_u16 memory_bound store_memory_bound check_mappings mappings_of mapping_loop
groups_accepted = refl

groups_cancelled :
    check_groups allowed default_limits (some store_registry) three_mappings payload two_groups 1
    ≡ err cancelled
unfolding check_groups group_loop check_group check_group_header check_codec chain find_chain
    codec_id_from_u16 memory_bound store_memory_bound check_mappings mappings_of mapping_loop
groups_cancelled = refl

check_groups-GroupsTile_example : GroupsTile three_mappings 0 288 295 two_groups
check_groups-GroupsTile_example =
    check_groups-GroupsTile allowed default_limits (some store_registry) three_mappings payload
      two_groups 5 groups_accepted

abbrev content : List ℕ
content = 10 ∷ 11 ∷ 12 ∷ 13 ∷ 14 ∷ []

joined_slices-check_groups_example :
    joined_slices content (mappings_of 0 three_mappings) ≡ ok content
joined_slices-check_groups_example =
    joined_slices-check_groups allowed default_limits (some store_registry) three_mappings payload
      two_groups 5 0 (stored_group 0 2 5 288) content groups_accepted refl (omega arith)
      (omega arith)
