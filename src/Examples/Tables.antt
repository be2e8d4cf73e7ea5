-- ===== src/Examples/Tables.antt =====
-- The entry table and the restore map at concrete inputs.
use pithos.Prelude.{ℕ, ◌≡◌, ◌≢◌, refl, false, List, [], ◌∷◌, arith, length, All}
use pithos.Prelude.Int.{pos}
use pithos.Core.{ok, default_limits}
use pithos.Core.Bytes.{to_le_bytes}
use pithos.Format.Same.{same_bytes}
use pithos.StdPath.{prepend, split_slash, add_piece, components_of, has_root, path_components}
use pithos.Format.Paths.{
  PathComponent, utf8, LinkTarget, normal, encoding_id, is_utf8, component_value, is_one_normal,
  validate_normal_component, to_os_string, os_strings, to_path_buf, sort_key_of, sort_key,
  encoded_len_of, encoded_len, stays_within, resolves_within, link_strings, link_path_buf,
}
use pithos.Format.Tables.{
  EntryKind, file, directory, hardlink, symlink, EntryRecord, RestoreMapRecord, CentralIndexRecord,
  IntegrityRecord,
}
use pithos.Engine.Catalog.Entries.{
  checked_total, validate_archive_path, Totals, has_key, group_of, check_kind, same_components,
  same_index, entry_loop, check_entries,
}
use pithos.Engine.Catalog.Entries.Distinct.{
  IsSoundEntry, check_entries-IsSoundEntry, check_entries-distinct,
}
use pithos.Engine.Catalog.Restore.{restore_loop, check_restore_map}
use pithos.Engine.Catalog.Restore.Sound.{IsRestore, AllDistinct, check_restore_map-IsRestore}
use pithos.Examples.Catalog.{two_groups, mapping}

abbrev named : ℕ → PathComponent
named letter = record { encoding = utf8; bytes = letter ∷ [] }

abbrev entry_of : ℕ → ℕ → ℕ → EntryKind → EntryRecord
entry_of id letter size kind = record {
  entry_id = id;
  path = record { components = named letter ∷ [] };
  size = size;
  modified_ns = pos 0;
  mode = 420;
  blake3 = size ∷ [];
  kind = kind;
}

abbrev link_to_b : LinkTarget
link_to_b = record { components = normal (named b'b') ∷ [] }

abbrev file_a : EntryRecord
file_a = entry_of 0 b'a' 3 (file 0)

abbrev link_c : EntryRecord
link_c = entry_of 2 b'c' 3 (hardlink 0)

abbrev entry_table : List EntryRecord
entry_table =
    file_a
    ∷ entry_of 1 b'b' 2 (file 1)
    ∷ link_c
    ∷ entry_of 3 b'd' 0 directory
    ∷ entry_of 4 b'e' 0 (symlink link_to_b false)
    ∷ []

abbrev indexed : List EntryRecord → List CentralIndexRecord
indexed [] = []
indexed (e ∷ es) =
    record { path = e.path; entry_id = e.entry_id; group_id = group_of e.kind } ∷ indexed es

abbrev hashed : List EntryRecord → List IntegrityRecord
hashed [] = []
hashed (e ∷ es) = record { entry_id = e.entry_id; blake3 = e.blake3 } ∷ hashed es

abbrev counted : Totals
counted = record {
  original_size = 8;
  file_count = 2;
  directory_count = 1;
  hardlink_count = 1;
  symlink_count = 1;
}

entries_accepted :
    check_entries default_limits entry_table two_groups (indexed entry_table) (hashed entry_table) 8
    ≡ ok counted
unfolding to_le_bytes check_entries entry_loop validate_archive_path has_key check_kind
    checked_total same_components same_index same_bytes encoding_id is_utf8 component_value
    validate_normal_component to_os_string os_strings to_path_buf sort_key_of sort_key
    encoded_len_of encoded_len stays_within resolves_within link_strings link_path_buf is_one_normal
    path_components has_root components_of split_slash prepend add_piece
entries_accepted = refl

check_entries-IsSoundEntry_example : IsSoundEntry entry_table two_groups 2 link_c
check_entries-IsSoundEntry_example =
    check_entries-IsSoundEntry default_limits entry_table two_groups (indexed entry_table)
      (hashed entry_table) 8 2 link_c entries_accepted refl

check_entries-distinct_example : file_a.path ≢ link_c.path
check_entries-distinct_example =
    check_entries-distinct default_limits entry_table two_groups (indexed entry_table)
      (hashed entry_table) 8 0 2 file_a link_c entries_accepted (omega arith) refl refl

abbrev two_mappings : List RestoreMapRecord
two_mappings = mapping 1 1 0 2 ∷ mapping 0 0 0 3 ∷ []

map_accepted : check_restore_map entry_table two_mappings 2 ≡ ok tt
unfolding check_restore_map restore_loop
map_accepted = refl

check_restore_map-IsRestore_example :
    (length two_mappings ≡ 2) × All (IsRestore entry_table) two_mappings × AllDistinct two_mappings
check_restore_map-IsRestore_example =
    check_restore_map-IsRestore entry_table two_mappings 2 map_accepted
