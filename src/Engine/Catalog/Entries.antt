-- ===== src/Engine/Catalog/Entries.antt =====
-- The loop of `read_catalog` over the entry table, with `checked_total` and `validate_archive_path`.
-- The set of the sort keys seen is the list of them. The derived `==` of a record compares its
-- fields.
pub mod Sound
pub mod Distinct
use pithos.Prelude.{
  ℕ, ◌+◌, Bool, true, false, not, ◌||◌, ◌&&◌, Option, none, some, List, [], ◌∷◌, length, get_elem?,
  ltb, leb, ◌==◌, ◌!=◌,
}
use pithos.Core.{
  Result, ok, err, ◌>>=◌, ◌>>◌, bail_if, ok_or, invalid_metadata, integer_overflow, resource_limit,
  unsafe_symlink, DecodeLimits,
}
use pithos.Core.Checked.{checked_add}
use pithos.Format.Same.{same_bytes}
use pithos.Format.Group.{GroupRecord}
use pithos.Format.Paths.{
  encoding_id, PathComponent, ArchivePath, LinkTarget, to_path_buf, sort_key, encoded_len,
  resolves_within, link_path_buf,
}
use pithos.Format.Tables.{
  EntryKind, file, directory, hardlink, symlink, EntryRecord, GroupTableRecord, CentralIndexRecord,
  IntegrityRecord,
}

unfoldable pub checked_total : ℕ → ℕ → DecodeLimits → Result ℕ
checked_total current value limits = do
  total ← ok_or (checked_add current value) integer_overflow
  bail_if (ltb limits.max_original_bytes total) (resource_limit "original bytes")
  ok total

unfoldable pub validate_archive_path : ArchivePath → DecodeLimits → Result (Unit {0})
validate_archive_path path limits = do
  bail_if
      (ltb limits.max_path_components (length path.components)
        || ltb limits.max_path_bytes (encoded_len path))
      (resource_limit "path")
  names ← to_path_buf path
  ok tt

-- The `mut` locals of the loop but the set of keys.
pub record Totals : Type 0 where
  pub original_size : ℕ
  pub file_count : ℕ
  pub directory_count : ℕ
  pub hardlink_count : ℕ
  pub symlink_count : ℕ

abbrev pub no_totals : Totals
no_totals = record {
  original_size = 0;
  file_count = 0;
  directory_count = 0;
  hardlink_count = 0;
  symlink_count = 0;
}

unfoldable pub has_key : List (List ℕ) → List ℕ → Bool
has_key [] key = false
has_key (k ∷ ks) key = same_bytes k key || has_key ks key

abbrev pub is_file : EntryKind → Bool
is_file (file group_id) = true
is_file _ = false

-- The `match` on the kind of an entry.
unfoldable pub check_kind :
    DecodeLimits
    → List EntryRecord
    → List GroupTableRecord
    → Totals
    → EntryRecord
    → EntryKind
    → Result Totals
check_kind limits entries groups totals entry (file group_id) = do
  original_size ← checked_total totals.original_size entry.size limits
  group ← ok_or (get_elem? groups group_id) (invalid_metadata "entry group")
  bail_if (group.group.group_id != group_id) (invalid_metadata "entry group ID")
  ok (record totals { original_size = original_size; file_count = totals.file_count + 1 })
check_kind limits entries groups totals entry directory = do
  bail_if (entry.size != 0) (invalid_metadata "directory size")
  ok (record totals { directory_count = totals.directory_count + 1 })
check_kind limits entries groups totals entry (hardlink target_entry_id) = do
  original_size ← checked_total totals.original_size entry.size limits
  bail_if (leb entry.entry_id target_entry_id) (invalid_metadata "hardlink ordering")
  target ← ok_or (get_elem? entries target_entry_id) (invalid_metadata "hardlink target")
  bail_if
      (not (is_file target.kind)
        || (target.size != entry.size || not (same_bytes target.blake3 entry.blake3)))
      (invalid_metadata "hardlink target")
  ok (record totals { original_size = original_size; hardlink_count = totals.hardlink_count + 1 })
check_kind limits entries groups totals entry (symlink target target_is_dir) = do
  bail_if (not (resolves_within target entry.path)) unsafe_symlink
  names ← link_path_buf target
  ok (record totals { symlink_count = totals.symlink_count + 1 })

unfoldable pub same_components : List PathComponent → List PathComponent → Bool
same_components [] [] = true
same_components (c ∷ cs) (d ∷ ds) =
    encoding_id c.encoding == encoding_id d.encoding
    && (same_bytes c.bytes d.bytes && same_components cs ds)
same_components _ _ = false

abbrev pub same_group : Option ℕ → Option ℕ → Bool
same_group none none = true
same_group (some a) (some b) = a == b
same_group _ _ = false

abbrev pub group_of : EntryKind → Option ℕ
group_of (file group_id) = some group_id
group_of _ = none

-- The comparison with the central index and the integrity table. Both have as many records as there
-- are entries, so that the indexing behind `none` cannot be reached; the code would panic there.
unfoldable pub same_index : List CentralIndexRecord → List IntegrityRecord → ℕ → EntryRecord → Bool
same_index central_index integrity position entry =
    index_agrees (get_elem? central_index position)
    && integrity_agrees (get_elem? integrity position)
  where
    index_agrees : Option CentralIndexRecord → Bool
    index_agrees none = false
    index_agrees (some index) =
        same_components index.path.components entry.path.components
        && (index.entry_id == entry.entry_id && same_group index.group_id (group_of entry.kind))

    integrity_agrees : Option IntegrityRecord → Bool
    integrity_agrees none = false
    integrity_agrees (some i) = i.entry_id == entry.entry_id && same_bytes i.blake3 entry.blake3

module _ (limits : DecodeLimits) (entries : List EntryRecord) (groups : List GroupTableRecord)
    (central_index : List CentralIndexRecord) (integrity : List IntegrityRecord) where
  unfoldable pub entry_loop : ℕ → List (List ℕ) → Totals → List EntryRecord → Result Totals
  entry_loop position path_keys totals [] = ok totals
  entry_loop position path_keys totals (entry ∷ rest) = do
    bail_if (entry.entry_id != position) (invalid_metadata "entry id")
    validate_archive_path entry.path limits
    bail_if (has_key path_keys (sort_key entry.path)) (invalid_metadata "duplicate path")
    next_totals ← check_kind limits entries groups totals entry entry.kind
    bail_if (not (same_index central_index integrity position entry))
        (invalid_metadata "index/integrity")
    entry_loop (position + 1) (sort_key entry.path ∷ path_keys) next_totals rest

  -- The whole loop, and the test of the total behind it.
  unfoldable pub check_entries : ℕ → Result Totals
  check_entries original_total_size = do
    totals ← entry_loop 0 [] no_totals entries
    bail_if (totals.original_size != original_total_size) (invalid_metadata "original size")
    ok totals
