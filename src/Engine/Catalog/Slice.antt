-- ===== src/Engine/Catalog/Slice.antt =====
-- `restored_slice`, `restore_for_entry` and `file_source_entry`: the bytes of a file in its decoded
-- group.
pub mod Whole
use pithos.Prelude.{
  ℕ, ◌+◌, ◌-◌, ◌≡◌, Bool, true, false, ◌&&◌, Option, none, some, List, [], ◌∷◌, length, take, drop,
  ltb, leb, ◌==◌, get_elem?, if◌then◌else◌,
}
use pithos.Core.{
  Result, ok, err, ◌>>=◌, ◌>>◌, bail_if, ok_or, invalid_metadata, integer_overflow, invalid_range,
}
use pithos.Core.Checked.{checked_add}
use pithos.Format.Tables.{
  EntryKind, file, directory, hardlink, symlink, EntryRecord, RestoreMapRecord,
}

-- `decoded_group.get(start..end)`
abbrev pub get_range : List ℕ → ℕ → ℕ → Option (List ℕ)
get_range bytes start end =
    if leb start end && leb end (length bytes)
    then some (take (end - start) (drop start bytes))
    else none

unfoldable pub restored_slice : List ℕ → RestoreMapRecord → ℕ → ℕ → Result (List ℕ)
restored_slice decoded_group restore offset len = do
  entry_end ← ok_or (checked_add offset len) integer_overflow
  bail_if (ltb restore.length entry_end) invalid_range
  start ← ok_or (checked_add restore.group_offset offset) integer_overflow
  end ← ok_or (checked_add start len) integer_overflow
  ok_or (get_range decoded_group start end) invalid_range

unfoldable pub find_restore : ℕ → List RestoreMapRecord → Option RestoreMapRecord
find_restore entry_id [] = none
find_restore entry_id (r ∷ rs) = if r.entry_id == entry_id then some r else find_restore entry_id rs

unfoldable pub restore_for_entry : List RestoreMapRecord → ℕ → Result RestoreMapRecord
restore_for_entry restore_map entry_id =
    ok_or (find_restore entry_id restore_map) (invalid_metadata "restore entry missing")

unfoldable pub file_source_entry : EntryRecord → List EntryRecord → Result EntryRecord
file_source_entry entry entries = source_of entry.kind
  where
    source_of : EntryKind → Result EntryRecord
    source_of (file group_id) = ok entry
    source_of (hardlink target_entry_id) =
        ok_or (get_elem? entries target_entry_id) (invalid_metadata "hardlink target")
    source_of _ = err (invalid_metadata "file source")
