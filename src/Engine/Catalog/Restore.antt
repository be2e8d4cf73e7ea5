-- ===== src/Engine/Catalog/Restore.antt =====
-- The loop of `read_catalog` over the restore map. Of `restore_by_entry` only the keys are read.
pub mod Sound
use pithos.Prelude.{ℕ, ◌||◌, List, [], ◌∷◌, length, contains, get_elem?, ◌!=◌}
use pithos.Core.{Result, ok, err, ◌>>=◌, ◌>>◌, bail_if, ok_or, invalid_metadata}
use pithos.Format.Tables.{EntryKind, file, EntryRecord, RestoreMapRecord}

-- `let EntryKind::File { group_id } = entry.kind else { … }`
abbrev pub file_group : EntryKind → Result ℕ
file_group (file group_id) = ok group_id
file_group _ = err (invalid_metadata "restore entry kind")

unfoldable pub restore_loop : List EntryRecord → List ℕ → List RestoreMapRecord → Result (List ℕ)
restore_loop entries restore_by_entry [] = ok restore_by_entry
restore_loop entries restore_by_entry (restore ∷ rest) = do
  entry ← ok_or (get_elem? entries restore.entry_id) (invalid_metadata "restore entry")
  group_id ← file_group entry.kind
  bail_if
      (restore.entry_id != entry.entry_id
        || (restore.original_offset != 0
            || (restore.length != entry.size
                || (restore.group_id != group_id || contains restore_by_entry restore.entry_id))))
      (invalid_metadata "restore map entry")
  restore_loop entries (restore.entry_id ∷ restore_by_entry) rest

unfoldable pub check_restore_map : List EntryRecord → List RestoreMapRecord → ℕ → Result (Unit {0})
check_restore_map entries restore_map file_count = do
  restore_by_entry ← restore_loop entries [] restore_map
  bail_if (length restore_by_entry != file_count) (invalid_metadata "restore map file count")
  ok tt
