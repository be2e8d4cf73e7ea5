-- ===== src/Engine/Catalog/Entries/Sound.antt =====
-- What holds of the entries that `read_catalog` accepts.
use pithos.Prelude.{
  ℕ, ◌<◌, ◌≡◌, refl, Bool, true, false, not, ◌||◌, some, List, arith, length, get_elem?, ltb, leb,
  ◌!=◌,
}
use pithos.Core.{
  ok, bind-inv, ok_or-some, bail_if, ok_or, invalid_metadata, resource_limit, unsafe_symlink,
  DecodeLimits,
}
use pithos.Format.Same.{same_bytes, same_bytes→eq}
use pithos.Format.Paths.{ArchivePath, to_path_buf, encoded_len, resolves_within, link_path_buf}
use pithos.Format.Tables.{
  EntryKind, file, directory, hardlink, symlink, EntryRecord, GroupTableRecord,
}
use pithos.Engine.Catalog.Entries.{
  checked_total, validate_archive_path, Totals, is_file, check_kind,
}

-- A file is in the group of its number, a directory is empty, a hard link points to a file entry
-- before it with the size and the hash of the link, and a symbolic link stays within the archive.
abbrev pub IsSoundKind : List EntryRecord → List GroupTableRecord → EntryRecord → EntryKind → Type 0
IsSoundKind entries groups entry (file group_id) =
    (group : GroupTableRecord) × (get_elem? groups group_id ≡ some group)
    × (group.group.group_id ≡ group_id)
IsSoundKind entries groups entry directory = entry.size ≡ 0
IsSoundKind entries groups entry (hardlink target_entry_id) =
    (target : EntryRecord) × (get_elem? entries target_entry_id ≡ some target)
    × (target_entry_id < entry.entry_id)
    × (is_file target.kind ≡ true)
    × (target.size ≡ entry.size)
    × (target.blake3 ≡ entry.blake3)
IsSoundKind entries groups entry (symlink target target_is_dir) =
    (resolves_within target entry.path ≡ true)
    × ((names : List (List ℕ)) × (link_path_buf target ≡ ok names))

target_agrees :
    (a : Bool) (m n : ℕ) (b : Bool)
    → bail_if (not a || (m != n || not b)) (invalid_metadata "hardlink target") ≡ ok tt
    → (a ≡ true) × (m ≡ n) × (b ≡ true)
target_agrees true m n true q = ground arith
target_agrees true m n false q = ground arith
target_agrees false m n b q = cc

link_stays : (b : Bool) → bail_if (not b) unsafe_symlink ≡ ok tt → b ≡ true
link_stays true q = refl
link_stays false q = cc

pub check_kind-IsSoundKind :
    (limits : DecodeLimits) (entries : List EntryRecord) (groups : List GroupTableRecord)
    (totals : Totals) (entry : EntryRecord) (kind : EntryKind) {next : Totals}
    → check_kind limits entries groups totals entry kind ≡ ok next
    → IsSoundKind entries groups entry kind
unfolding check_kind
check_kind-IsSoundKind limits entries groups totals entry (file group_id) q =
    let (size, h1, q1) = bind-inv (checked_total totals.original_size entry.size limits) _ q in
    let (group, h2, q2) =
      bind-inv (ok_or (get_elem? groups group_id) (invalid_metadata "entry group")) _ q1 in
    let (u, h3, q3) =
      bind-inv (bail_if (group.group.group_id != group_id) (invalid_metadata "entry group ID")) _
        q2 in
    let same : group.group.group_id ≡ group_id = ground arith in
    (group, ok_or-some (get_elem? groups group_id) _ h2, same)
check_kind-IsSoundKind limits entries groups totals entry directory q =
    let (u, h1, q1) =
      bind-inv (bail_if (entry.size != 0) (invalid_metadata "directory size")) _ q in
    ground arith
check_kind-IsSoundKind limits entries groups totals entry (hardlink t) q =
    let (size, h1, q1) = bind-inv (checked_total totals.original_size entry.size limits) _ q in
    let (u, h2, q2) =
      bind-inv (bail_if (leb entry.entry_id t) (invalid_metadata "hardlink ordering")) _ q1 in
    let (target, h3, q3) =
      bind-inv (ok_or (get_elem? entries t) (invalid_metadata "hardlink target")) _ q2 in
    let (v, h4, q4) =
      bind-inv
        (bail_if
          (not (is_file target.kind)
            || (target.size != entry.size || not (same_bytes target.blake3 entry.blake3)))
          (invalid_metadata "hardlink target"))
        _ q3 in
    let before : t < entry.entry_id = ground arith in
    let (f, s, b) =
      target_agrees (is_file target.kind) target.size entry.size
        (same_bytes target.blake3 entry.blake3) h4 in
    (
      target,
      ok_or-some (get_elem? entries t) _ h3,
      before,
      f,
      s,
      same_bytes→eq target.blake3 entry.blake3 b,
    )
check_kind-IsSoundKind limits entries groups totals entry (symlink target is_dir) q =
    let (u, h1, q1) =
      bind-inv (bail_if (not (resolves_within target entry.path)) unsafe_symlink) _ q in
    let (names, h2, q2) = bind-inv (link_path_buf target) _ q1 in
    (link_stays (resolves_within target entry.path) h1, (names, h2))

pub validate_archive_path-names :
    (path : ArchivePath) (limits : DecodeLimits)
    → validate_archive_path path limits ≡ ok tt
    → (names : List (List ℕ)) × (to_path_buf path ≡ ok names)
unfolding validate_archive_path
validate_archive_path-names path limits q =
    let (u, h1, q1) =
      bind-inv
        (bail_if
          (ltb limits.max_path_components (length path.components)
            || ltb limits.max_path_bytes (encoded_len path))
          (resource_limit "path"))
        _ q in
    let (names, h2, q2) = bind-inv (to_path_buf path) _ q1 in (names, h2)
