-- ===== src/Format/Tables.antt =====
-- crates/pithos-format/src/lib.rs: the records of the JSON sections.
use pithos.Prelude.{ℕ, Bool, Option, List}
use pithos.Prelude.Int.{ℤ}
use pithos.Format.Paths.{ArchivePath, LinkTarget}
use pithos.Format.Group.{GroupRecord}

pub data EntryKind : Type 0 where
  file : ℕ → EntryKind
  directory : EntryKind
  hardlink : ℕ → EntryKind
  symlink : LinkTarget → Bool → EntryKind

pub record EntryRecord : Type 0 where
  pub entry_id : ℕ
  pub path : ArchivePath
  pub size : ℕ
  pub modified_ns : ℤ
  pub mode : ℕ
  pub blake3 : List ℕ
  pub kind : EntryKind

pub record GroupTableRecord : Type 0 where
  pub group : GroupRecord
  pub payload_offset : ℕ

pub record RestoreMapRecord : Type 0 where
  pub entry_id : ℕ
  pub original_offset : ℕ
  pub length : ℕ
  pub group_id : ℕ
  pub group_offset : ℕ

pub record CentralIndexRecord : Type 0 where
  pub path : ArchivePath
  pub entry_id : ℕ
  pub group_id : Option ℕ

pub record IntegrityRecord : Type 0 where
  pub entry_id : ℕ
  pub blake3 : List ℕ
