-- ===== src/Engine/Catalog/Restore/Sound.antt =====
-- The restore map that `read_catalog` accepts.
use pithos.Prelude.{
  ℕ, ◌+◌, ◌≡◌, ◌≢◌, sym, ap, ◌∙◌, Bool, true, false, ◌||◌, some, List, [], ◌∷◌, arith, length,
  contains, get_elem?, ◌!=◌, All, All_imp,
}
use pithos.Prelude.Sums.{plus_zero}
use pithos.Core.{ok, bind-inv, ok_or-some, ok_or, bail_if, invalid_metadata}
use pithos.Format.Tables.{
  EntryKind, file, directory, hardlink, symlink, EntryRecord, RestoreMapRecord,
}
use pithos.Engine.Catalog.Restore.{file_group, restore_loop, check_restore_map}

-- A mapping restores a whole file entry from the group of the entry.
abbrev pub IsRestore : List EntryRecord → RestoreMapRecord → Type 0
IsRestore entries r =
    (entry : EntryRecord) × (get_elem? entries r.entry_id ≡ some entry)
    × (entry.entry_id ≡ r.entry_id)
    × (entry.kind ≡ file r.group_id)
    × (r.original_offset ≡ 0)
    × (r.length ≡ entry.size)

-- No two mappings are of one entry.
abbrev pub AllDistinct : List RestoreMapRecord → Type 0
AllDistinct [] = Unit
AllDistinct (r ∷ rest) = All (λ t. r.entry_id ≢ t.entry_id) rest × AllDistinct rest

file_group-ok :
    (kind : EntryKind) {group_id : ℕ} → file_group kind ≡ ok group_id → kind ≡ file group_id
file_group-ok (file g) h = cc
file_group-ok directory h = cc
file_group-ok (hardlink t) h = cc
file_group-ok (symlink t d) h = cc

fields_agree :
    (id entry_id offset len size group group_id : ℕ) (seen : Bool)
    → bail_if
        (id != entry_id || (offset != 0 || (len != size || (group != group_id || seen))))
        (invalid_metadata "restore map entry")
      ≡ ok tt
    → (entry_id ≡ id) × (offset ≡ 0) × (len ≡ size) × (group ≡ group_id) × (seen ≡ false)
fields_agree id entry_id offset len size group group_id true q = ground arith
fields_agree id entry_id offset len size group group_id false q = ground arith

contains-tail : (k : ℕ) (ks : List ℕ) (n : ℕ) → contains (k ∷ ks) n ≡ false → contains ks n ≡ false
contains-tail k ks n h = ground arith

contains-head : (k : ℕ) (ks : List ℕ) (n : ℕ) → contains (k ∷ ks) n ≡ false → k ≢ n
contains-head k ks n h = ground arith

nil_length : (seen : List ℕ) {last : List ℕ} → ok seen ≡ ok last → length last ≡ length seen + 0
nil_length seen {last = last} q =
    let same : last ≡ seen = cc in ap length same ∙ plus_zero (length seen)

module _ (entries : List EntryRecord) where
  restore_loop-step :
      (seen : List ℕ) (r : RestoreMapRecord) (rest : List RestoreMapRecord) {last : List ℕ}
      → restore_loop entries seen (r ∷ rest) ≡ ok last
      → IsRestore entries r
        × (contains seen r.entry_id ≡ false)
        × (restore_loop entries (r.entry_id ∷ seen) rest ≡ ok last)
  unfolding restore_loop
  restore_loop-step seen r rest q =
      let (entry, h1, q1) =
        bind-inv (ok_or (get_elem? entries r.entry_id) (invalid_metadata "restore entry")) _ q in
      let (group_id, h2, q2) = bind-inv (file_group entry.kind) _ q1 in
      let (u, h3, q3) =
        bind-inv
          (bail_if
            (r.entry_id != entry.entry_id
              || (r.original_offset != 0
                  || (r.length != entry.size
                      || (r.group_id != group_id || contains seen r.entry_id))))
            (invalid_metadata "restore map entry"))
          _ q2 in
      let (id, offset, len, group, fresh) =
        fields_agree r.entry_id entry.entry_id r.original_offset r.length entry.size r.group_id
          group_id (contains seen r.entry_id) h3 in
      (
        (
          entry,
          ok_or-some (get_elem? entries r.entry_id) _ h1,
          id,
          file_group-ok entry.kind h2 ∙ ap file (sym group),
          offset,
          len,
        ),
        fresh,
        q3,
      )

  -- The mappings are sound, of no entry that was seen, and of different entries.
  restore_loop-All :
      (seen : List ℕ) (rest : List RestoreMapRecord) {last : List ℕ}
      → restore_loop entries seen rest ≡ ok last
      → All (IsRestore entries) rest
        × All (λ r. contains seen r.entry_id ≡ false) rest
        × AllDistinct rest
  restore_loop-All seen [] q = (tt, tt, tt)
  restore_loop-All seen (a ∷ rest) q =
      let (sound, fresh, more) = restore_loop-step seen a rest q in
      let (sounds, unseen, distinct) = restore_loop-All (a.entry_id ∷ seen) rest more in
      (
        (sound, sounds),
        (
          fresh,
          All_imp (λ r. contains (a.entry_id ∷ seen) r.entry_id ≡ false)
              (λ r. contains seen r.entry_id ≡ false) rest
              (λ r h. contains-tail a.entry_id seen r.entry_id h) unseen,
        ),
        (
          All_imp (λ r. contains (a.entry_id ∷ seen) r.entry_id ≡ false)
              (λ r. a.entry_id ≢ r.entry_id) rest
              (λ r h. contains-head a.entry_id seen r.entry_id h) unseen,
          distinct,
        ),
      )

  restore_loop-length :
      (seen : List ℕ) (rest : List RestoreMapRecord) {last : List ℕ}
      → restore_loop entries seen rest ≡ ok last
      → length last ≡ length seen + length rest
  restore_loop-length seen [] q = unfold restore_loop in nil_length seen q
  restore_loop-length seen (a ∷ rest) q =
      let (sound, fresh, more) = restore_loop-step seen a rest q in
      let ih = restore_loop-length (a.entry_id ∷ seen) rest more in omega arith

  -- An accepted restore map, the empty one included, has as many mappings as files were counted;
  -- every mapping restores a whole file entry from the group of the entry, and no two mappings are of
  -- one entry.
  pub check_restore_map-IsRestore :
      (restore_map : List RestoreMapRecord) (file_count : ℕ)
      → check_restore_map entries restore_map file_count ≡ ok tt
      → (length restore_map ≡ file_count)
        × All (IsRestore entries) restore_map
        × AllDistinct restore_map
  unfolding check_restore_map
  check_restore_map-IsRestore restore_map file_count q =
      let (last, h1, q1) = bind-inv (restore_loop entries [] restore_map) _ q in
      let (u, h2, q2) =
        bind-inv (bail_if (length last != file_count) (invalid_metadata "restore map file count")) _
          q1 in
      let counted : length last ≡ file_count = ground arith in
      let len = restore_loop-length [] restore_map h1 in
      let (sound, unseen, distinct) = restore_loop-All [] restore_map h1 in
      (omega arith, sound, distinct)
