-- ===== src/Engine/Catalog/Entries/Distinct.antt =====
-- The entries that `read_catalog` accepts, one by one and against each other.
use pithos.Prelude.{
  ℕ, zero, suc, ◌+◌, ◌<◌, ◌≡◌, ◌≢◌, refl, ap, subst, Bool, true, false, not, some, List, [], ◌∷◌,
  arith, get_elem?, ◌!=◌,
}
use pithos.Prelude.Sums.{plus_zero, plus_suc, zero_plus}
use pithos.Core.{ok, bind-inv, bail_if, invalid_metadata, DecodeLimits}
use pithos.Format.Same.{eq→same_bytes}
use pithos.Format.Paths.{to_path_buf, sort_key}
use pithos.Format.Tables.{EntryRecord, GroupTableRecord, CentralIndexRecord, IntegrityRecord}
use pithos.Engine.Catalog.Entries.{
  validate_archive_path, Totals, no_totals, has_key, check_kind, same_index, entry_loop,
  check_entries,
}
use pithos.Engine.Catalog.Entries.Sound.{
  IsSoundKind, check_kind-IsSoundKind, validate_archive_path-names,
}

-- The entry has its position as its id, a path that restores, and is sound as its kind.
abbrev pub IsSoundEntry : List EntryRecord → List GroupTableRecord → ℕ → EntryRecord → Type 0
IsSoundEntry entries groups position e =
    (e.entry_id ≡ position)
    × ((names : List (List ℕ)) × (to_path_buf e.path ≡ ok names))
    × IsSoundKind entries groups e e.kind

new_key : (b : Bool) → bail_if b (invalid_metadata "duplicate path") ≡ ok tt → b ≡ false
new_key true h = cc
new_key false h = refl

has_key-tail :
    (k : List ℕ) (ks : List (List ℕ)) (key : List ℕ)
    → has_key (k ∷ ks) key ≡ false
    → has_key ks key ≡ false
unfolding has_key
has_key-tail k ks key h = ground arith

has_key-head :
    (k : List ℕ) (ks : List (List ℕ)) (key : List ℕ) → has_key (k ∷ ks) key ≡ false → k ≢ key
unfolding has_key
has_key-head k ks key h same = let equal = eq→same_bytes k key same in ground arith

module _ (limits : DecodeLimits) (entries : List EntryRecord) (groups : List GroupTableRecord)
    (central_index : List CentralIndexRecord) (integrity : List IntegrityRecord) where
  entry_loop-step :
      (position : ℕ) (keys : List (List ℕ)) (totals : Totals) (e : EntryRecord)
      (rest : List EntryRecord) {last : Totals}
      → entry_loop limits entries groups central_index integrity position keys totals (e ∷ rest)
        ≡ ok last
      → IsSoundEntry entries groups position e
        × (has_key keys (sort_key e.path) ≡ false)
        × ((next : Totals) × (entry_loop limits entries groups central_index integrity
                (position + 1)
                (sort_key e.path ∷ keys)
                next
                rest
              ≡ ok last))
  unfolding entry_loop
  entry_loop-step position keys totals e rest q =
      let (u, h1, q1) =
        bind-inv (bail_if (e.entry_id != position) (invalid_metadata "entry id")) _ q in
      let (v, h2, q2) = bind-inv (validate_archive_path e.path limits) _ q1 in
      let (w, h3, q3) =
        bind-inv (bail_if (has_key keys (sort_key e.path)) (invalid_metadata "duplicate path")) _
          q2 in
      let (next, h4, q4) = bind-inv (check_kind limits entries groups totals e e.kind) _ q3 in
      let (x, h5, q5) =
        bind-inv
          (bail_if (not (same_index central_index integrity position e))
            (invalid_metadata "index/integrity"))
          _ q4 in
      let id : e.entry_id ≡ position = ground arith in
      (
        (
          id,
          validate_archive_path-names e.path limits h2,
          check_kind-IsSoundKind limits entries groups totals e e.kind h4,
        ),
        new_key (has_key keys (sort_key e.path)) h3,
        (next, q5),
      )

  entry_loop-IsSoundEntry :
      (position : ℕ) (keys : List (List ℕ)) (totals : Totals) (rest : List EntryRecord) (i : ℕ)
      (e : EntryRecord) {last : Totals}
      → entry_loop limits entries groups central_index integrity position keys totals rest ≡ ok last
      → get_elem? rest i ≡ some e
      → IsSoundEntry entries groups (position + i) e × (has_key keys (sort_key e.path) ≡ false)
  entry_loop-IsSoundEntry position keys totals [] i e q g = cc
  entry_loop-IsSoundEntry position keys totals (a ∷ rest) zero e q g =
      let (sound, fresh, more) = entry_loop-step position keys totals a rest q in
      let same : a ≡ e = cc in
      let here = subst (λ n. IsSoundEntry entries groups n a) (plus_zero position) sound in
      subst
        (λ x.
          IsSoundEntry entries groups (position + 0) x × (has_key keys (sort_key x.path) ≡ false))
        same (here, fresh)
  entry_loop-IsSoundEntry position keys totals (a ∷ rest) (suc i) e q g =
      let (sound, fresh, (next, q')) = entry_loop-step position keys totals a rest q in
      let ih = entry_loop-IsSoundEntry (position + 1) (sort_key a.path ∷ keys) next rest i e q' g in
      (
        subst (λ n. IsSoundEntry entries groups n e) (plus_suc position i) ih.0,
        has_key-tail (sort_key a.path) keys (sort_key e.path) ih.1,
      )

  entry_loop-distinct :
      (position : ℕ) (keys : List (List ℕ)) (totals : Totals) (rest : List EntryRecord) (i j : ℕ)
      (e f : EntryRecord) {last : Totals}
      → entry_loop limits entries groups central_index integrity position keys totals rest ≡ ok last
      → i < j
      → get_elem? rest i ≡ some e
      → get_elem? rest j ≡ some f
      → sort_key e.path ≢ sort_key f.path
  entry_loop-distinct position keys totals [] i j e f q lt g h = cc
  entry_loop-distinct position keys totals (a ∷ rest) i zero e f q lt g h = absurd (omega arith)
  entry_loop-distinct position keys totals (a ∷ rest) zero (suc j) e f q lt g h =
      let (sound, fresh, (next, q')) = entry_loop-step position keys totals a rest q in
      let (s, later) =
        entry_loop-IsSoundEntry (position + 1) (sort_key a.path ∷ keys) next rest j f q' h in
      let same : a ≡ e = cc in
      subst (λ x. sort_key x.path ≢ sort_key f.path) same
        (has_key-head (sort_key a.path) keys (sort_key f.path) later)
  entry_loop-distinct position keys totals (a ∷ rest) (suc i) (suc j) e f q lt g h =
      let (sound, fresh, (next, q')) = entry_loop-step position keys totals a rest q in
      entry_loop-distinct (position + 1) (sort_key a.path ∷ keys) next rest i j e f q' (omega arith)
        g h

  -- In an accepted entry table every entry has its position as its id, a path that restores, and is
  -- sound as its kind: a file in the group of its number, a directory empty, a hard link to an earlier
  -- file entry of its size and hash, a symbolic link that stays within the archive.
  pub check_entries-IsSoundEntry :
      (original_total_size i : ℕ) (e : EntryRecord) {totals : Totals}
      → check_entries limits entries groups central_index integrity original_total_size ≡ ok totals
      → get_elem? entries i ≡ some e
      → IsSoundEntry entries groups i e
  unfolding check_entries
  check_entries-IsSoundEntry original_total_size i e q g =
      let (t, h1, q1) =
        bind-inv (entry_loop limits entries groups central_index integrity 0 [] no_totals entries) _
          q in
      let found = entry_loop-IsSoundEntry 0 [] no_totals entries i e h1 g in
      subst (λ n. IsSoundEntry entries groups n e) (zero_plus i) found.0

  -- No two entries of an accepted table have one path.
  pub check_entries-distinct :
      (original_total_size i j : ℕ) (e f : EntryRecord) {totals : Totals}
      → check_entries limits entries groups central_index integrity original_total_size ≡ ok totals
      → i < j
      → get_elem? entries i ≡ some e
      → get_elem? entries j ≡ some f
      → e.path ≢ f.path
  unfolding check_entries
  check_entries-distinct original_total_size i j e f q lt g h same =
      let (t, h1, q1) =
        bind-inv (entry_loop limits entries groups central_index integrity 0 [] no_totals entries) _
          q in
      entry_loop-distinct 0 [] no_totals entries i j e f h1 lt g h (ap sort_key same)
