-- ===== src/Analysis/Chunking/Structural/Uncrossed.antt =====
-- No chunk of `chunk_structural` crosses a boundary of the scanner.
use pithos.Prelude.{
  append_nil, append_assoc, All-append, All_imp, ℕ, ◌+◌, ◌≤◌, ◌<◌, ◌≡◌, sym, ap, subst, ◌∙◌, inl,
  inr, false, List, [], ◌∷◌, ◌++◌, arith, All, length, ◌==◌, from_else,
}
use pithos.Core.{Result, ok, bind-inv, ok_first, bail_if, ok_or, invalid_metadata, integer_overflow}
use pithos.Core.Checked.{checked_add}
use pithos.Analysis.Chunking.{
  FastCdcCrate, ChunkingConfig, ChunkOrigin, LogicalChunkDraft, validate_config,
  ensure_logical_size, ensure_chunk_count,
}
use pithos.Analysis.Chunking.Coverage.{validate_chunk_coverage_with_checkpoint}
use pithos.Analysis.Chunking.Coverage.Exact.{Tiles, validate_chunk_coverage-Tiles}
use pithos.Analysis.Chunking.Structural.{
  ends_elsewhere, validate_boundary_ends, add_region, region_loop, chunk_structural_with_checkpoint,
}
use pithos.Analysis.Chunking.Structural.Regions.{
  Within, Uncrossed, IsAscending, boundary_loop-IsAscending, add_region-Within,
}

-- The new chunks of a run of the loop begin at `low` or behind it and cross none of `places`.
abbrev Clean : ChunkOrigin → ℕ → List ℕ → List LogicalChunkDraft → Type 0
Clean o low ends new =
    All (λ c. low ≤ c.logical_offset) new × All (λ e. All (Uncrossed (o.base_offset + e)) new) ends

-- Later boundaries lie behind all that a region holds.
later_Uncrossed :
    (o : ChunkOrigin) (size a b previous : ℕ) (ends : List ℕ) (new : List LogicalChunkDraft)
    → b ≤ previous
    → IsAscending size previous ends
    → All (Within a (o.base_offset + b)) new
    → All (λ e. All (Uncrossed (o.base_offset + e)) new) ends
later_Uncrossed o size a b previous [] new le h inside = tt
later_Uncrossed o size a b previous (e ∷ ends) new le (up, below, h) inside = (
  All_imp (Within a (o.base_offset + b)) (Uncrossed (o.base_offset + e)) new
      (λ c w. inl (omega arith)) inside,
  later_Uncrossed o size a b e ends new (omega arith) h inside,
)

join_ends :
    (o : ChunkOrigin) (ends : List ℕ) (xs ys : List LogicalChunkDraft)
    → All (λ e. All (Uncrossed (o.base_offset + e)) xs) ends
    → All (λ e. All (Uncrossed (o.base_offset + e)) ys) ends
    → All (λ e. All (Uncrossed (o.base_offset + e)) (xs ++ ys)) ends
join_ends o [] xs ys h k = tt
join_ends o (e ∷ ends) xs ys h k =
    (All-append (Uncrossed (o.base_offset + e)) xs ys h.0 k.0, join_ends o ends xs ys h.1 k.1)

Clean-append :
    (o : ChunkOrigin) (size a b : ℕ) (ends : List ℕ) (part rest : List LogicalChunkDraft)
    → a ≤ b
    → IsAscending size b ends
    → All (Within (o.base_offset + a) (o.base_offset + b)) part
    → Clean o (o.base_offset + b) ends rest
    → Clean o (o.base_offset + a) (b ∷ ends) (part ++ rest)
Clean-append o size a b ends part rest le up inside (behind, clean) =
    let first = o.base_offset + a in
    let last = o.base_offset + b in
    (
      All-append (λ c. first ≤ c.logical_offset) part rest
          (All_imp (Within first last) (λ c. first ≤ c.logical_offset) part (λ c w. w.0) inside)
          (All_imp (λ c. last ≤ c.logical_offset) (λ c. first ≤ c.logical_offset) rest
            (λ c h. omega arith) behind),
      (
        All-append (Uncrossed last) part rest
            (All_imp (Within first last) (Uncrossed last) part (λ c w. inl w.1) inside)
            (All_imp (λ c. last ≤ c.logical_offset) (Uncrossed last) rest (λ c h. inr h) behind),
        join_ends o ends part rest
            (later_Uncrossed o size first b b ends part (omega arith) up inside) clean,
      ),
    )

module _ {S : Type 0} (checkpoint : S → Result S) where
  region_loop-Clean :
      (crate : FastCdcCrate) (bytes : List ℕ) (o : ChunkOrigin) (config : ChunkingConfig) (a : ℕ)
      (ends : List ℕ) (chunks : List LogicalChunkDraft) (s : S) {next : List LogicalChunkDraft}
      {done : S}
      → IsAscending (length bytes) a ends
      → region_loop checkpoint crate bytes o config a ends chunks s ≡ ok (next, done)
      → (new : List LogicalChunkDraft) × (next ≡ chunks ++ new)
        × Clean o (o.base_offset + a) ends new
  unfolding region_loop
  region_loop-Clean crate bytes o config a [] chunks s {next = next} up q =
      let same : chunks ≡ next = ok_first q in ([], sym (append_nil chunks ∙ same), (tt, tt))
  region_loop-Clean crate bytes o config a (b ∷ ends) chunks s (lt, le, up) q =
      let (r, h1, q1) = bind-inv (add_region checkpoint crate bytes o config a b chunks s) _ q in
      let (part, joined, inside) =
        add_region-Within checkpoint crate bytes o config a b chunks s lt le h1 in
      let (rest, all_joined, clean) = region_loop-Clean crate bytes o config b ends r.0 r.1 up q1 in
      (
        part ++ rest,
        all_joined ∙ ap (λ row. row ++ rest) joined ∙ append_assoc chunks part rest,
        Clean-append o (length bytes) a b ends part rest (omega arith) up inside clean,
      )

-- Whatever FastCDC yields and the checkpoint does, chunks that come back for an input that is not empty
-- tile it, and none of them crosses a boundary of the scanner.
pub chunk_structural-Uncrossed :
    {S : Type 0} (checkpoint : S → Result S) (crate : FastCdcCrate) (bytes : List ℕ)
    (origin : ChunkOrigin) (boundary_ends : List ℕ) (config : ChunkingConfig) (s : S)
    {chunks : List LogicalChunkDraft} {done : S}
    → 0 < length bytes
    → chunk_structural_with_checkpoint checkpoint crate bytes origin boundary_ends config s
      ≡ ok (chunks, done)
    → Tiles origin origin.base_offset (origin.base_offset + length bytes) chunks
      × All (λ e. All (Uncrossed (origin.base_offset + e)) chunks) boundary_ends
unfolding chunk_structural_with_checkpoint validate_boundary_ends
chunk_structural-Uncrossed checkpoint crate bytes origin ends config s {chunks = chunks}
      {done = done} more q =
    let (u1, h1, q1) = bind-inv (validate_config crate config) _ q in
    let (u2, h2, q2) = bind-inv (ensure_logical_size (length bytes) config) _ q1 in
    let (last, h3, q3) =
      bind-inv (ok_or (checked_add origin.base_offset (length bytes)) integer_overflow) _ q2 in
    let filled : (length bytes == 0) ≡ false = ground arith in
    let q4 = from_else (length bytes == 0) _ filled q3 in
    let (u4, h4, q5) = bind-inv (ensure_chunk_count (length ends) config.max_chunks) _ q4 in
    let (s1, h5, q6) = bind-inv (validate_boundary_ends checkpoint ends (length bytes) s) _ q5 in
    let (u5, h6, q7) =
      bind-inv
        (bail_if (ends_elsewhere ends (length bytes)) (invalid_metadata "structural boundaries")) _
        h5 in
    let (found, h7, q8) =
      bind-inv (region_loop checkpoint crate bytes origin config 0 ends [] s1) _ q6 in
    let (s3, covered, q9) =
      bind-inv
        (validate_chunk_coverage_with_checkpoint checkpoint found.0 origin (length bytes) found.1) _
        q8 in
    let same : found.0 ≡ chunks = ok_first q9 in
    let up = boundary_loop-IsAscending checkpoint (length bytes) 0 ends s q7 in
    let (new, joined, clean) =
      region_loop-Clean checkpoint crate bytes origin config 0 ends [] s1 up h7 in
    let tiles =
      validate_chunk_coverage-Tiles checkpoint found.0 origin (length bytes) found.1 more covered in
    (
      subst (Tiles origin origin.base_offset (origin.base_offset + length bytes)) same tiles.0,
      subst (λ row. All (λ e. All (Uncrossed (origin.base_offset + e)) row) ends)
          (sym joined ∙ same) clean.1,
    )
