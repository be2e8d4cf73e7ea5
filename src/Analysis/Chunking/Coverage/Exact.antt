-- ===== src/Analysis/Chunking/Coverage/Exact.antt =====
-- `validate_chunk_coverage` accepts exactly the rows of chunks that tile the object.
use pithos.Prelude.{
  ℕ, ◌+◌, ◌≤◌, ◌<◌, ◌≡◌, ◌↔◌, refl, subst, ◌!=◌, Bool, true, false, ◌||◌, List, [], ◌∷◌, arith, ltb,
  ◌==◌, if◌then◌else◌, ◌∙◌,
}
use pithos.Core.{
  PithosError, Result, ok, err, bind-inv, bail_if, ok_or, invalid_metadata, integer_overflow,
}
use pithos.Core.Checked.{u64_end, checked_add}
use pithos.Analysis.Chunking.{ChunkOrigin, LogicalChunkDraft}
use pithos.Analysis.Chunking.Coverage.{
  is_empty, coverage_loop, validate_chunk_coverage_with_checkpoint, validate_chunk_coverage,
  no_checkpoint,
}

-- The chunks are of the object, none is empty, and each begins where the one before it ends: from
-- `first` to `last`.
abbrev pub Tiles : ChunkOrigin → ℕ → ℕ → List LogicalChunkDraft → Type 0
Tiles origin first last [] = first ≡ last
Tiles origin first last (c ∷ cs) =
    (c.entry_id ≡ origin.entry_id)
    × (c.object_id ≡ origin.object_id)
    × (c.logical_offset ≡ first)
    × (0 < c.length)
    × Tiles origin (first + c.length) last cs

pub Tiles-le : (o : ChunkOrigin) (a b : ℕ) (cs : List LogicalChunkDraft) → Tiles o a b cs → a ≤ b
Tiles-le o a b [] h = omega arith
Tiles-le o a b (c ∷ cs) (e, i, p, l, rest) =
    let ih = Tiles-le o (a + c.length) b cs rest in omega arith

module _ {S : Type 0} (checkpoint : S → Result S) where
  coverage_loop-Tiles :
      (o : ChunkOrigin) (last first : ℕ) (cs : List LogicalChunkDraft) (s : S) {done : S}
      → coverage_loop checkpoint o last first cs s ≡ ok done
      → Tiles o first last cs
  unfolding coverage_loop
  coverage_loop-Tiles o last first [] s q = ground arith
  coverage_loop-Tiles o last first (c ∷ cs) s q =
      let (s1, e, q1) = bind-inv (checkpoint s) _ q in
      let (done1, e2, q2) =
        bind-inv
          (bail_if
            (c.entry_id != o.entry_id
              || (c.object_id != o.object_id || (c.logical_offset != first || c.length == 0)))
            (invalid_metadata "chunk coverage"))
          _ q1 in
      let (next, e3, q3) = bind-inv (ok_or (checked_add first c.length) integer_overflow) _ q2 in
      let (done3, e4, q4) =
        bind-inv (bail_if (ltb last next) (invalid_metadata "chunk coverage")) _ q3 in
      let same : next ≡ first + c.length = ground arith in
      let ih = coverage_loop-Tiles o last next cs s1 q4 in
      (
        ground arith,
        ground arith,
        ground arith,
        ground arith,
        subst (λ n. Tiles o n last cs) same ih,
      )

  coverage_step :
      (o : ChunkOrigin) (last first : ℕ) (c : LogicalChunkDraft) (cs : List LogicalChunkDraft)
      (s s1 : S)
      → checkpoint s ≡ ok s1
      → (c.entry_id ≡ o.entry_id)
        × (c.object_id ≡ o.object_id)
        × (c.logical_offset ≡ first)
        × (0 < c.length)
      → first + c.length ≤ last
      → last < u64_end
      → coverage_loop checkpoint o last first (c ∷ cs) s
        ≡ coverage_loop checkpoint o last (first + c.length) cs s1
  unfolding coverage_loop
  coverage_step o last first c cs s s1 run (e, i, p, l) le fits =
      let same_entry : (c.entry_id != o.entry_id) ≡ false = ground arith in
      let same_object : (c.object_id != o.object_id) ≡ false = ground arith in
      let same_place : (c.logical_offset != first) ≡ false = ground arith in
      let filled : (c.length == 0) ≡ false = ground arith in
      let sum_fits : ltb (first + c.length) u64_end ≡ true = ground arith in
      let not_past : ltb last (first + c.length) ≡ false = ground arith in
      rw (run, same_entry, same_object, same_place, filled, sum_fits, not_past) refl

  Tiles-coverage_loop :
      (o : ChunkOrigin) (last first : ℕ) (cs : List LogicalChunkDraft) (s : S)
      → ((t : S) → (t1 : S) × (checkpoint t ≡ ok t1))
      → last < u64_end
      → Tiles o first last cs
      → (done : S) × (coverage_loop checkpoint o last first cs s ≡ ok done)
  Tiles-coverage_loop o last first [] s runs fits h = (s, unfold coverage_loop in ground arith)
  Tiles-coverage_loop o last first (c ∷ cs) s runs fits (e, i, p, l, rest) =
      let (s1, q1) = runs s in
      let (done, q) = Tiles-coverage_loop o last (first + c.length) cs s1 runs fits rest in
      let le = Tiles-le o (first + c.length) last cs rest in
      (done, coverage_step o last first c cs s s1 q1 (e, i, p, l) le fits ∙ q)

else_ok :
    {S : Type 0} (test : Bool) (error : PithosError) (r : Result S) {done : S}
    → (if test then err error else r) ≡ ok done
    → r ≡ ok done
else_ok true error r h = cc
else_ok false error r h = h

-- Whatever the checkpoint does, chunks that the check lets through tile an object that is not empty
-- from its base offset to its end.
pub validate_chunk_coverage-Tiles :
    {S : Type 0} (checkpoint : S → Result S) (chunks : List LogicalChunkDraft)
    (origin : ChunkOrigin) (logical_size : ℕ) (s : S) {done : S}
    → 0 < logical_size
    → validate_chunk_coverage_with_checkpoint checkpoint chunks origin logical_size s ≡ ok done
    → Tiles origin origin.base_offset (origin.base_offset + logical_size) chunks
      × (origin.base_offset + logical_size < u64_end)
unfolding validate_chunk_coverage_with_checkpoint
validate_chunk_coverage-Tiles checkpoint chunks origin logical_size s {done = done} some_bytes q =
    let (s1, e, q1) = bind-inv (checkpoint s) _ q in
    let (last, e2, q2) =
      bind-inv (ok_or (checked_add origin.base_offset logical_size) integer_overflow) _ q1 in
    let same : (last ≡ origin.base_offset + logical_size) × (last < u64_end) = ground arith in
    let filled : (logical_size == 0) ≡ false = ground arith in
    let q3 : (if is_empty chunks
          then err (invalid_metadata "missing chunk coverage")
          else coverage_loop checkpoint origin last origin.base_offset chunks s1)
        ≡ ok done =
      rw filled at q2 in
    let q4 = else_ok (is_empty chunks) _ _ q3 in
    let tiles = coverage_loop-Tiles checkpoint origin last origin.base_offset chunks s1 q4 in
    (subst (λ n. Tiles origin origin.base_offset n chunks) same.0 tiles, ground arith)

pub Tiles-accepted :
    (chunks : List LogicalChunkDraft) (origin : ChunkOrigin) (size : ℕ)
    → 0 < size
    → origin.base_offset + size < u64_end
    → Tiles origin origin.base_offset (origin.base_offset + size) chunks
    → validate_chunk_coverage_with_checkpoint no_checkpoint chunks origin size tt ≡ ok tt
unfolding validate_chunk_coverage_with_checkpoint
Tiles-accepted [] origin size some_bytes fits h = ground arith
Tiles-accepted (c ∷ cs) origin size some_bytes fits h =
    let filled : (size == 0) ≡ false = ground arith in
    let sum_fits : ltb (origin.base_offset + size) u64_end ≡ true = ground arith in
    let (done, q) =
      Tiles-coverage_loop no_checkpoint origin (origin.base_offset + size) origin.base_offset
        (c ∷ cs) tt (λ t. (t, refl)) fits h in
    rw (sum_fits, filled) q

-- Without a checkpoint, the check lets exactly those rows of chunks through that tile the object,
-- for an object that is not empty and whose end is a `u64`.
pub validate_chunk_coverage_iff :
    (chunks : List LogicalChunkDraft) (origin : ChunkOrigin) (logical_size : ℕ)
    → 0 < logical_size
    → origin.base_offset + logical_size < u64_end
    → (validate_chunk_coverage chunks origin logical_size ≡ ok tt)
      ↔ Tiles origin origin.base_offset (origin.base_offset + logical_size) chunks
unfolding validate_chunk_coverage
validate_chunk_coverage_iff chunks origin size some_bytes fits = (
  λ q. (validate_chunk_coverage-Tiles no_checkpoint chunks origin size tt some_bytes q).0,
  λ h. Tiles-accepted chunks origin size some_bytes fits h,
)
