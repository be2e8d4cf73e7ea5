-- ===== src/Analysis/Chunking/Structural/Regions.antt =====
-- Where the chunks of one region of `chunk_structural` lie.
use pithos.Prelude.{
  append_nil, append_assoc, All_imp, ℕ, ◌+◌, ◌-◌, ◌≤◌, ◌<◌, ◌≡◌, sym, ◌∙◌, ◌⊎◌, inl, inr, ◌||◌,
  List, [], ◌∷◌, ◌++◌, map, arith, All, length, take, drop, length-take, length-drop, ltb, leb,
  ◌==◌, Bool-cases,
}
use pithos.Core.{
  Result, ok, ◌>>=◌, bind-inv, ok_first, bail_if, ok_or, invalid_metadata, integer_overflow,
  resource_limit,
}
use pithos.Core.Checked.{checked_add, checked_sub, u32_try_from}
use pithos.Analysis.Chunking.{
  FastCdcCrate, ChunkingConfig, ChunkOrigin, ChunkingMethod, LogicalChunkDraft, structural,
  ensure_chunk_count, push_relative_chunk,
}
use pithos.Analysis.Chunking.Coverage.Exact.{Tiles, Tiles-le}
use pithos.Analysis.Chunking.FastCdc.{chunk_fastcdc_with_checkpoint, chunk_fastcdc-Tiles}
use pithos.Analysis.Chunking.Structural.{
  set_structural, boundary_loop, take_over, cut_region, add_region,
}

abbrev pub Within : ℕ → ℕ → LogicalChunkDraft → Type 0
Within first last c = (first ≤ c.logical_offset) × (c.logical_offset + c.length ≤ last)

-- A chunk ends before a place in the file, or begins behind it.
abbrev pub Uncrossed : ℕ → LogicalChunkDraft → Type 0
Uncrossed place c = (c.logical_offset + c.length ≤ place) ⊎ (place ≤ c.logical_offset)

abbrev pub IsAscending : ℕ → ℕ → List ℕ → Type 0
IsAscending size previous [] = Unit
IsAscending size previous (b ∷ bs) = (previous < b) × (b ≤ size) × IsAscending size b bs

widen :
    (first mid last : ℕ)
    → mid ≤ last
    → (c : LogicalChunkDraft) → Within first mid c
    → Within first last c
widen first mid last le c h = (omega arith, omega arith)

Tiles-Within :
    (o : ChunkOrigin) (low first last : ℕ) (cs : List LogicalChunkDraft)
    → low ≤ first
    → Tiles o first last cs
    → All (Within low last) (map set_structural cs)
Tiles-Within o low first last [] le h = tt
Tiles-Within o low first last (c ∷ cs) le (e, i, p, l, rest) =
    let end = Tiles-le o (first + c.length) last cs rest in
    ((omega arith, omega arith), Tiles-Within o low (first + c.length) last cs (omega arith) rest)

push_relative_chunk-Within :
    (chunks : List LogicalChunkDraft) (o : ChunkOrigin) (offset len : ℕ) (m : ChunkingMethod)
    (most : ℕ) {next : List LogicalChunkDraft}
    → push_relative_chunk chunks o offset len m most ≡ ok next
    → (new : List LogicalChunkDraft) × (next ≡ chunks ++ new)
      × All (Within (o.base_offset + offset) (o.base_offset + offset + len)) new
unfolding push_relative_chunk
push_relative_chunk-Within chunks o offset len m most {next = next} q =
    let (count, h1, q1) = bind-inv (ok_or (checked_add (length chunks) 1) integer_overflow) _ q in
    let (u, h2, q2) = bind-inv (ensure_chunk_count count most) _ q1 in
    let (u32_len, h3, q3) = bind-inv (ok_or (u32_try_from len) integer_overflow) _ q2 in
    let (v, h4, q4) =
      bind-inv (bail_if (u32_len == 0) (invalid_metadata "zero-length chunk")) _ q3 in
    let (at, h5, q5) = bind-inv (ok_or (checked_add o.base_offset offset) integer_overflow) _ q4 in
    let (end, h6, q6) = bind-inv (ok_or (checked_add at u32_len) integer_overflow) _ q5 in
    let new : List LogicalChunkDraft =
      record {
        entry_id = o.entry_id;
        object_id = o.object_id;
        logical_offset = at;
        length = u32_len;
        method = m;
      }
      ∷ [] in
    let same : next ≡ chunks ++ new = cc in
    let at_same : at ≡ o.base_offset + offset = ground arith in
    let len_same : u32_len ≡ len = ground arith in (new, same, ((omega arith, omega arith), tt))

module _ {S : Type 0} (checkpoint : S → Result S) where
  pub boundary_loop-IsAscending :
      (size previous : ℕ) (bs : List ℕ) (s : S) {done : S}
      → boundary_loop checkpoint size previous bs s ≡ ok done
      → IsAscending size previous bs
  unfolding boundary_loop
  boundary_loop-IsAscending size previous [] s q = tt
  boundary_loop-IsAscending size previous (b ∷ bs) s q =
      let (s1, h1, q1) = bind-inv (checkpoint s) _ q in
      let (u, h2, q2) =
        bind-inv (bail_if (leb b previous || ltb size b) (invalid_metadata "structural boundaries"))
          _ q1 in
      (ground arith, ground arith, boundary_loop-IsAscending size b bs s1 q2)

  take_over-map :
      (chunks subchunks : List LogicalChunkDraft) (s : S) {next : List LogicalChunkDraft} {done : S}
      → take_over checkpoint chunks subchunks s ≡ ok (next, done)
      → next ≡ chunks ++ map set_structural subchunks
  unfolding take_over
  take_over-map chunks [] s {next = next} q =
      let same : chunks ≡ next = ok_first q in sym (append_nil chunks ∙ same)
  take_over-map chunks (c ∷ cs) s q =
      let (s1, h1, q1) = bind-inv (checkpoint s) _ q in
      take_over-map (chunks ++ (set_structural c ∷ [])) cs s1 q1
      ∙ append_assoc chunks (set_structural c ∷ []) (map set_structural cs)

  cut_region-Within :
      (crate : FastCdcCrate) (bytes : List ℕ) (o : ChunkOrigin) (config : ChunkingConfig) (a b : ℕ)
      (chunks : List LogicalChunkDraft) (s : S) {next : List LogicalChunkDraft} {done : S}
      → a < b
      → b ≤ length bytes
      → cut_region checkpoint crate bytes o config a b chunks s ≡ ok (next, done)
      → (new : List LogicalChunkDraft) × (next ≡ chunks ++ new)
        × All (Within (o.base_offset + a) (o.base_offset + b)) new
  unfolding cut_region
  cut_region-Within crate bytes o config a b chunks s lt le q =
      let (left, h1, q1) =
        bind-inv (ok_or (checked_sub config.max_chunks (length chunks)) integer_overflow) _ q in
      let (u, h2, q2) = bind-inv (bail_if (left == 0) (resource_limit "chunk count")) _ q1 in
      let (base, h3, q3) = bind-inv (ok_or (checked_add o.base_offset a) integer_overflow) _ q2 in
      let region = take (b - a) (drop a bytes) in
      let sub_origin : ChunkOrigin = record o { base_offset = base } in
      let sub_config : ChunkingConfig = record config {
        max_chunks = left;
        max_logical_bytes = b - a;
      } in
      let (found, h4, q4) =
        bind-inv (chunk_fastcdc_with_checkpoint checkpoint crate region sub_origin sub_config s) _
          q3 in
      let len_take = length-take (b - a) (drop a bytes) in
      let len_drop = length-drop a bytes in
      let len : length region ≡ b - a = omega arith in
      let at : base ≡ o.base_offset + a = ground arith in
      let tiles =
        chunk_fastcdc-Tiles checkpoint crate region sub_origin sub_config s (omega arith) h4 in
      let inside =
        Tiles-Within sub_origin base base (base + length region) found.0 (omega arith) tiles in
      (
        map set_structural found.0,
        take_over-map chunks found.0 found.1 q4,
        All_imp (Within base (base + length region))
            (Within (o.base_offset + a) (o.base_offset + b)) (map set_structural found.0)
            (λ c h. (omega arith, omega arith)) inside,
      )

  pub add_region-Within :
      (crate : FastCdcCrate) (bytes : List ℕ) (o : ChunkOrigin) (config : ChunkingConfig) (a b : ℕ)
      (chunks : List LogicalChunkDraft) (s : S) {next : List LogicalChunkDraft} {done : S}
      → a < b
      → b ≤ length bytes
      → add_region checkpoint crate bytes o config a b chunks s ≡ ok (next, done)
      → (new : List LogicalChunkDraft) × (next ≡ chunks ++ new)
        × All (Within (o.base_offset + a) (o.base_offset + b)) new
  unfolding add_region
  add_region-Within crate bytes o config a b chunks s {next = next} {done = done} lt le q =
      let (s1, h1, q1) = bind-inv (checkpoint s) _ q in
      let (len, h2, q2) = bind-inv (ok_or (checked_sub b a) integer_overflow) _ q1 in
      let len_same : len ≡ b - a = ground arith in
      elim (Bool-cases (leb len config.fastcdc_max)) [
        | inl short ↦
            let q3 : (push_relative_chunk chunks o a len structural config.max_chunks
                  >>= λ next_chunks. ok (next_chunks, s1))
                ≡ ok (next, done) =
              rw short at q2 in
            let (pushed, h3, q4) =
              bind-inv (push_relative_chunk chunks o a len structural config.max_chunks) _ q3 in
            let same : pushed ≡ next = ok_first q4 in
            let (new, joined, inside) =
              push_relative_chunk-Within chunks o a len structural config.max_chunks h3 in
            (
              new,
              sym same ∙ joined,
              All_imp (Within (o.base_offset + a) (o.base_offset + a + len))
                  (Within (o.base_offset + a) (o.base_offset + b)) new
                  (widen (o.base_offset + a) (o.base_offset + a + len) (o.base_offset + b)
                    (omega arith))
                  inside,
            )
        | inr long ↦ cut_region-Within crate bytes o config a b chunks s1 lt le (rw long at q2)
      ]
