-- ===== src/Analysis/Chunking/Fixed/Blocks.antt =====
-- The full blocks and the one last block that `chunk_fixed_high_entropy` cuts an object into.
use pithos.Prelude.{
  ℕ, zero, suc, ◌+◌, ◌-◌, ◌*◌, ◌/◌, ◌≤◌, ◌<◌, min, ◌≡◌, refl, subst, sym, List, [], ◌∷◌, arith,
}
use pithos.Analysis.Chunking.{ChunkOrigin, LogicalChunkDraft, fixed_high_entropy}
use pithos.Analysis.Chunking.Coverage.Exact.{Tiles}
use native.Mathlib.Nat.{lt-div-mul-add, div-mul-le_self}

abbrev pub fixed_draft : ChunkOrigin → ℕ → ℕ → LogicalChunkDraft
fixed_draft o offset len = record {
  entry_id = o.entry_id;
  object_id = o.object_id;
  logical_offset = o.base_offset + offset;
  length = len;
  method = fixed_high_entropy;
}

abbrev pub blocks : ChunkOrigin → ℕ → ℕ → ℕ → ℕ → List LogicalChunkDraft
blocks o block size zero offset = []
blocks o block size (suc n) offset =
    fixed_draft o offset (min (size - offset) block)
    ∷ blocks o block size n (offset + min (size - offset) block)

-- All chunks but the last have the block size, and the last has at most that.
abbrev pub AreBlocks : ℕ → List LogicalChunkDraft → Type 0
AreBlocks block [] = Unit
AreBlocks block (c ∷ []) = c.length ≤ block
AreBlocks block (c ∷ d ∷ cs) = (c.length ≡ block) × AreBlocks block (d ∷ cs)

-- So many rounds leave nothing, and one less leaves something.
abbrev pub Rounds : ℕ → ℕ → ℕ → Type 0
Rounds block zero remaining = remaining ≡ 0
Rounds block (suc n) remaining = (0 < remaining) × Rounds block n (remaining - block)

rounds :
    (block n remaining : ℕ)
    → 0 < block
    → remaining ≤ n * block
    → n * block < remaining + block
    → Rounds block n remaining
rounds block zero remaining b le lt = omega arith
rounds block (suc n) remaining b le lt =
    (omega arith, rounds block n (remaining - block) b (omega arith) (omega arith))

pub count_Rounds :
    (block size : ℕ) → 0 < block → 0 < size → Rounds block ((size - 1) / block + 1) size
count_Rounds block size b s =
    let above : size - 1 < (size - 1) / block * block + block = lt-div-mul-add b in
    let below = div-mul-le_self (size - 1) block in
    rounds block ((size - 1) / block + 1) size b (omega arith) (omega arith)

pub Rounds-le : (block n remaining : ℕ) → 0 < block → Rounds block n remaining → n ≤ remaining
Rounds-le block zero remaining b h = omega arith
Rounds-le block (suc n) remaining b (some_left, rest) =
    let ih = Rounds-le block n (remaining - block) b rest in omega arith

pub blocks-Tiles :
    (o : ChunkOrigin) (block size n offset first : ℕ)
    → 0 < block
    → offset ≤ size
    → first ≡ o.base_offset + offset
    → Rounds block n (size - offset)
    → Tiles o first (o.base_offset + size) (blocks o block size n offset)
blocks-Tiles o block size zero offset first b le at h = omega arith
blocks-Tiles o block size (suc n) offset first b le at (some_left, rest) = (
  refl,
  refl,
  sym at,
  omega arith,
  blocks-Tiles o block size n (offset + min (size - offset) block)
      (first + min (size - offset) block) b (omega arith) (omega arith)
      (subst (Rounds block n) (omega arith) rest),
)

pub blocks-AreBlocks :
    (o : ChunkOrigin) (block size n offset : ℕ)
    → 0 < block
    → offset ≤ size
    → Rounds block n (size - offset)
    → AreBlocks block (blocks o block size n offset)
blocks-AreBlocks o block size zero offset b le h = tt
blocks-AreBlocks o block size (suc zero) offset b le h = omega arith
blocks-AreBlocks o block size (suc (suc n)) offset b le (some_left, rest) = (
  omega arith,
  blocks-AreBlocks o block size (suc n) (offset + min (size - offset) block) b (omega arith)
      (subst (Rounds block (suc n)) (omega arith) rest),
)
