-- ===== src/Format/Buffer.antt =====
-- Fixed-size byte buffers as the encoders of crates/pithos-format/src/lib.rs fill them:
-- `buffer[start..end].copy_from_slice(bytes)` over a zeroed array, and the readers `read_u16`,
-- `read_u32`, `read_i32` and `read_u64`.
pub mod Slices
pub mod Fill
pub mod Reads
pub mod Sealed
use pithos.Prelude.{
  ℕ, ◌+◌, ◌-◌, ◌≤◌, ◌≡◌, Bool, true, false, ◌&&◌, Option, none, some, List, [], ◌∷◌, ◌++◌, take,
  drop, replicate, length, ◌==◌, leb, ◌||◌, if◌then◌else◌,
}
use pithos.Prelude.Int.{ℤ}
use pithos.Core.Bytes.{from_le_bytes, i32_of_bits}

abbrev pub zeroed : ℕ → List ℕ
zeroed n = replicate n 0

-- `buffer[start..end]`
abbrev pub slice : ℕ → ℕ → List ℕ → List ℕ
slice start end buffer = take (end - start) (drop start buffer)

-- `buffer[start..end].copy_from_slice(bytes)`, where `bytes` has `end - start` elements.
unfoldable pub copy_from_slice : ℕ → ℕ → List ℕ → List ℕ → List ℕ
copy_from_slice start end bytes buffer = take start buffer ++ (bytes ++ drop end buffer)

-- One assignment of an encoder, and a row of them in the order of the source.
pub record Patch : Type 0 where
  pub start : ℕ
  pub end : ℕ
  pub bytes : List ℕ

infix 60 ◌until◌put◌
abbrev pub ◌until◌put◌ : ℕ → ℕ → List ℕ → Patch
a until b put bs = record { start = a; end = b; bytes = bs }

unfoldable pub fill : List ℕ → List Patch → List ℕ
fill buffer [] = buffer
fill buffer (p ∷ ps) = fill (copy_from_slice p.start p.end p.bytes buffer) ps

unfoldable pub read_u16 : List ℕ → ℕ → ℕ
read_u16 buffer offset = from_le_bytes (slice offset (offset + 2) buffer)

unfoldable pub read_u32 : List ℕ → ℕ → ℕ
read_u32 buffer offset = from_le_bytes (slice offset (offset + 4) buffer)

unfoldable pub read_i32 : List ℕ → ℕ → ℤ
read_i32 buffer offset = i32_of_bits (from_le_bytes (slice offset (offset + 4) buffer))

unfoldable pub read_u64 : List ℕ → ℕ → ℕ
read_u64 buffer offset = from_le_bytes (slice offset (offset + 8) buffer)
