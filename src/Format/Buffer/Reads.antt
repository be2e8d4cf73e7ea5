-- ===== src/Format/Buffer/Reads.antt =====
-- The readers of a fixed-width integer against the bytes that the encoders write, both ways.
use pithos.Prelude.{ℕ, ◌-◌, ◌+◌, ◌^◌, ◌≤◌, ◌<◌, ◌≡◌, ap, ◌∙◌, List, arith, length, All}
use pithos.Prelude.Int.{ℤ}
use pithos.Core.Checked.{u16_end, u32_end, u64_end}
use pithos.Core.Bytes.{
  IsByte, IsI32, i32_bits, i32_of_bits, to_le_bytes, from_le_bytes, from_le_bytes-to_le_bytes,
  to_le_bytes-from_le_bytes, from_le_bytes-lt, i32_of_bits-i32_bits, i32_bits-i32_of_bits,
  i32_bits-lt,
}
use pithos.Format.Buffer.{slice, read_u16, read_u32, read_i32, read_u64}
use pithos.Format.Buffer.Slices.{length-slice, slice-IsByte}

-- A field that holds the bytes of a value reads as that value.
module _ (buffer : List ℕ) (offset : ℕ) where
  pub read_u16_of :
      {v : ℕ}
      → v < u16_end
      → slice offset (offset + 2) buffer ≡ to_le_bytes 2 v
      → read_u16 buffer offset ≡ v
  unfolding read_u16
  read_u16_of {v} h e = ap from_le_bytes e ∙ from_le_bytes-to_le_bytes 2 v h

  pub read_u32_of :
      {v : ℕ}
      → v < u32_end
      → slice offset (offset + 4) buffer ≡ to_le_bytes 4 v
      → read_u32 buffer offset ≡ v
  unfolding read_u32
  read_u32_of {v} h e = ap from_le_bytes e ∙ from_le_bytes-to_le_bytes 4 v h

  pub read_i32_of :
      {z : ℤ}
      → IsI32 z
      → slice offset (offset + 4) buffer ≡ to_le_bytes 4 (i32_bits z)
      → read_i32 buffer offset ≡ z
  unfolding read_i32
  read_i32_of {z} h e =
      ap (λ bs. i32_of_bits (from_le_bytes bs)) e
      ∙ ap i32_of_bits (from_le_bytes-to_le_bytes 4 (i32_bits z) (i32_bits-lt z h))
      ∙ i32_of_bits-i32_bits z h

  pub read_u64_of :
      {v : ℕ}
      → v < u64_end
      → slice offset (offset + 8) buffer ≡ to_le_bytes 8 v
      → read_u64 buffer offset ≡ v
  unfolding read_u64
  read_u64_of {v} h e = ap from_le_bytes e ∙ from_le_bytes-to_le_bytes 8 v h

-- A value that was read is in range, and its bytes are those of the field.
module _ (buffer : List ℕ) (bytes : All IsByte buffer) (n : ℕ) (length_n : length buffer ≡ n) where
  field_bytes :
      (a b w : ℕ)
      → a ≤ b
      → b ≤ n
      → w ≡ b - a
      → to_le_bytes w (from_le_bytes (slice a b buffer)) ≡ slice a b buffer
  field_bytes a b w h k e =
      to_le_bytes-from_le_bytes w (slice a b buffer)
        (omega (arith, length-slice a b buffer h (omega arith))) (slice-IsByte a b buffer bytes)

  field_lt : (a b w : ℕ) → a ≤ b → b ≤ n → w ≡ b - a → from_le_bytes (slice a b buffer) < 256 ^ w
  field_lt a b w h k e =
      from_le_bytes-lt w (slice a b buffer) (omega (arith, length-slice a b buffer h (omega arith)))
        (slice-IsByte a b buffer bytes)

  module _ (offset : ℕ) where
    pub read_u16_bytes :
        {v : ℕ}
        → offset + 2 ≤ n
        → read_u16 buffer offset ≡ v
        → (to_le_bytes 2 v ≡ slice offset (offset + 2) buffer) × (v < u16_end)
    unfolding read_u16
    read_u16_bytes h e = rw (← e) (
      field_bytes offset (offset + 2) 2 (omega arith) h (omega arith),
      field_lt offset (offset + 2) 2 (omega arith) h (omega arith),
    )

    pub read_u32_bytes :
        {v : ℕ}
        → offset + 4 ≤ n
        → read_u32 buffer offset ≡ v
        → (to_le_bytes 4 v ≡ slice offset (offset + 4) buffer) × (v < u32_end)
    unfolding read_u32
    read_u32_bytes h e = rw (← e) (
      field_bytes offset (offset + 4) 4 (omega arith) h (omega arith),
      field_lt offset (offset + 4) 4 (omega arith) h (omega arith),
    )

    pub read_u64_bytes :
        {v : ℕ}
        → offset + 8 ≤ n
        → read_u64 buffer offset ≡ v
        → (to_le_bytes 8 v ≡ slice offset (offset + 8) buffer) × (v < u64_end)
    unfolding read_u64
    read_u64_bytes h e = rw (← e) (
      field_bytes offset (offset + 8) 8 (omega arith) h (omega arith),
      field_lt offset (offset + 8) 8 (omega arith) h (omega arith),
    )

    pub read_i32_bytes :
        {z : ℤ}
        → offset + 4 ≤ n
        → read_i32 buffer offset ≡ z
        → to_le_bytes 4 (i32_bits z) ≡ slice offset (offset + 4) buffer
    unfolding read_i32
    read_i32_bytes h e = rw (← e) (
        ap (to_le_bytes 4)
          (i32_bits-i32_of_bits _ (field_lt offset (offset + 4) 4 (omega arith) h (omega arith)))
        ∙ field_bytes offset (offset + 4) 4 (omega arith) h (omega arith))
