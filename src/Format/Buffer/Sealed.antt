-- ===== src/Format/Buffer/Sealed.antt =====
-- A filled buffer into which a checksum is then written, as the header's and the footer's encoders
-- do: the checksum reads back, and every other field is what it was before.
use pithos.Prelude.{ℕ, ◌-◌, ◌+◌, ◌≤◌, ◌≡◌, ◌∙◌, ◌⊎◌, some, List, arith, length, length-replicate}
use pithos.Core.Bytes.{to_le_bytes, length-to_le_bytes}
use pithos.Format.Buffer.{zeroed, slice, copy_from_slice, Patch, fill}
use pithos.Format.Buffer.Slices.{
  length-copy_from_slice, slice-copy_from_slice_self, slice-copy_from_slice_disjoint,
}
use pithos.Format.Buffer.Fill.{IsSized, written, slice-fill, length-fill}

module _ (n c d : ℕ) (fits : d ≤ n) (four : d ≡ c + 4) (ps : List Patch) (sized : IsSized n ps)
    (crc : ℕ) where
  abbrev plain : List ℕ
  plain = fill (zeroed n) ps

  abbrev sealed : List ℕ
  sealed = copy_from_slice c d (to_le_bytes 4 crc) plain

  pub length-plain : length plain ≡ n
  length-plain = length-fill n (zeroed n) ps (length-replicate n (let z : ℕ = 0 in z)) sized

  crc_length : length (to_le_bytes 4 crc) ≡ d - c
  crc_length = omega (arith, length-to_le_bytes)

  pub length-sealed : length sealed ≡ n
  length-sealed =
      length-copy_from_slice c d (to_le_bytes 4 crc) plain (omega arith)
        (omega (arith, length-plain)) crc_length
      ∙ length-plain

  pub sealed_beside : (a b : ℕ) → a ≤ b → (b ≤ c) ⊎ (d ≤ a) → slice a b sealed ≡ slice a b plain
  sealed_beside a b o side =
      slice-copy_from_slice_disjoint a b c d (to_le_bytes 4 crc) plain o (omega arith)
        (omega (arith, length-plain)) crc_length side

  pub sealed_field :
      (a b : ℕ) {bs : List ℕ}
      → a ≤ b
      → (b ≤ c) ⊎ (d ≤ a)
      → written a b ps ≡ some bs
      → slice a b sealed ≡ bs
  sealed_field a b o side w =
      sealed_beside a b o side
      ∙ slice-fill n a b (zeroed n) ps (length-replicate n (let z : ℕ = 0 in z)) sized o w

  pub sealed_crc : slice c d sealed ≡ to_le_bytes 4 crc
  sealed_crc =
      slice-copy_from_slice_self c d (to_le_bytes 4 crc) plain (omega arith)
        (omega (arith, length-plain)) crc_length
