-- ===== src/Format/Footer/Fields.antt =====
-- `Footer`: what `encode` leaves in each field of the 64 bytes.
use pithos.Prelude.{ℕ, ◌≤◌, ◌<◌, ◌≡◌, refl, sym, ap, ◌∙◌, ◌⊎◌, true, some, List, arith, length}
use mathlib.Core.Path.{ap₂}
use pithos.Core.Checked.{u32_end}
use pithos.Core.Bytes.{to_le_bytes, length-to_le_bytes}
use pithos.Format.Crc.{Crc32c}
use pithos.Format.Buffer.{zeroed, slice, fill, read_u32, read_u64}
use pithos.Format.Buffer.Sealed.{length-sealed, sealed_beside, sealed_field, sealed_crc}
use pithos.Format.Buffer.Reads.{read_u32_of, read_u64_of}
use pithos.Format.Buffer.Fill.{IsSized, untouched, written, slice-fill-untouched}
use pithos.Format.Footer.{
  Footer, IsFooter, footer_fields, footer_crc, encode_footer, footer_magic, footer_len,
}

-- The buffer holds the footer `f` in its fields, with the checksum of the rest.
pub record FooterAt (crc : Crc32c) (buffer : List ℕ) (f : Footer) : Type 0 where
  pub at_magic : slice 0 4 buffer ≡ footer_magic
  pub at_crc : read_u32 buffer 56 ≡ footer_crc crc buffer
  pub at_length : read_u64 buffer 4 ≡ f.archive_length
  pub at_root : slice 12 44 buffer ≡ f.blake3_root
  pub at_directory : read_u32 buffer 44 ≡ f.directory_crc32c
  pub at_version : read_u32 buffer 48 ≡ f.version

module _ (crc : Crc32c) (f : Footer) (valid : IsFooter f) where
  pub fields-IsSized : IsSized 64 (footer_fields f)
  fields-IsSized = omega (arith, length-to_le_bytes, valid.root_length)

  plain_crc : ℕ
  plain_crc = footer_crc crc (fill (zeroed footer_len) (footer_fields f))

  pub length-encode_footer : length (encode_footer crc f) ≡ 64
  unfolding encode_footer plain_crc
  length-encode_footer =
      length-sealed 64 56 60 (omega arith) refl (footer_fields f) fields-IsSized plain_crc

  field :
      (a b : ℕ) {bs : List ℕ}
      → a ≤ b
      → (b ≤ 56) ⊎ (60 ≤ a)
      → written a b (footer_fields f) ≡ some bs
      → slice a b (encode_footer crc f) ≡ bs
  unfolding encode_footer plain_crc
  field = sealed_field 64 56 60 (omega arith) refl (footer_fields f) fields-IsSized plain_crc

  pub beside_crc :
      (a b : ℕ)
      → a ≤ b
      → (b ≤ 56) ⊎ (60 ≤ a)
      → slice a b (encode_footer crc f) ≡ slice a b (fill (zeroed footer_len) (footer_fields f))
  unfolding encode_footer plain_crc
  beside_crc = sealed_beside 64 56 60 (omega arith) refl (footer_fields f) fields-IsSized plain_crc

  same_crc : footer_crc crc (encode_footer crc f) ≡ plain_crc
  unfolding footer_crc plain_crc
  same_crc =
      ap₂ (λ front back. crc.append (crc.append 0 front) back)
        (beside_crc 0 56 (omega arith) (omega arith)) (beside_crc 60 64 (omega arith) (omega arith))

  plain_crc_u32 : plain_crc < u32_end
  unfolding plain_crc footer_crc
  plain_crc_u32 = crc.append_u32 _ _

  crc_field : slice 56 60 (encode_footer crc f) ≡ to_le_bytes 4 plain_crc
  unfolding encode_footer plain_crc
  crc_field = sealed_crc 64 56 60 (omega arith) refl (footer_fields f) fields-IsSized plain_crc

  pub crc_bytes :
      slice 56 60 (encode_footer crc f) ≡ to_le_bytes 4 (footer_crc crc (encode_footer crc f))
  crc_bytes = crc_field ∙ ap (to_le_bytes 4) (sym same_crc)

  pub encode_footer-FooterAt : FooterAt crc (encode_footer crc f) f
  encode_footer-FooterAt =
      let b = encode_footer crc f in
      record {
        at_magic = field 0 4 (omega arith) (omega arith) refl;
        at_crc = read_u32_of b 56 plain_crc_u32 crc_field ∙ sym same_crc;
        at_length = read_u64_of b 4 valid.length_u64 (field 4 12 (omega arith) (omega arith) refl);
        at_root = field 12 44 (omega arith) (omega arith) refl;
        at_directory =
            read_u32_of b 44 valid.directory_u32 (field 44 48 (omega arith) (omega arith) refl);
        at_version =
            read_u32_of b 48 valid.version_u32 (field 48 52 (omega arith) (omega arith) refl);
      }

  -- The bytes that no field uses.
  pub spare :
      (a b : ℕ)
      → a ≤ b
      → (b ≤ 56) ⊎ (60 ≤ a)
      → untouched a b (footer_fields f) ≡ true
      → slice a b (encode_footer crc f) ≡ slice a b (zeroed footer_len)
  spare a b o side u =
      beside_crc a b o side
      ∙ slice-fill-untouched 64 a b (zeroed footer_len) (footer_fields f) refl fields-IsSized o u
