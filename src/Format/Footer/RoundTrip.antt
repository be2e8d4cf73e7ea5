-- ===== src/Format/Footer/RoundTrip.antt =====
-- `Footer::decode` against `Footer::encode`: it reads an encoded footer back, and two buffers that
-- decode to one footer differ at most in the eight reserved bytes and the checksum over them.
use pithos.Prelude.{ℕ, ◌≡◌, refl, sym, subst, ap, ◌∙◌, ◌↔◌, List, arith, length, All}
use mathlib.Core.Path.{ap₂}
use pithos.Core.{ok}
use pithos.Core.Bytes.{IsByte, to_le_bytes}
use pithos.Format.Crc.{Crc32c}
use pithos.Format.Same.{same_bytes→eq, eq→same_bytes}
use pithos.Format.Buffer.{zeroed, slice}
use pithos.Format.Buffer.Slices.{length-slice, slice-IsByte}
use pithos.Format.Buffer.Reads.{read_u32_bytes, read_u64_bytes}
use pithos.Format.Buffer.Fill.{Matches, fill-Matches, join_slices, eq_of_slice}
use pithos.Format.Footer.{
  Footer, IsFooter, footer_fields, footer_crc, encode_footer, decode_footer, footer_magic,
  footer_len,
}
use pithos.Format.Footer.Fields.{
  FooterAt, fields-IsSized, beside_crc, crc_bytes, spare, length-encode_footer,
  encode_footer-FooterAt,
}

FooterAt-decode_footer :
    (crc : Crc32c) (b : List ℕ) (f : Footer) → FooterAt crc b f → decode_footer crc b ≡ ok f
unfolding decode_footer
FooterAt-decode_footer crc b f at =
    ground (arith, eq→same_bytes (slice 0 4 b) footer_magic at.at_magic)

decode_footer-FooterAt :
    (crc : Crc32c) (b : List ℕ) (f : Footer) → decode_footer crc b ≡ ok f → FooterAt crc b f
unfolding decode_footer
decode_footer-FooterAt crc b f e = ground (arith, same_bytes→eq (slice 0 4 b) footer_magic)

-- A footer, encoded and decoded, comes back.
pub decode_footer-encode_footer :
    (crc : Crc32c) (f : Footer) → IsFooter f → decode_footer crc (encode_footer crc f) ≡ ok f
decode_footer-encode_footer crc f valid =
    FooterAt-decode_footer crc (encode_footer crc f) f (encode_footer-FooterAt crc f valid)

module _ (crc : Crc32c) (b : List ℕ) (f : Footer) (at : FooterAt crc b f) (bytes : All IsByte b)
    (size : length b ≡ 64) where
  FooterAt-IsFooter : IsFooter f
  FooterAt-IsFooter = record {
    length_u64 = (read_u64_bytes b bytes 64 size 4 (omega arith) at.at_length).1;
    root_length = ap length (sym at.at_root) ∙ length-slice 12 44 b (omega arith) (omega arith);
    root_bytes = subst (All IsByte) at.at_root (slice-IsByte 12 44 b bytes);
    directory_u32 = (read_u32_bytes b bytes 64 size 44 (omega arith) at.at_directory).1;
    version_u32 = (read_u32_bytes b bytes 64 size 48 (omega arith) at.at_version).1;
  }

  fields_match : Matches b (footer_fields f)
  fields_match = (
    sym at.at_magic,
    (
      (read_u64_bytes b bytes 64 size 4 (omega arith) at.at_length).0,
      (
        sym at.at_root,
        (
          (read_u32_bytes b bytes 64 size 44 (omega arith) at.at_directory).0,
          ((read_u32_bytes b bytes 64 size 48 (omega arith) at.at_version).0, tt),
        ),
      ),
    ),
  )

  abbrev encoded : List ℕ
  encoded = encode_footer crc f

  fields_agree : slice 0 52 encoded ≡ slice 0 52 b
  fields_agree =
      beside_crc crc f FooterAt-IsFooter 0 52 (omega arith) (omega arith)
      ∙ fill-Matches 64 b 0 52 (zeroed footer_len) (footer_fields f) refl
          (fields-IsSized crc f FooterAt-IsFooter) fields_match refl

  module _ (low : slice 52 56 b ≡ zeroed 4) (high : slice 60 64 b ≡ zeroed 4) where
    front : slice 0 56 encoded ≡ slice 0 56 b
    front =
        join_slices 0 52 56 encoded b (omega arith) (omega arith) fields_agree
          (spare crc f FooterAt-IsFooter 52 56 (omega arith) (omega arith) refl ∙ sym low)

    back : slice 60 64 encoded ≡ slice 60 64 b
    back = spare crc f FooterAt-IsFooter 60 64 (omega arith) (omega arith) refl ∙ sym high

    crc_agrees : slice 56 60 encoded ≡ slice 56 60 b
    unfolding footer_crc
    crc_agrees =
        crc_bytes crc f FooterAt-IsFooter
        ∙ ap₂ (λ x y. to_le_bytes 4 (crc.append (crc.append 0 x) y)) front back
        ∙ (read_u32_bytes b bytes 64 size 56 (omega arith) at.at_crc).0

    reserved_zero : encoded ≡ b
    reserved_zero = eq_of_slice 64 encoded b (length-encode_footer crc f FooterAt-IsFooter) size (
        join_slices 0 56 64 encoded b (omega arith) (omega arith) front
          (join_slices 56 60 64 encoded b (omega arith) (omega arith) crc_agrees back))

  zero_reserved : encoded ≡ b → (slice 52 56 b ≡ zeroed 4) × (slice 60 64 b ≡ zeroed 4)
  zero_reserved e = (
    ap (slice 52 56) (sym e) ∙ spare crc f FooterAt-IsFooter 52 56 (omega arith) (omega arith) refl,
    ap (slice 60 64) (sym e) ∙ spare crc f FooterAt-IsFooter 60 64 (omega arith) (omega arith) refl,
  )

-- A decoded footer is in range, and the 64 bytes are the encoding of it exactly when the bytes
-- 52..56 and 60..64, which the decoder does not check, are zero.
pub encode_footer-decode_footer :
    (crc : Crc32c) (b : List ℕ) (f : Footer)
    → length b ≡ 64
    → All IsByte b
    → decode_footer crc b ≡ ok f
    → IsFooter f
      × ((encode_footer crc f ≡ b) ↔ (slice 52 56 b ≡ zeroed 4) × (slice 60 64 b ≡ zeroed 4))
encode_footer-decode_footer crc b f size bytes e =
    let at = decode_footer-FooterAt crc b f e in
    (
      FooterAt-IsFooter crc b f at bytes size,
      (zero_reserved crc b f at bytes size, λ z. reserved_zero crc b f at bytes size z.0 z.1),
    )
