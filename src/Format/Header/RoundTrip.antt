-- ===== src/Format/Header/RoundTrip.antt =====
-- `GlobalHeader::encode` and `GlobalHeader::decode` invert each other.
use pithos.Prelude.{
  ℕ, ◌+◌, ◌<◌, ◌⊎◌, subst, ◌≤◌, ◌≡◌, refl, sym, ap, ◌∙◌, true, List, arith, length, All,
}
use mathlib.Core.Path.{ap₂}
use pithos.Core.{ok}
use pithos.Core.Bytes.{IsByte, to_le_bytes}
use pithos.Format.Crc.{Crc32c}
use pithos.Format.Same.{same_bytes→eq, eq→same_bytes}
use pithos.Format.Buffer.{zeroed, slice, read_u16, read_u32, read_u64}
use pithos.Format.Buffer.Slices.{length-slice, slice-IsByte}
use pithos.Format.Buffer.Reads.{read_u16_bytes, read_u32_bytes, read_u64_bytes}
use pithos.Format.Buffer.Fill.{Matches, tiles, fill-Matches, join_slices, eq_of_slice}
use pithos.Core.Checked.{u16_end, u32_end, u64_end}
use pithos.Format.Header.{
  header_len, header_fields, GlobalHeader, IsHeader, header_crc, encode_header, decode_header,
  global_magic,
}
use pithos.Format.Header.Fields.{
  HeaderAt, IsReadable, fields-IsSized, beside_crc, crc_bytes, length-encode_header,
  encode_header-HeaderAt,
}

HeaderAt-decode_header :
    (crc : Crc32c) (b : List ℕ) (h : GlobalHeader)
    → HeaderAt crc b h
    → IsReadable h
    → decode_header crc b ≡ ok h
unfolding decode_header
HeaderAt-decode_header crc b h at v =
    ground (arith, eq→same_bytes (slice 0 8 b) global_magic at.at_magic)

pub decode_header-HeaderAt :
    (crc : Crc32c) (b : List ℕ) (h : GlobalHeader)
    → decode_header crc b ≡ ok h
    → HeaderAt crc b h × IsReadable h
unfolding decode_header
decode_header-HeaderAt crc b h e = ground (arith, same_bytes→eq (slice 0 8 b) global_magic)

-- A header of a readable version, encoded and decoded, comes back.
pub decode_header-encode_header :
    (crc : Crc32c) (h : GlobalHeader)
    → IsHeader h
    → IsReadable h
    → decode_header crc (encode_header crc h) ≡ ok h
decode_header-encode_header crc h valid readable =
    HeaderAt-decode_header crc (encode_header crc h) h (encode_header-HeaderAt crc h valid) readable

module _ (crc : Crc32c) (b : List ℕ) (h : GlobalHeader) (at : HeaderAt crc b h)
    (bytes : All IsByte b) (size : length b ≡ 96) where
  u16_at :
      (offset : ℕ) {v : ℕ}
      → offset + 2 ≤ 96
      → read_u16 b offset ≡ v
      → (to_le_bytes 2 v ≡ slice offset (offset + 2) b) × (v < u16_end)
  u16_at offset = read_u16_bytes b bytes 96 size offset

  u32_at :
      (offset : ℕ) {v : ℕ}
      → offset + 4 ≤ 96
      → read_u32 b offset ≡ v
      → (to_le_bytes 4 v ≡ slice offset (offset + 4) b) × (v < u32_end)
  u32_at offset = read_u32_bytes b bytes 96 size offset

  u64_at :
      (offset : ℕ) {v : ℕ}
      → offset + 8 ≤ 96
      → read_u64 b offset ≡ v
      → (to_le_bytes 8 v ≡ slice offset (offset + 8) b) × (v < u64_end)
  u64_at offset = read_u64_bytes b bytes 96 size offset

  pub HeaderAt-IsHeader : IsHeader h
  HeaderAt-IsHeader = record {
    major_u16 = (u16_at 8 (omega arith) at.at_major).1;
    minor_u16 = (u16_at 10 (omega arith) at.at_minor).1;
    flags_u64 = (u64_at 16 (omega arith) at.at_flags).1;
    id_length = ap length (sym at.at_id) ∙ length-slice 24 40 b (omega arith) (omega arith);
    id_bytes = subst (All IsByte) at.at_id (slice-IsByte 24 40 b bytes);
    total_u64 = (u64_at 40 (omega arith) at.at_total).1;
    entries_u64 = (u64_at 48 (omega arith) at.at_entries).1;
    chunks_u64 = (u64_at 56 (omega arith) at.at_chunks).1;
    groups_u64 = (u64_at 64 (omega arith) at.at_groups).1;
    directory_u64 = (u64_at 72 (omega arith) at.at_directory).1;
    footer_u64 = (u64_at 80 (omega arith) at.at_footer).1;
    sections_u32 = (u32_at 92 (omega arith) at.at_sections).1;
  }

  abbrev encoded : List ℕ
  encoded = encode_header crc h

  fields_match : Matches b (header_fields h)
  fields_match = (
    sym at.at_magic,
    (
      (u16_at 8 (omega arith) at.at_major).0,
      (
        (u16_at 10 (omega arith) at.at_minor).0,
        (
          (u32_at 12 (omega arith) at.at_len).0,
          (
            (u64_at 16 (omega arith) at.at_flags).0,
            (
              sym at.at_id,
              (
                (u64_at 40 (omega arith) at.at_total).0,
                (
                  (u64_at 48 (omega arith) at.at_entries).0,
                  (
                    (u64_at 56 (omega arith) at.at_chunks).0,
                    (
                      (u64_at 64 (omega arith) at.at_groups).0,
                      (
                        (u64_at 72 (omega arith) at.at_directory).0,
                        (
                          (u64_at 80 (omega arith) at.at_footer).0,
                          ((u32_at 92 (omega arith) at.at_sections).0, tt),
                        ),
                      ),
                    ),
                  ),
                ),
              ),
            ),
          ),
        ),
      ),
    ),
  )

  fields_agree :
      (a e : ℕ)
      → a ≤ e
      → (e ≤ 88) ⊎ (92 ≤ a)
      → tiles a e (header_fields h) ≡ true
      → slice a e encoded ≡ slice a e b
  fields_agree a e o side t =
      beside_crc crc h HeaderAt-IsHeader a e o side
      ∙ fill-Matches 96 b a e (zeroed header_len) (header_fields h) refl
          (fields-IsSized crc h HeaderAt-IsHeader) fields_match t

  crc_agrees : slice 88 92 encoded ≡ slice 88 92 b
  unfolding header_crc
  crc_agrees =
      crc_bytes crc h HeaderAt-IsHeader
      ∙ ap₂ (λ front back. to_le_bytes 4 (crc.append (crc.append 0 front) back))
          (fields_agree 0 88 (omega arith) (omega arith) refl)
          (fields_agree 92 96 (omega arith) (omega arith) refl)
      ∙ (u32_at 88 (omega arith) at.at_crc).0

  HeaderAt-encode_header : encoded ≡ b
  HeaderAt-encode_header =
      eq_of_slice 96 encoded b (length-encode_header crc h HeaderAt-IsHeader) size (
        join_slices 0 88 96 encoded b (omega arith) (omega arith)
          (fields_agree 0 88 (omega arith) (omega arith) refl)
          (join_slices 88 92 96 encoded b (omega arith) (omega arith) crc_agrees
            (fields_agree 92 96 (omega arith) (omega arith) refl)))

-- A decoded header is in range, and the 96 bytes are the encoding of it: no two of them decode to
-- the same header.
pub encode_header-decode_header :
    (crc : Crc32c) (b : List ℕ) (h : GlobalHeader)
    → length b ≡ 96
    → All IsByte b
    → decode_header crc b ≡ ok h
    → IsHeader h × (encode_header crc h ≡ b)
encode_header-decode_header crc b h size bytes e =
    let at = (decode_header-HeaderAt crc b h e).0 in
    (HeaderAt-IsHeader crc b h at bytes size, HeaderAt-encode_header crc b h at bytes size)
