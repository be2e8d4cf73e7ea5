-- ===== src/Format/Footer.antt =====
-- crates/pithos-format/src/lib.rs: `Footer`, the last 64 bytes of an archive.
pub mod Fields
pub mod RoundTrip
use pithos.Prelude.{ℕ, ◌≡◌, ◌<◌, not, List, [], ◌∷◌, ◌!=◌, All, length}
use pithos.Core.{Result, ok, ◌>>=◌, ◌>>◌, bail_if, invalid_magic, checksum_mismatch}
use pithos.Core.Checked.{u32_end, u64_end}
use pithos.Core.Bytes.{IsByte, to_le_bytes}
use pithos.Format.Buffer.{
  zeroed, slice, copy_from_slice, Patch, ◌until◌put◌, fill, read_u32, read_u64,
}
use pithos.Format.Crc.{Crc32c, crc32c}
use pithos.Format.Same.{same_bytes}

-- b"UFTR"
abbrev pub footer_magic : List ℕ
footer_magic = b'U' ∷ b'F' ∷ b'T' ∷ b'R' ∷ []

abbrev pub footer_len : ℕ
footer_len = 64

pub record Footer : Type 0 where
  pub archive_length : ℕ
  pub blake3_root : List ℕ
  pub directory_crc32c : ℕ
  pub version : ℕ

-- The ranges that the field types of the source give.
pub record IsFooter (f : Footer) : Type 0 where
  pub length_u64 : f.archive_length < u64_end
  pub root_length : length f.blake3_root ≡ 32
  pub root_bytes : All IsByte f.blake3_root
  pub directory_u32 : f.directory_crc32c < u32_end
  pub version_u32 : f.version < u32_end

-- The assignments of `encode` before the checksum. Bytes 52..56 and 60..64 stay zero.
abbrev pub footer_fields : Footer → List Patch
footer_fields f =
    (0 until 4 put footer_magic)
    ∷ (4 until 12 put to_le_bytes 8 f.archive_length)
    ∷ (12 until 44 put f.blake3_root)
    ∷ (44 until 48 put to_le_bytes 4 f.directory_crc32c)
    ∷ (48 until 52 put to_le_bytes 4 f.version)
    ∷ []

module _ (crc : Crc32c) where
  unfoldable pub footer_crc : List ℕ → ℕ
  footer_crc buffer =
      let first = crc32c crc (slice 0 56 buffer) in crc.append first (slice 60 64 buffer)

  unfoldable pub encode_footer : Footer → List ℕ
  encode_footer f =
      let buffer = fill (zeroed footer_len) (footer_fields f) in
      copy_from_slice 56 60 (to_le_bytes 4 (footer_crc buffer)) buffer

  unfoldable pub decode_footer : List ℕ → Result Footer
  decode_footer buffer = do
    bail_if (not (same_bytes (slice 0 4 buffer) footer_magic)) invalid_magic
    bail_if (read_u32 buffer 56 != footer_crc buffer) checksum_mismatch
    ok (record {
      archive_length = read_u64 buffer 4;
      blake3_root = slice 12 44 buffer;
      directory_crc32c = read_u32 buffer 44;
      version = read_u32 buffer 48;
    })
