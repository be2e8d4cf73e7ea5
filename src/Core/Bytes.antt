-- ===== src/Core/Bytes.antt =====
-- Little-endian bytes: `to_le_bytes`, `from_le_bytes` for the widths that the format uses, and the
-- two's complement reading of an `i32`.
use pithos.Prelude.{
  ℕ, zero, suc, ◌+◌, ◌-◌, ◌*◌, ◌/◌, ◌%◌, ◌^◌, ◌<◌, ◌≡◌, refl, ap, ◌∙◌, List, [], ◌∷◌, arith, length,
  All, ltb, if◌then◌else◌,
}
use pithos.Prelude.Int.{ℤ, pos, negsuc}
use mathlib.Core.Path.{ap₂}
use native.Mathlib.Nat.{pow-suc}

abbrev pub IsByte : ℕ → Type 0
IsByte b = b < 256

-- `v.to_le_bytes()` of an integer of `n` bytes.
unfoldable pub to_le_bytes : ℕ → ℕ → List ℕ
to_le_bytes zero v = []
to_le_bytes (suc n) v = v % 256 ∷ to_le_bytes n (v / 256)

unfoldable pub from_le_bytes : List ℕ → ℕ
from_le_bytes [] = 0
from_le_bytes (b ∷ bs) = b + 256 * from_le_bytes bs

-- The bit pattern of an `i32`.
unfoldable pub i32_bits : ℤ → ℕ
i32_bits (pos n) = n
i32_bits (negsuc n) = 2 ^ 32 - 1 - n

unfoldable pub i32_of_bits : ℕ → ℤ
i32_of_bits v = if ltb v (2 ^ 31) then pos v else negsuc (2 ^ 32 - 1 - v)

abbrev pub IsI32 : ℤ → Type 0
IsI32 (pos n) = n < 2 ^ 31
IsI32 (negsuc n) = n < 2 ^ 31

pub length-to_le_bytes : (n v : ℕ) → length (to_le_bytes n v) ≡ n
unfolding to_le_bytes
length-to_le_bytes zero v = refl
length-to_le_bytes (suc n) v = ap suc (length-to_le_bytes n (v / 256))

pub to_le_bytes-IsByte : (n v : ℕ) → All IsByte (to_le_bytes n v)
unfolding to_le_bytes
to_le_bytes-IsByte zero v = tt
to_le_bytes-IsByte (suc n) v = (omega arith, to_le_bytes-IsByte n (v / 256))

pub from_le_bytes-to_le_bytes : (n v : ℕ) → v < 256 ^ n → from_le_bytes (to_le_bytes n v) ≡ v
unfolding to_le_bytes from_le_bytes
from_le_bytes-to_le_bytes zero v h = omega arith
from_le_bytes-to_le_bytes (suc n) v h =
    omega
      (arith, pow-suc 256 n, from_le_bytes-to_le_bytes n (v / 256) (omega (arith, pow-suc 256 n)))

pub to_le_bytes-from_le_bytes :
    (n : ℕ) (bs : List ℕ) → length bs ≡ n → All IsByte bs → to_le_bytes n (from_le_bytes bs) ≡ bs
unfolding to_le_bytes from_le_bytes
to_le_bytes-from_le_bytes zero [] e h = refl
to_le_bytes-from_le_bytes zero (b ∷ bs) e h = absurd (omega arith)
to_le_bytes-from_le_bytes (suc n) [] e h = absurd (omega arith)
to_le_bytes-from_le_bytes (suc n) (b ∷ bs) e h =
    ap₂ ◌∷◌ (omega arith)
      (ap (to_le_bytes n) (omega arith) ∙ to_le_bytes-from_le_bytes n bs (omega arith) h.1)

pub from_le_bytes-lt :
    (n : ℕ) (bs : List ℕ) → length bs ≡ n → All IsByte bs → from_le_bytes bs < 256 ^ n
unfolding from_le_bytes
from_le_bytes-lt zero [] e h = omega arith
from_le_bytes-lt zero (b ∷ bs) e h = absurd (omega arith)
from_le_bytes-lt (suc n) [] e h = absurd (omega arith)
from_le_bytes-lt (suc n) (b ∷ bs) e h =
    omega (arith, pow-suc 256 n, from_le_bytes-lt n bs (omega arith) h.1)

pub i32_of_bits-i32_bits : (z : ℤ) → IsI32 z → i32_of_bits (i32_bits z) ≡ z
unfolding i32_of_bits i32_bits
i32_of_bits-i32_bits (pos n) h = ground arith
i32_of_bits-i32_bits (negsuc n) h = ground arith

pub i32_bits-i32_of_bits : (v : ℕ) → v < 2 ^ 32 → i32_bits (i32_of_bits v) ≡ v
unfolding i32_of_bits i32_bits
i32_bits-i32_of_bits v h = ground arith

pub i32_bits-lt : (z : ℤ) → IsI32 z → i32_bits z < 2 ^ 32
unfolding i32_bits
i32_bits-lt (pos n) h = omega arith
i32_bits-lt (negsuc n) h = omega arith
