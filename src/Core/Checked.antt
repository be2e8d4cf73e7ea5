-- ===== src/Core/Checked.antt =====
-- `checked_add`, `checked_mul`, `checked_sub` and the saturating operations of the unsigned
-- machine integers, of width `2 ^ 64` for `u64` and for `usize` on the supported targets.
use pithos.Prelude.{
  ℕ, ◌+◌, ◌-◌, ◌*◌, ◌<◌, min, ◌≡◌, Option, none, some, arith, ltb, leb, if◌then◌else◌,
}

abbrev pub u16_end : ℕ
u16_end = 65_536

abbrev pub u32_end : ℕ
u32_end = 4_294_967_296

abbrev pub u64_end : ℕ
u64_end = 18_446_744_073_709_551_616

abbrev pub checked_add : ℕ → ℕ → Option ℕ
checked_add a b = if ltb (a + b) u64_end then some (a + b) else none

abbrev pub checked_mul : ℕ → ℕ → Option ℕ
checked_mul a b = if ltb (a * b) u64_end then some (a * b) else none

abbrev pub checked_sub : ℕ → ℕ → Option ℕ
checked_sub a b = if leb b a then some (a - b) else none

abbrev pub saturating_add : ℕ → ℕ → ℕ
saturating_add a b = min (a + b) (u64_end - 1)

abbrev pub saturating_mul : ℕ → ℕ → ℕ
saturating_mul a b = min (a * b) (u64_end - 1)

-- `u32::try_from`
abbrev pub u32_try_from : ℕ → Option ℕ
u32_try_from n = if ltb n u32_end then some n else none

pub checked_add-some : (a b : ℕ) {c : ℕ} → checked_add a b ≡ some c → (c ≡ a + b) × (c < u64_end)
checked_add-some a b h = ground arith

pub checked_add_fits : (a b : ℕ) → a + b < u64_end → checked_add a b ≡ some (a + b)
checked_add_fits a b h = ground arith
