-- ===== src/Prelude/Sums.antt =====
-- Equations of sums of the native numbers, for `subst`.
use Prim.Native.Nat.{ℕ, suc, ◌+◌}
use mathlib.Core.Path.{◌≡◌}
use native.Mathlib.Omega.{arith}

pub plus_zero : (n : ℕ) → n ≡ n + 0
plus_zero n = omega arith

pub plus_suc : (n i : ℕ) → n + 1 + i ≡ n + suc i
plus_suc n i = omega arith

pub zero_plus : (n : ℕ) → 0 + n ≡ n
zero_plus n = omega arith
