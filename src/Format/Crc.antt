-- ===== src/Format/Crc.antt =====
-- The crate `crc32c`, which the format calls and the repository does not contain: a parameter.
use pithos.Prelude.{ℕ, ◌<◌, List}
use pithos.Core.Checked.{u32_end}

-- `crc32c_append(state, bytes)`, whose result is a `u32`.
pub record Crc32c : Type 0 where
  pub append : ℕ → List ℕ → ℕ
  pub append_u32 : (state : ℕ) (bytes : List ℕ) → append state bytes < u32_end

-- `crc32c(bytes)`
abbrev pub crc32c : Crc32c → List ℕ → ℕ
crc32c crc bytes = crc.append 0 bytes
