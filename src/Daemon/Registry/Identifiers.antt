-- ===== src/Daemon/Registry/Identifiers.antt =====
-- crates/pithos-daemon/src/store.rs: job numbers and their identifiers, session identifiers, and the keys
-- of the idempotency index.
pub mod Numbers
use pithos.Prelude.{
  ℕ, zero, suc, ◌+◌, ◌-◌, ◌*◌, ◌/◌, ◌%◌, Bool, not, ◌||◌, ◌&&◌, Option, none, some, List, [], ◌∷◌,
  ◌++◌, length, ltb, leb, ◌==◌, if◌then◌else◌, drop,
}
use pithos.Core.Checked.{u64_end}
use pithos.AgentApi.{RpcResult, ◌>>=◌, bail_if, ok_or, invalid_params}
use pithos.AgentApi.Ids.{starts_with, between, identifier_byte, all_bytes, job_prefix}
use pithos.Daemon.Registry.{internal, max_idempotency_key_bytes}

unfoldable pub valid_identifier : List ℕ → List ℕ → Bool
valid_identifier value prefix =
    leb (length prefix + 8) (length value)
    && leb (length value) 96
    && starts_with value prefix
    && all_bytes identifier_byte value

-- `value.strip_prefix(prefix)`
unfoldable pub strip_prefix : List ℕ → List ℕ → Option (List ℕ)
strip_prefix value prefix =
    if starts_with value prefix then some (drop (length prefix) value) else none

-- `byte.is_ascii_hexdigit()`, and the value of such a digit.
abbrev pub is_ascii_hexdigit : ℕ → Bool
is_ascii_hexdigit byte = between 48 57 byte || between 65 70 byte || between 97 102 byte

abbrev pub digit_value : ℕ → ℕ
digit_value byte = if leb byte 57 then byte - 48 else if leb byte 70 then byte - 55 else byte - 87

-- `u64::from_str_radix(digits, 16)`, for hexadecimal digits.
unfoldable pub from_digits : ℕ → List ℕ → ℕ
from_digits n [] = n
from_digits n (d ∷ ds) = from_digits (n * 16 + digit_value d) ds

unfoldable pub from_str_radix : List ℕ → Option ℕ
from_str_radix digits = let n = from_digits 0 digits in if ltb n u64_end then some n else none

-- `format!("{n:016x}")`, of which the digits are written from the last to the first.
abbrev pub hex_digit : ℕ → ℕ
hex_digit d = if ltb d 10 then d + 48 else d + 87

unfoldable pub hex_digits : ℕ → ℕ → List ℕ
hex_digits zero n = []
hex_digits (suc width) n = hex_digits width (n / 16) ++ (hex_digit (n % 16) ∷ [])

unfoldable pub format_job_id : ℕ → List ℕ
format_job_id n = job_prefix ++ hex_digits 16 n

-- `.filter(|suffix| suffix.len() == 16 && ...)`
unfoldable pub hex_suffix : Option (List ℕ) → Option (List ℕ)
hex_suffix none = none
hex_suffix (some suffix) =
    if length suffix == 16 && all_bytes is_ascii_hexdigit suffix then some suffix else none

unfoldable pub parse_job_number : List ℕ → RpcResult ℕ
parse_job_number job_id =
    ok_or (hex_suffix (strip_prefix job_id job_prefix)) (internal "job store job id is corrupt")
    >>= λ suffix. ok_or (from_str_radix suffix) (internal "job store job id is corrupt")

-- `format!("{}:{key}", owner.as_str())`
unfoldable pub idempotency_map_key : List ℕ → List ℕ → List ℕ
idempotency_map_key owner key = owner ++ (58 ∷ key)

-- `byte.is_ascii_graphic()`
abbrev pub is_ascii_graphic : ℕ → Bool
is_ascii_graphic byte = between 33 126 byte

unfoldable pub validate_idempotency_key : List ℕ → RpcResult (Unit {0})
validate_idempotency_key key =
    bail_if
      (length key == 0
        || ltb max_idempotency_key_bytes (length key)
        || not (all_bytes is_ascii_graphic key))
      (invalid_params "invalid idempotency key")
