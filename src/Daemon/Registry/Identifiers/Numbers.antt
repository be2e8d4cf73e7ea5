-- ===== src/Daemon/Registry/Identifiers/Numbers.antt =====
-- The identifier of a job number, and how it is read back.
use pithos.Prelude.{
  ℕ, zero, suc, ◌+◌, ◌*◌, ◌/◌, ◌%◌, ◌^◌, ◌<◌, ◌≡◌, refl, ◌∙◌, Bool, true, List, [], ◌∷◌, ◌++◌,
  arith, length, length-append, ltb, lt→ltb, &&-left, &&-right,
}
use native.Mathlib.Nat.{pow-suc}
use pithos.Core.Checked.{u64_end}
use pithos.AgentApi.{ok}
use pithos.AgentApi.Ids.{all_bytes, identifier_byte, new_id, starts_with, job_prefix}
use pithos.Daemon.Registry.Identifiers.{
  digit_value, from_digits, from_str_radix, hex_digit, hex_digits, format_job_id, hex_suffix,
  strip_prefix, parse_job_number, is_ascii_hexdigit,
}

from_digits-append :
    (n : ℕ) (ds : List ℕ) (d : ℕ)
    → from_digits n (ds ++ (d ∷ [])) ≡ from_digits n ds * 16 + digit_value d
unfolding from_digits
from_digits-append n [] d = refl
from_digits-append n (c ∷ ds) d = from_digits-append (n * 16 + digit_value c) ds d

digit_value-hex_digit : (d : ℕ) → d < 16 → digit_value (hex_digit d) ≡ d
digit_value-hex_digit d h = ground arith

length-hex_digits : (width n : ℕ) → length (hex_digits width n) ≡ width
unfolding hex_digits
length-hex_digits zero n = refl
length-hex_digits (suc width) n =
    let rest = length-hex_digits width (n / 16) in
    let size = length-append (hex_digits width (n / 16)) (hex_digit (n % 16) ∷ []) in omega arith

from_digits-hex_digits : (width n : ℕ) → n < 16 ^ width → from_digits 0 (hex_digits width n) ≡ n
unfolding hex_digits from_digits
from_digits-hex_digits zero n h = omega arith
from_digits-hex_digits (suc width) n h =
    let power : 16 ^ suc width ≡ 16 ^ width * 16 = pow-suc 16 width in
    let rest = from_digits-hex_digits width (n / 16) (omega arith) in
    let digit = digit_value-hex_digit (n % 16) (omega arith) in
    from_digits-append 0 (hex_digits width (n / 16)) (hex_digit (n % 16)) ∙ omega arith

all_bytes-append :
    (test : ℕ → Bool) (bs : List ℕ) (b : ℕ)
    → all_bytes test bs ≡ true
    → test b ≡ true
    → all_bytes test (bs ++ (b ∷ [])) ≡ true
unfolding all_bytes
all_bytes-append test [] b h k = rw k refl
all_bytes-append test (c ∷ bs) b h k =
    rw (&&-left (test c) (all_bytes test bs) h)
      (all_bytes-append test bs b (&&-right (test c) (all_bytes test bs) h) k)

hex_digit-is_ascii_hexdigit : (d : ℕ) → d < 16 → is_ascii_hexdigit (hex_digit d) ≡ true
hex_digit-is_ascii_hexdigit d h = ground arith

hex_digit-identifier_byte : (d : ℕ) → d < 16 → identifier_byte (hex_digit d) ≡ true
hex_digit-identifier_byte d h = ground arith

hex_digits_pass :
    (test : ℕ → Bool) (width n : ℕ)
    → ((d : ℕ) → d < 16 → test (hex_digit d) ≡ true)
    → all_bytes test (hex_digits width n) ≡ true
unfolding hex_digits all_bytes
hex_digits_pass test zero n h = refl
hex_digits_pass test (suc width) n h =
    all_bytes-append test (hex_digits width (n / 16)) (hex_digit (n % 16))
      (hex_digits_pass test width (n / 16) h) (h (n % 16) (omega arith))

-- For every u64, the identifier of that job number is well-formed and is read back as the number.
pub parse_job_number-format_job_id :
    (n : ℕ)
    → n < u64_end
    → (new_id job_prefix (format_job_id n) ≡ ok (format_job_id n))
      × (parse_job_number (format_job_id n) ≡ ok n)
unfolding new_id format_job_id starts_with all_bytes parse_job_number strip_prefix hex_suffix
    from_str_radix
parse_job_number-format_job_id n h =
    let size = length-hex_digits 16 n in
    let digits = hex_digits_pass is_ascii_hexdigit 16 n hex_digit-is_ascii_hexdigit in
    let bytes = hex_digits_pass identifier_byte 16 n hex_digit-identifier_byte in
    let value = from_digits-hex_digits 16 n h in
    let fits : ltb n u64_end ≡ true = lt→ltb n u64_end h in
    (rw (size, bytes) refl, rw (size, digits, value, fits) refl)
