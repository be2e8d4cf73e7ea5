-- ===== src/Daemon/Registry/Validation/Facts.antt =====
-- What the checks of one job say, as statements about its data: identifiers, keys and numbers.
use pithos.Prelude.{
  ℕ, ◌+◌, ◌≤◌, ◌<◌, ◌≡◌, ◌↔◌, ◌⊎◌, refl, ap, subst, sym, ◌∙◌, Bool, true, false, ◌&&◌, Option, none,
  some, List, [], ◌∷◌, ◌++◌, All, length, length-append, drop, drop-append, ◌==◌, &&-left, &&-right,
  ==→eq, if◌then◌else◌, arith,
}
use mathlib.Core.Path.{ap₂}
use pithos.Core.Checked.{u64_end}
use pithos.AgentApi.{ok, bind-inv, bail_if-ok, ok_or, ok_or-some}
use pithos.AgentApi.Ids.{starts_with, identifier_byte, all_bytes, job_prefix}
use pithos.Daemon.Registry.{internal}
use pithos.Daemon.Registry.Identifiers.{
  valid_identifier, strip_prefix, is_ascii_hexdigit, is_ascii_graphic, from_digits, from_str_radix,
  hex_suffix, parse_job_number, validate_idempotency_key,
}

-- A digit, a letter or a dash.
abbrev pub IsIdentifierByte : ℕ → Type 0
IsIdentifierByte b =
    ((48 ≤ b) × (b ≤ 57)) ⊎ ((65 ≤ b) × (b ≤ 90)) ⊎ ((97 ≤ b) × (b ≤ 122)) ⊎ (b ≡ 45)

-- The prefix and at least eight bytes behind it, 96 bytes at most.
abbrev pub IsIdentifier : List ℕ → List ℕ → Type 0
IsIdentifier prefix value =
    (rest : List ℕ) × (value ≡ prefix ++ rest)
    × (8 ≤ length rest)
    × (length value ≤ 96)
    × All IsIdentifierByte value

-- One to 256 visible ASCII characters.
abbrev pub IsKey : List ℕ → Type 0
IsKey key = (0 < length key) × (length key ≤ 256) × All (λ b. (33 ≤ b) × (b ≤ 126)) key

abbrev pub IsHexDigit : ℕ → Type 0
IsHexDigit b = ((48 ≤ b) × (b ≤ 57)) ⊎ ((65 ≤ b) × (b ≤ 70)) ⊎ ((97 ≤ b) × (b ≤ 102))

-- The prefix of a job and sixteen hexadecimal digits of the number.
abbrev pub HasNumber : List ℕ → ℕ → Type 0
HasNumber job_id number =
    (digits : List ℕ) × (job_id ≡ job_prefix ++ digits)
    × (length digits ≡ 16)
    × All IsHexDigit digits
    × (from_digits 0 digits ≡ number)
    × (number < u64_end)

all_bytes-All :
    (test : ℕ → Bool) (P : ℕ → Type 0)
    → ((b : ℕ) → (test b ≡ true) ↔ P b)
    → (bs : List ℕ) → (all_bytes test bs ≡ true) ↔ All P bs
unfolding all_bytes
all_bytes-All test P one [] = (λ h. tt, λ h. refl)
all_bytes-All test P one (b ∷ bs) =
    let (sound, complete) = all_bytes-All test P one bs in
    (
      λ h. ((one b).0 (&&-left (test b) _ h), sound (&&-right (test b) _ h)),
      λ h. rw ((one b).1 h.0, complete h.1) refl,
    )

starts_with-append :
    (value prefix : List ℕ)
    → (starts_with value prefix ≡ true) ↔ ((rest : List ℕ) × (value ≡ prefix ++ rest))
unfolding starts_with
starts_with-append value [] = (λ h. (value, refl), λ h. refl)
starts_with-append [] (p ∷ ps) = (λ h. cc, λ h. cc h.1)
starts_with-append (v ∷ vs) (p ∷ ps) =
    let (sound, complete) = starts_with-append vs ps in
    (
      λ h.
          let (rest, e) = sound (&&-right (v == p) _ h) in
          (rest, ap₂ ◌∷◌ (==→eq v p (&&-left (v == p) _ h)) e),
      λ (rest, e). ground (arith, complete (rest, cc e)),
    )

identifier_bytes : (b : ℕ) → (identifier_byte b ≡ true) ↔ IsIdentifierByte b
identifier_bytes b = (λ h. ground arith, λ h. ground arith)

pub valid_identifier-IsIdentifier :
    (value prefix : List ℕ) → (valid_identifier value prefix ≡ true) ↔ IsIdentifier prefix value
unfolding valid_identifier
valid_identifier-IsIdentifier value prefix =
    let (sound, complete) = starts_with-append value prefix in
    let (all_sound, all_complete) =
      all_bytes-All identifier_byte IsIdentifierByte identifier_bytes value in
    (
      λ h.
          let (rest, e) = sound (ground arith) in
          let size : length value ≡ length prefix + length rest =
            ap length e ∙ length-append prefix rest in
          let long : length prefix + 8 ≤ length value = ground arith in
          (rest, e, omega arith, ground arith, all_sound (ground arith)),
      λ (rest, e, long, short, bytes).
          let size : length value ≡ length prefix + length rest =
            ap length e ∙ length-append prefix rest in
          let starts = complete (rest, e) in let all = all_complete bytes in ground arith,
    )

graphic_bytes : (b : ℕ) → (is_ascii_graphic b ≡ true) ↔ ((33 ≤ b) × (b ≤ 126))
graphic_bytes b = (λ h. ground arith, λ h. ground arith)

pub validate_idempotency_key-IsKey :
    (key : List ℕ) → (validate_idempotency_key key ≡ ok tt) ↔ IsKey key
unfolding validate_idempotency_key
validate_idempotency_key-IsKey key =
    let (sound, complete) =
      all_bytes-All is_ascii_graphic (λ b. (33 ≤ b) × (b ≤ 126)) graphic_bytes key in
    (
      λ h. let passed = bail_if-ok _ _ h in (ground arith, ground arith, sound (ground arith)),
      λ (present, short, bytes). let all = complete bytes in ground arith,
    )

hex_bytes : (b : ℕ) → (is_ascii_hexdigit b ≡ true) ↔ IsHexDigit b
hex_bytes b = (λ h. ground arith, λ h. ground arith)

strip_prefix-append :
    (value prefix suffix : List ℕ)
    → (strip_prefix value prefix ≡ some suffix) ↔ (value ≡ prefix ++ suffix)
unfolding strip_prefix
strip_prefix-append value prefix suffix = (sound, complete)
  where
    stripped :
        (test : Bool) (rest suffix : List ℕ)
        → (if test then some rest else none) ≡ some suffix
        → (test ≡ true) × (rest ≡ suffix)
    stripped true rest suffix h = (refl, cc)
    stripped false rest suffix h = cc

    sound :
        (if starts_with value prefix then some (drop (length prefix) value) else none) ≡ some suffix
        → value ≡ prefix ++ suffix
    sound h =
        let (starts, tail) = stripped (starts_with value prefix) _ suffix h in
        let (rest, e) = (starts_with-append value prefix).0 starts in
        let same : rest ≡ suffix =
          sym (drop-append prefix rest (length prefix) refl)
          ∙ ap (drop (length prefix)) (sym e)
          ∙ tail in
        e ∙ ap (◌++◌ prefix) same

    complete :
        value ≡ prefix ++ suffix
        → (if starts_with value prefix then some (drop (length prefix) value) else none)
          ≡ some suffix
    complete e =
        let starts = (starts_with-append value prefix).1 (suffix, e) in
        let tail : drop (length prefix) value ≡ suffix =
          ap (drop (length prefix)) e ∙ drop-append prefix suffix (length prefix) refl in
        rw (starts, tail) refl

hex_suffix-digits :
    (stripped : Option (List ℕ)) (digits : List ℕ)
    → hex_suffix stripped ≡ some digits
    → (stripped ≡ some digits) × (length digits ≡ 16) × All IsHexDigit digits
unfolding hex_suffix
hex_suffix-digits none digits h = cc
hex_suffix-digits (some suffix) digits h =
    kept (length suffix == 16 && all_bytes is_ascii_hexdigit suffix) refl h
  where
    kept :
        (test : Bool)
        → (length suffix == 16 && all_bytes is_ascii_hexdigit suffix) ≡ test
        → (if test then some suffix else none) ≡ some digits
        → (some suffix ≡ some digits) × (length digits ≡ 16) × All IsHexDigit digits
    kept false t h = cc
    kept true t h =
        let same : suffix ≡ digits = cc h in
        subst (λ ds. (some suffix ≡ some ds) × (length ds ≡ 16) × All IsHexDigit ds) same
          (
            refl,
            ==→eq (length suffix) 16 (&&-left (length suffix == 16) _ t),
            (all_bytes-All is_ascii_hexdigit IsHexDigit hex_bytes suffix).0
                (&&-right (length suffix == 16) _ t),
          )

from_str_radix-digits :
    (digits : List ℕ) (number : ℕ)
    → (from_str_radix digits ≡ some number) ↔ ((from_digits 0 digits ≡ number) × (number < u64_end))
unfolding from_str_radix
from_str_radix-digits digits number = (λ h. ground arith, λ h. ground arith)

hex_suffix_passes :
    (digits : List ℕ)
    → length digits ≡ 16
    → all_bytes is_ascii_hexdigit digits ≡ true
    → hex_suffix (some digits) ≡ some digits
unfolding hex_suffix
hex_suffix_passes digits size all = rw (size, all) refl

pub parse_job_number-HasNumber :
    (job_id : List ℕ) (number : ℕ) → (parse_job_number job_id ≡ ok number) ↔ HasNumber job_id number
unfolding parse_job_number
parse_job_number-HasNumber job_id number = (
  λ h.
      let corrupt = internal "job store job id is corrupt" in
      let (digits, a, q) =
        bind-inv (ok_or (hex_suffix (strip_prefix job_id job_prefix)) corrupt) _ h in
      let (stripped, size, hex) = hex_suffix-digits _ digits (ok_or-some _ corrupt a) in
      let (value, small) =
        (from_str_radix-digits digits number).0 (ok_or-some (from_str_radix digits) corrupt q) in
      (digits, (strip_prefix-append job_id job_prefix digits).0 stripped, size, hex, value, small),
  λ (digits, e, size, hex, value, small).
      rw
        (
          (strip_prefix-append job_id job_prefix digits).1 e,
          hex_suffix_passes digits size
              ((all_bytes-All is_ascii_hexdigit IsHexDigit hex_bytes digits).1 hex),
          (from_str_radix-digits digits number).1 (value, small),
        )
        refl,
)
