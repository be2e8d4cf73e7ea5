-- ===== src/Core.antt =====
-- crates/pithos-core/src/lib.rs: the error type, the `Result` of every fallible function, the
-- profiles and the decode limits; and the checked arithmetic of `u64` that all crates use.
pub mod Bytes
pub mod Checked
use pithos.Prelude.{
  ℕ, ◌+◌, ◌*◌, ◌≡◌, refl, ◌≢◌, ◌⊎◌, inl, inr, Bool, true, false, String, Option, none, some, List,
  [], ◌∷◌, arith,
}

-- What the code reads of a `std::io::ErrorKind`.
pub data IoErrorKind : Type 0 where
  already_exists interrupted other : IoErrorKind

pub data PithosError : Type 0 where
  invalid_magic unsupported_container_version unsupported_codec invalid_range : PithosError
  integer_overflow overlapping_sections checksum_mismatch hash_mismatch : PithosError
  dependency_cycle dependency_depth_exceeded unsafe_path invalid_path_encoding : PithosError
  invalid_metadata missing_section : String → PithosError
  duplicate_section unsupported_file_type unsafe_symlink output_exists : PithosError
  resource_limit : String → PithosError
  memory_limit temporary_space_limit input_changed cancelled : PithosError
  candidate_exceeded_incumbent : PithosError
  io : IoErrorKind → PithosError

-- `Result<T>`, that is `std::result::Result<T, PithosError>`.
pub data Result {ℓ} (T : Type ℓ) : Type ℓ where
  ok : T → Result T
  err : PithosError → Result T

-- `if test { return Err(error); }`
abbrev pub bail_if : Bool → PithosError → Result (Unit {0})
bail_if false error = ok tt
bail_if true error = err error

-- `option.ok_or(error)`
abbrev pub ok_or {ℓ} : {T : Type ℓ} → Option T → PithosError → Result T
ok_or (some value) error = ok value
ok_or none error = err error

-- The operator `?`, where the value is used and where it is not.
infixl 5 ◌>>=◌
abbrev pub ◌>>=◌ {ℓ κ} : {T : Type ℓ} {U : Type κ} → Result T → (T → Result U) → Result U
err error >>= next = err error
ok value >>= next = next value

infixl 5 ◌>>◌
abbrev pub ◌>>◌ {κ} : {U : Type κ} → Result (Unit {0}) → Result U → Result U
check >> next = check >>= λ done. next

-- To split on a computed result and keep the equation.
pub Result-cases {ℓ} :
    {T : Type ℓ} (result : Result T)
    → ((value : T) × (result ≡ ok value)) ⊎ ((error : PithosError) × (result ≡ err error))
Result-cases (ok value) = inl (value, refl)
Result-cases (err error) = inr (error, refl)

-- What a successful chain of two steps says of each.
pub bind-inv {ℓ κ} :
    {T : Type ℓ} {U : Type κ} (first : Result T) (next : T → Result U) {last : U}
    → (first >>= next) ≡ ok last
    → (value : T) × (first ≡ ok value) × (next value ≡ ok last)
bind-inv (err error) next h = cc
bind-inv (ok value) next h = (value, refl, h)

pub ok_or-some {ℓ} :
    {T : Type ℓ} (option : Option T) (error : PithosError) {value : T}
    → ok_or option error ≡ ok value
    → option ≡ some value
ok_or-some (some a) error h = cc
ok_or-some none error h = cc

pub ok_first {ℓ κ} :
    {T : Type ℓ} {U : Type κ} {t t' : T} {u u' : U}
    → ◌≡◌ {A = Result (T × U)} (ok (t, u)) (ok (t', u'))
    → t ≡ t'
ok_first q = cc

pub data CompressionProfile : Type 0 where
  raw stream random balanced archive_max : CompressionProfile

pub record DecodeLimits : Type 0 where
  pub max_entries : ℕ
  pub max_groups : ℕ
  pub max_chunks : ℕ
  pub max_original_bytes : ℕ
  pub max_group_output : ℕ
  pub max_dependency_depth : ℕ
  pub max_rule_depth : ℕ
  pub max_rules : ℕ
  pub max_expansion_ratio : ℕ
  pub max_metadata_bytes : ℕ
  pub max_path_bytes : ℕ
  pub max_path_components : ℕ
  pub max_sections : ℕ

abbrev pub default_limits : DecodeLimits
default_limits = record {
  max_entries = 10_000_000;
  max_groups = 1_000_000;
  max_chunks = 50_000_000;
  max_original_bytes = 1_000_000_000_000;
  max_group_output = 1_073_741_824;
  max_dependency_depth = 32;
  max_rule_depth = 64;
  max_rules = 1_000_000;
  max_expansion_ratio = 1000;
  max_metadata_bytes = 256 * 1024 * 1024;
  max_path_bytes = 32 * 1024;
  max_path_components = 1024;
  max_sections = 64;
}
