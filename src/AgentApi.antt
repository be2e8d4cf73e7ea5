-- ===== src/AgentApi.antt =====
-- crates/pithos-agent-api/src/lib.rs: the error that every call of the daemon returns, and the `Result`
-- of it. The JSON values of serde_json are a type of the constructors that the code matches on.
pub mod Methods
pub mod Ids
pub mod Jobs
pub mod Requests
use pithos.Prelude.{ℕ, ◌≡◌, refl, Bool, true, false, not, Option, none, some, String, List}
use pithos.Prelude.Int.{ℤ, negsuc}

-- `serde_json::Value`. A number is its text. A `Vec` of values and a `Map` of them are data types of their
-- own, since the values hold them.
mutual
  pub data Value : Type 0 where
    null : Value
    boolean : Bool → Value
    number : List ℕ → Value
    string : List ℕ → Value
    array : Values → Value
    object : Fields → Value

  pub data Values : Type 0 where
    no_values : Values
    and_value : Value → Values → Values

  pub data Fields : Type 0 where
    no_fields : Fields
    and_field : List ℕ → Value → Fields → Fields

pub data JsonRpcErrorCode : Type 0 where
  parse_error_code invalid_request_code method_not_found_code : JsonRpcErrorCode
  invalid_params_code internal_error_code pithos_error_code : JsonRpcErrorCode

-- `code as i32`; `negsuc n` is `- (n + 1)`.
unfoldable pub code_number : JsonRpcErrorCode → ℤ
code_number parse_error_code = negsuc 32_699
code_number invalid_request_code = negsuc 32_599
code_number method_not_found_code = negsuc 32_600
code_number invalid_params_code = negsuc 32_601
code_number internal_error_code = negsuc 32_602
code_number pithos_error_code = negsuc 31_999

pub data PublicErrorKind : Type 0 where
  invalid_argument unsupported_format unsupported_feature unsafe_path_kind : PublicErrorKind
  permission_denied resource_limit_kind corrupt_archive integrity_mismatch : PublicErrorKind
  input_changed_kind job_not_found_kind job_conflict cancelled_kind internal_kind : PublicErrorKind

pub record JsonRpcError : Type 0 where
  pub code : ℤ
  pub message : String
  pub kind : PublicErrorKind
  pub content : Option Value

unfoldable pub new_error : JsonRpcErrorCode → PublicErrorKind → String → JsonRpcError
new_error code kind message = record {
  code = code_number code;
  message = message;
  kind = kind;
  content = none;
}

unfoldable pub parse_error : JsonRpcError
parse_error = new_error parse_error_code invalid_argument "invalid JSON"

unfoldable pub invalid_request : String → JsonRpcError
invalid_request message = new_error invalid_request_code invalid_argument message

unfoldable pub invalid_params : String → JsonRpcError
invalid_params message = new_error invalid_params_code invalid_argument message

unfoldable pub method_not_found : JsonRpcError
method_not_found = new_error method_not_found_code unsupported_feature "method not found"

unfoldable pub resource_limit_error : String → JsonRpcError
resource_limit_error message = new_error pithos_error_code resource_limit_kind message

unfoldable pub domain : PublicErrorKind → String → JsonRpcError
domain kind message = new_error pithos_error_code kind message

-- `Result<T, JsonRpcError>`
pub data RpcResult {ℓ} (T : Type ℓ) : Type ℓ where
  ok : T → RpcResult T
  err : JsonRpcError → RpcResult T

-- `if test { return Err(error); }`
abbrev pub bail_if : Bool → JsonRpcError → RpcResult (Unit {0})
bail_if false error = ok tt
bail_if true error = err error

-- `option.ok_or_else(|| error)`
abbrev pub ok_or {ℓ} : {T : Type ℓ} → Option T → JsonRpcError → RpcResult T
ok_or (some value) error = ok value
ok_or none error = err error

-- The operator `?`, where the value is used and where it is not.
infixl 5 ◌>>=◌
abbrev pub ◌>>=◌ {ℓ κ} : {T : Type ℓ} {U : Type κ} → RpcResult T → (T → RpcResult U) → RpcResult U
err error >>= next = err error
ok value >>= next = next value

infixl 5 ◌>>◌
abbrev pub ◌>>◌ {κ} : {U : Type κ} → RpcResult (Unit {0}) → RpcResult U → RpcResult U
check >> next = check >>= λ done. next

-- What a successful chain of two steps says of each.
pub bind-inv {ℓ κ} :
    {T : Type ℓ} {U : Type κ} (first : RpcResult T) (next : T → RpcResult U) {last : U}
    → (first >>= next) ≡ ok last
    → (value : T) × (first ≡ ok value) × (next value ≡ ok last)
bind-inv (err error) next h = cc
bind-inv (ok value) next h = (value, refl, h)

pub bail_if-ok : (test : Bool) (error : JsonRpcError) → bail_if test error ≡ ok tt → test ≡ false
bail_if-ok false error h = refl
bail_if-ok true error h = cc

-- `if !test { return Err(error); }`
pub bail_unless-ok :
    (test : Bool) (error : JsonRpcError) → bail_if (not test) error ≡ ok tt → test ≡ true
bail_unless-ok true error h = refl
bail_unless-ok false error h = cc

pub both-ok :
    (first second : RpcResult (Unit {0}))
    → (first >> second) ≡ ok tt
    → (first ≡ ok tt) × (second ≡ ok tt)
both-ok (ok tt) second h = (refl, h)
both-ok (err e) second h = cc

pub ok-both :
    (first second : RpcResult (Unit {0}))
    → first ≡ ok tt
    → second ≡ ok tt
    → (first >> second) ≡ ok tt
ok-both (ok tt) second h k = k
ok-both (err e) second h k = cc

pub ok_or-some {ℓ} :
    {T : Type ℓ} (option : Option T) (error : JsonRpcError) {value : T}
    → ok_or option error ≡ ok value
    → option ≡ some value
ok_or-some (some a) error h = cc
ok_or-some none error h = cc

pub ok-injective {ℓ} : {T : Type ℓ} {t t' : T} → ◌≡◌ {A = RpcResult T} (ok t) (ok t') → t ≡ t'
ok-injective q = cc
