-- ===== src/AgentApi/Ids.antt =====
-- crates/pithos-agent-api/src/lib.rs: `JobId` and `SessionId`, which are their validated bytes.
use pithos.Prelude.{
  ℕ, ◌+◌, Bool, true, not, ◌&&◌, ◌||◌, List, [], ◌∷◌, length, ltb, leb, ◌==◌, false,
}
use pithos.AgentApi.{RpcResult, ok, ◌>>◌, bail_if, invalid_params}

-- `value.starts_with(prefix)`
unfoldable pub starts_with : List ℕ → List ℕ → Bool
starts_with value [] = true
starts_with [] (p ∷ ps) = false
starts_with (v ∷ vs) (p ∷ ps) = v == p && starts_with vs ps

abbrev pub between : ℕ → ℕ → ℕ → Bool
between low high byte = leb low byte && leb byte high

-- `byte.is_ascii_alphanumeric() || byte == b'-'`
abbrev pub identifier_byte : ℕ → Bool
identifier_byte byte = between 48 57 byte || between 65 90 byte || between 97 122 byte || byte == 45

-- `value.bytes().all(test)`
unfoldable pub all_bytes : (ℕ → Bool) → List ℕ → Bool
all_bytes test [] = true
all_bytes test (b ∷ bs) = test b && all_bytes test bs

-- "job-" and "session-"
abbrev pub job_prefix : List ℕ
job_prefix = 106 ∷ 111 ∷ 98 ∷ 45 ∷ []

abbrev pub session_prefix : List ℕ
session_prefix = 115 ∷ 101 ∷ 115 ∷ 115 ∷ 105 ∷ 111 ∷ 110 ∷ 45 ∷ []

-- `new` of the type that the macro makes for a prefix.
unfoldable pub new_id : List ℕ → List ℕ → RpcResult (List ℕ)
new_id prefix value =
    bail_if
      (ltb (length value) (length prefix + 8)
        || ltb 96 (length value)
        || not (starts_with value prefix)
        || not (all_bytes identifier_byte value))
      (invalid_params "invalid identifier")
    >> ok value
