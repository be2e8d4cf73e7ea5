-- ===== src/Daemon/Limits.antt =====
-- crates/pithos-daemon/src/limits.rs: the job quotas, and the token bucket of a connection.
pub mod Bucket
use pithos.Prelude.{
  ℕ, ◌+◌, ◌-◌, ◌*◌, ◌≤◌, ◌<◌, ◌≡◌, ◌↔◌, min, max, Bool, true, false, ◌||◌, Option, none, String,
  arith, ltb, ◌==◌, if◌then◌else◌,
}
use pithos.Core.Checked.{u32_end, u64_end, saturating_add, saturating_mul}

-- crates/pithos-agent-api/src/lib.rs: `JobLimits`.
pub record JobLimits : Type 0 where
  pub max_threads : ℕ
  pub max_memory : ℕ
  pub max_temp : ℕ
  pub max_output : ℕ
  pub deadline_unix_ms : Option ℕ

pub record QuotaPolicy : Type 0 where
  pub maximum_job_limits : JobLimits
  pub max_jobs_per_session : ℕ
  pub max_events_per_job : ℕ
  pub max_read_range : ℕ

abbrev pub default_policy : QuotaPolicy
default_policy = record {
  maximum_job_limits = record {
    max_threads = 8;
    max_memory = 4 * 1024 * 1024 * 1024;
    max_temp = 16 * 1024 * 1024 * 1024;
    max_output = 1024 * 1024 * 1024 * 1024;
    deadline_unix_ms = none;
  };
  max_jobs_per_session = 128;
  max_events_per_job = 4096;
  max_read_range = 64 * 1024 * 1024;
}

-- `Result<(), JsonRpcError>`, with the message of the only error that `validate` returns.
pub data Verdict : Type 0 where
  granted : Verdict
  resource_limit_error : String → Verdict

unfoldable pub validate_quota : QuotaPolicy → JobLimits → Verdict
validate_quota policy requested =
    let maximum = policy.maximum_job_limits in
    if requested.max_threads == 0
      || ltb maximum.max_threads requested.max_threads
      || requested.max_memory == 0
      || ltb maximum.max_memory requested.max_memory
      || ltb maximum.max_temp requested.max_temp
      || requested.max_output == 0
      || ltb maximum.max_output requested.max_output
    then resource_limit_error "job quota exceeded"
    else granted

pub record ConnectionRateLimiter : Type 0 where
  pub rate_per_second : ℕ
  pub capacity : ℕ
  pub tokens_milli : ℕ
  pub last_ms : ℕ

unfoldable pub new_limiter : ℕ → ℕ → ConnectionRateLimiter
new_limiter rate_per_second burst = record {
  rate_per_second = max rate_per_second 1;
  capacity = max burst 1;
  tokens_milli = max burst 1 * 1000;
  last_ms = 0;
}

-- `elapsed` is a saturating subtraction, as `-` is.
unfoldable pub allow : ConnectionRateLimiter → ℕ → ConnectionRateLimiter × Bool
allow s now_ms =
    let last = if s.last_ms == 0 then now_ms else s.last_ms in
    let elapsed = now_ms - last in
    let refill = saturating_mul elapsed s.rate_per_second in
    let full = s.capacity * 1000 in
    let tokens = min (saturating_add s.tokens_milli refill) full in
    if ltb tokens 1000
    then (record s { tokens_milli = tokens; last_ms = now_ms }, false)
    else (record s { tokens_milli = tokens - 1000; last_ms = now_ms }, true)

abbrev pub IsWithin : JobLimits → JobLimits → Type 0
IsWithin maximum requested =
    (0 < requested.max_threads)
    × (requested.max_threads ≤ maximum.max_threads)
    × (0 < requested.max_memory)
    × (requested.max_memory ≤ maximum.max_memory)
    × (requested.max_temp ≤ maximum.max_temp)
    × (0 < requested.max_output)
    × (requested.max_output ≤ maximum.max_output)
