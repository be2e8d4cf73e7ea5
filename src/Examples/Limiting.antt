-- ===== src/Examples/Limiting.antt =====
-- Quotas and rate limits at concrete inputs.
use pithos.Prelude.{ℕ, ◌+◌, ◌*◌, ◌-◌, ◌≤◌, ◌≡◌, refl, none, List, [], ◌∷◌, arith}
use pithos.Daemon.Limits.{
  JobLimits, default_policy, granted, validate_quota, ConnectionRateLimiter, allow, new_limiter,
}
use pithos.Daemon.Limits.Bucket.{allow_all, allow_all_bounded}

abbrev sample_request : JobLimits
sample_request = record {
  max_threads = 2;
  max_memory = 1024;
  max_temp = 0;
  max_output = 10;
  deadline_unix_ms = none;
}

request_granted : validate_quota default_policy sample_request ≡ granted
unfolding validate_quota
request_granted = refl

-- A new limiter of two tokens a second and three at once, which is called in the first second.
abbrev sample_limiter : ConnectionRateLimiter
sample_limiter = new_limiter 2 3

abbrev sample_times : List ℕ
sample_times = 5000 ∷ 5000 ∷ 5100 ∷ 5600 ∷ []

allowed_four : (allow_all sample_limiter (5000 ∷ sample_times)).1 ≡ 4
unfolding allow_all allow new_limiter
allowed_four = refl

allow_all_bounded_example :
    1000 * (allow_all sample_limiter (5000 ∷ sample_times)).1
    ≤ 1000 * sample_limiter.capacity + (5600 - 5000) * sample_limiter.rate_per_second
allow_all_bounded_example = allow_all_bounded sample_limiter 5000 sample_times (omega arith)
