-- ===== src/Daemon/Limits/Bucket.antt =====
-- What `QuotaPolicy::validate` decides, and the token bucket of `ConnectionRateLimiter` over runs of
-- calls.
use pithos.Prelude.{
  ℕ, ◌+◌, ◌-◌, ◌*◌, ◌≤◌, ◌<◌, ◌≡◌, ◌↔◌, sym, subst, true, List, [], ◌∷◌, arith, if◌then◌else◌,
}
use mathlib.Core.Path.{subst₂}
use pithos.Core.Checked.{u32_end}
use pithos.Daemon.Limits.{
  JobLimits, QuotaPolicy, granted, validate_quota, ConnectionRateLimiter, new_limiter, allow,
  IsWithin,
}

-- A request is granted exactly when every limit is within the maximum, and threads, memory and
-- output are not zero.
pub validate_quota_iff :
    (policy : QuotaPolicy) (requested : JobLimits)
    → (validate_quota policy requested ≡ granted) ↔ IsWithin policy.maximum_job_limits requested
unfolding validate_quota
validate_quota_iff policy requested = (λ e. ground arith, λ w. ground arith)

-- What holds of a limiter between two calls: the bucket is never over-full, and its fields are
-- `u32` and `u64` values.
pub record IsBucket (s : ConnectionRateLimiter) : Type 0 where
  pub not_over : s.tokens_milli ≤ s.capacity * 1000
  pub capacity_u32 : s.capacity < u32_end
  pub some_capacity : 0 < s.capacity

new_limiter-IsBucket : (rate burst : ℕ) → burst < u32_end → IsBucket (new_limiter rate burst)
unfolding new_limiter
new_limiter-IsBucket rate burst h = record {
  not_over = omega arith;
  capacity_u32 = omega arith;
  some_capacity = omega arith;
}

allow-IsBucket : (s : ConnectionRateLimiter) (now : ℕ) → IsBucket s → IsBucket (allow s now).0
unfolding allow
allow-IsBucket s now v = ground arith

-- A run of calls at the given times, and how many of them were allowed.
unfoldable pub allow_all : ConnectionRateLimiter → List ℕ → ConnectionRateLimiter × ℕ
allow_all s [] = (s, 0)
allow_all s (now ∷ times) =
    let (s', ok) = allow s now in
    let (s'', n) = allow_all s' times in (s'', (if ok then 1 else 0) + n)

-- Times that never go back, from `start` on.
abbrev pub NeverBack : ℕ → List ℕ → Type 0
NeverBack start [] = Unit
NeverBack start (t ∷ ts) = (start ≤ t) × NeverBack t ts

elapsed_mul : (last now rate : ℕ) → last ≤ now → (now - last) * rate + last * rate ≡ now * rate
elapsed_mul last now rate h = grind arith

-- One call pays 1000 for each permission out of the tokens and the refill.
allow_pays :
    (s : ConnectionRateLimiter) (now : ℕ)
    → s.last_ms ≤ now
    → (1000 * (if (allow s now).1 then 1 else 0)
          + (allow s now).0.tokens_milli
          + s.last_ms * s.rate_per_second
        ≤ s.tokens_milli + now * s.rate_per_second)
      × ((allow s now).0.last_ms ≡ now)
      × ((allow s now).0.rate_per_second ≡ s.rate_per_second)
unfolding allow
allow_pays s now k = ground (arith, elapsed_mul s.last_ms now s.rate_per_second k)

-- It leaves the permission and the tokens within the capacity, however long the bucket has filled.
allow_capped :
    (s : ConnectionRateLimiter) (now : ℕ)
    → (1000 * (if (allow s now).1 then 1 else 0) + (allow s now).0.tokens_milli ≤ 1000 * s.capacity)
      × ((allow s now).0.last_ms ≡ now)
      × ((allow s now).0.rate_per_second ≡ s.rate_per_second)
unfolding allow
allow_capped s now = ground arith

-- The last of the times.
abbrev pub latest : ℕ → List ℕ → ℕ
latest first [] = first
latest first (t ∷ ts) = latest t ts

allow_all_pays :
    (s : ConnectionRateLimiter) (times : List ℕ)
    → NeverBack s.last_ms times
    → (1000 * (allow_all s times).1 + s.last_ms * s.rate_per_second
        ≤ s.tokens_milli + latest s.last_ms times * s.rate_per_second)
      × (s.last_ms ≤ latest s.last_ms times)
unfolding allow_all
allow_all_pays s [] n = (omega arith, omega arith)
allow_all_pays s (now ∷ times) n =
    let (paid, last, rate) = allow_pays s now n.0 in
    let s' = (allow s now).0 in
    let (rest, later) = allow_all_pays s' times (subst (λ t. NeverBack t times) (sym last) n.1) in
    let rest' : 1000 * (allow_all s' times).1 + now * s.rate_per_second
        ≤ s'.tokens_milli + latest now times * s.rate_per_second =
      subst₂ (λ t r. 1000 * (allow_all s' times).1 + t * r ≤ s'.tokens_milli + latest t times * r)
        last rate rest in
    let later' : now ≤ latest now times = subst (λ t. t ≤ latest t times) last later in
    (omega arith, omega arith)

-- In any run of calls on any limiter, from a first call on and at times that never go back, 1000
-- thousandths of a token are paid for each permission out of a full bucket and of what the rate
-- refills between the first call and the last: at most `capacity` and `rate` a second, however long
-- the limiter has waited before the first.
pub allow_all_bounded :
    (s : ConnectionRateLimiter) (first : ℕ) (times : List ℕ)
    → NeverBack first times
    → 1000 * (allow_all s (first ∷ times)).1
      ≤ 1000 * s.capacity + (latest first times - first) * s.rate_per_second
unfolding allow_all
allow_all_bounded s first times n =
    let (capped, last, rate) = allow_capped s first in
    let s' = (allow s first).0 in
    let (paid, later) = allow_all_pays s' times (subst (λ t. NeverBack t times) (sym last) n) in
    let paid' : 1000 * (allow_all s' times).1 + first * s.rate_per_second
        ≤ s'.tokens_milli + latest first times * s.rate_per_second =
      subst₂ (λ t r. 1000 * (allow_all s' times).1 + t * r ≤ s'.tokens_milli + latest t times * r)
        last rate paid in
    let later' : first ≤ latest first times = subst (λ t. t ≤ latest t times) last later in
    omega (arith, elapsed_mul first (latest first times) s.rate_per_second later')

-- Every run of calls keeps the bucket within its capacity.
pub allow_all-IsBucket :
    (s : ConnectionRateLimiter) (times : List ℕ) → IsBucket s → IsBucket (allow_all s times).0
unfolding allow_all
allow_all-IsBucket s [] v = v
allow_all-IsBucket s (now ∷ times) v =
    allow_all-IsBucket (allow s now).0 times (allow-IsBucket s now v)

-- A connection that waits for one second at one token a second, or longer, is let through.
pub allow_after_wait :
    (s : ConnectionRateLimiter) (now : ℕ)
    → IsBucket s
    → 0 < s.last_ms
    → s.last_ms ≤ now
    → 1000 ≤ (now - s.last_ms) * s.rate_per_second
    → (allow s now).1 ≡ true
unfolding allow
allow_after_wait s now v h k w = ground arith
