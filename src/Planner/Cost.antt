-- ===== src/Planner/Cost.antt =====
-- `CandidateCost::total`: the exact sum, or an overflow.
use pithos.Prelude.{ℕ, ◌+◌, ◌≤◌, ◌<◌, ◌≡◌, arith}
use pithos.Core.{ok, err, integer_overflow}
use pithos.Core.Checked.{u64_end}
use pithos.Planner.{CandidateCost, total_cost}

abbrev pub cost_sum : CandidateCost → ℕ
cost_sum c =
    c.payload + c.codec_descriptor + c.group_descriptor + c.index_delta + c.integrity + c.padding

-- The total is the sum of the six parts when that is a `u64`, and an overflow when it is not.
pub total_cost_lem :
    (c : CandidateCost)
    → (cost_sum c < u64_end → total_cost c ≡ ok (cost_sum c))
      × (u64_end ≤ cost_sum c → total_cost c ≡ err integer_overflow)
unfolding total_cost
total_cost_lem c = (λ h. ground arith, λ h. ground arith)
