-- ===== src/Examples/Planning.antt =====
-- Solid groups and candidate costs at concrete inputs.
use pithos.Prelude.{ℕ, ◌*◌, ◌≡◌, refl, List, [], ◌∷◌, arith}
use pithos.Core.{ok, err, integer_overflow, stream, balanced}
use pithos.Planner.{
  SolidGroupPlan, new_plan, mib, plan_solid_groups, solid_group_target, CandidateCost,
}
use pithos.Planner.Groups.{Covers, IsGreedy, plan_solid_groups-Covers, plan_solid_groups-IsGreedy}
use pithos.Planner.Total.{plan_solid_groups_total}

abbrev sample_lengths : List ℕ
sample_lengths = 2 * mib ∷ 2 * mib ∷ 1 ∷ 5 * mib ∷ 1 ∷ []

abbrev sample_groups : List SolidGroupPlan
sample_groups =
    new_plan 0 2 (4 * mib) ∷ new_plan 2 1 1 ∷ new_plan 3 1 (5 * mib) ∷ new_plan 4 1 1 ∷ []

planned : plan_solid_groups stream sample_lengths ≡ ok sample_groups
unfolding plan_solid_groups
planned = refl

plan_solid_groups-Covers_example : Covers 0 sample_lengths sample_groups
plan_solid_groups-Covers_example =
    plan_solid_groups-Covers stream sample_lengths sample_groups planned

plan_solid_groups-IsGreedy_example :
    IsGreedy (solid_group_target stream) sample_lengths sample_groups
plan_solid_groups-IsGreedy_example =
    plan_solid_groups-IsGreedy stream sample_lengths sample_groups (λ e. cc) planned

plan_solid_groups_total_example :
    (gs : List SolidGroupPlan) × (plan_solid_groups balanced sample_lengths ≡ ok gs)
plan_solid_groups_total_example =
    plan_solid_groups_total balanced sample_lengths (omega arith) (omega arith)

overflowing :
    plan_solid_groups balanced (18_446_744_073_709_551_615 ∷ 1 ∷ []) ≡ err integer_overflow
unfolding plan_solid_groups
overflowing = refl

abbrev sample_cost : CandidateCost
sample_cost = record {
  payload = 1000;
  codec_descriptor = 16;
  group_descriptor = 48;
  index_delta = 40;
  integrity = 32;
  padding = 0;
}
