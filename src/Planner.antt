-- ===== src/Planner.antt =====
-- crates/pithos-planner/src/lib.rs: the solid groups of a profile, and the cost of a candidate.
pub mod Groups
pub mod Total
pub mod Cost
use pithos.Prelude.{ℕ, ◌+◌, ◌*◌, Option, none, some, List, [], ◌∷◌, leb, if◌then◌else◌}
use pithos.Core.{
  Result, ok, ◌>>=◌, ok_or, integer_overflow, CompressionProfile, raw, stream, random, balanced,
  archive_max,
}
use pithos.Core.Checked.{checked_add}

abbrev pub mib : ℕ
mib = 1024 * 1024

pub record SolidGroupPlan : Type 0 where
  pub first_item : ℕ
  pub item_count : ℕ
  pub uncompressed_len : ℕ

abbrev pub new_plan : ℕ → ℕ → ℕ → SolidGroupPlan
new_plan first count len = record { first_item = first; item_count = count; uncompressed_len = len }

unfoldable pub solid_group_target : CompressionProfile → ℕ
solid_group_target raw = 0
solid_group_target stream = 4 * mib
solid_group_target random = 8 * mib
solid_group_target balanced = 64 * mib
solid_group_target archive_max = 512 * mib

-- The profile `Raw`: `lengths.iter().enumerate()` from `index` on, each item a group.
unfoldable pub raw_groups : ℕ → List ℕ → List SolidGroupPlan
raw_groups index [] = []
raw_groups index (length ∷ lengths) = new_plan index 1 length ∷ raw_groups (index + 1) lengths

-- The loop from `index` on, with the variable `current`: the groups that are pushed from here.
unfoldable pub plan_loop : ℕ → ℕ → Option SolidGroupPlan → List ℕ → Result (List SolidGroupPlan)
plan_loop target index none [] = ok []
plan_loop target index (some group) [] = ok (group ∷ [])
plan_loop target index none (length ∷ lengths) =
    plan_loop target (index + 1) (some (new_plan index 1 length)) lengths
plan_loop target index (some group) (length ∷ lengths) = do
  combined ← ok_or (checked_add group.uncompressed_len length) integer_overflow
  let joined = do
    count ← ok_or (checked_add group.item_count 1) integer_overflow
    plan_loop target (index + 1)
        (some (record group { item_count = count; uncompressed_len = combined })) lengths
  let pushed = do
    rest ← plan_loop target (index + 1) (some (new_plan index 1 length)) lengths
    ok (group ∷ rest)
  if leb combined target then joined else pushed

unfoldable pub plan_solid_groups : CompressionProfile → List ℕ → Result (List SolidGroupPlan)
unfolding raw_groups plan_loop solid_group_target
plan_solid_groups raw lengths = ok (raw_groups 0 lengths)
plan_solid_groups profile lengths = plan_loop (solid_group_target profile) 0 none lengths

pub record CandidateCost : Type 0 where
  pub payload : ℕ
  pub codec_descriptor : ℕ
  pub group_descriptor : ℕ
  pub index_delta : ℕ
  pub integrity : ℕ
  pub padding : ℕ

-- `try_fold` with `checked_add`.
unfoldable pub checked_sum : ℕ → List ℕ → Result ℕ
checked_sum total [] = ok total
checked_sum total (value ∷ values) = do
  next ← ok_or (checked_add total value) integer_overflow
  checked_sum next values

unfoldable pub total_cost : CandidateCost → Result ℕ
unfolding checked_sum
total_cost c = checked_sum 0 (
    c.payload ∷ c.codec_descriptor ∷ c.group_descriptor ∷ c.index_delta ∷ c.integrity ∷ c.padding
    ∷ [])
