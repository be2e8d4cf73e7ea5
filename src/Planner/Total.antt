-- ===== src/Planner/Total.antt =====
-- `plan_solid_groups` succeeds on every list whose total and whose number of items are `u64` values.
use pithos.Prelude.{
  ℕ, ◌+◌, ◌<◌, ◌≡◌, refl, inl, inr, true, false, some, List, [], ◌∷◌, arith, length, lt→ltb, leb,
  Bool-cases,
}
use pithos.Core.{ok, CompressionProfile, raw}
use pithos.Core.Checked.{u64_end}
use pithos.Planner.{
  SolidGroupPlan, new_plan, solid_group_target, raw_groups, plan_loop, plan_solid_groups,
}
use pithos.Planner.Groups.{sum}

join_step :
    (target index : ℕ) (g : SolidGroupPlan) (l : ℕ) (ls : List ℕ) (gs : List SolidGroupPlan)
    → g.uncompressed_len + l < u64_end
    → g.item_count + 1 < u64_end
    → leb (g.uncompressed_len + l) target ≡ true
    → plan_loop target
        (index + 1)
        (some
          (record g { item_count = g.item_count + 1; uncompressed_len = g.uncompressed_len + l }))
        ls
      ≡ ok gs
    → plan_loop target index (some g) (l ∷ ls) ≡ ok gs
unfolding plan_loop
join_step target index g l ls gs s n fits q = rw (lt→ltb _ _ s, fits, lt→ltb _ _ n) q

push_step :
    (target index : ℕ) (g : SolidGroupPlan) (l : ℕ) (ls : List ℕ) (gs : List SolidGroupPlan)
    → g.uncompressed_len + l < u64_end
    → leb (g.uncompressed_len + l) target ≡ false
    → plan_loop target (index + 1) (some (new_plan index 1 l)) ls ≡ ok gs
    → plan_loop target index (some g) (l ∷ ls) ≡ ok (g ∷ gs)
unfolding plan_loop
push_step target index g l ls gs s full q = rw (lt→ltb _ _ s, full, q)

loop_total :
    (target index : ℕ) (g : SolidGroupPlan) (ls : List ℕ)
    → g.uncompressed_len + sum ls < u64_end
    → g.item_count + length ls < u64_end
    → (gs : List SolidGroupPlan) × (plan_loop target index (some g) ls ≡ ok gs)
loop_total target index g [] s n = (g ∷ [], unfold plan_loop in refl)
loop_total target index g (l ∷ ls) s n = elim (Bool-cases (leb (g.uncompressed_len + l) target)) [
  | inl fits ↦
      let g' : SolidGroupPlan = record g {
        item_count = g.item_count + 1;
        uncompressed_len = g.uncompressed_len + l;
      } in
      let (gs, q) = loop_total target (index + 1) g' ls (omega arith) (omega arith) in
      (gs, join_step target index g l ls gs (omega arith) (omega arith) fits q)
  | inr full ↦
      let (gs, q) =
        loop_total target (index + 1) (new_plan index 1 l) ls (omega arith) (omega arith) in
      (g ∷ gs, push_step target index g l ls gs (omega arith) full q)
]

-- Planning succeeds whenever the total of the lengths and the number of items are `u64` values.
pub plan_solid_groups_total :
    (profile : CompressionProfile) (lengths : List ℕ)
    → sum lengths < u64_end
    → length lengths < u64_end
    → (gs : List SolidGroupPlan) × (plan_solid_groups profile lengths ≡ ok gs)
unfolding plan_solid_groups
plan_solid_groups_total raw lengths s n = (raw_groups 0 lengths, refl)
plan_solid_groups_total profile [] s n = ([], refl)
plan_solid_groups_total profile (l ∷ ls) s n =
    loop_total (solid_group_target profile) 1 (new_plan 0 1 l) ls s (omega arith)
