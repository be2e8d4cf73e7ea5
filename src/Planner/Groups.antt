-- ===== src/Planner/Groups.antt =====
-- `plan_solid_groups`: the groups cover the items in order, and are as large as the target allows.
use pithos.Prelude.{
  ℕ, ◌+◌, ◌≤◌, ◌<◌, ◌⊎◌, ◌≡◌, ◌≢◌, refl, sym, subst, ap, ◌∙◌, inl, inr, none, some, List, [], ◌∷◌,
  ◌++◌, arith, length, take, drop, length-append, take-append, drop-append, leb, Bool-cases,
}
use mathlib.Core.List.{append_assoc}
use pithos.Core.{ok, Result-cases, CompressionProfile, raw}
use pithos.Planner.{
  SolidGroupPlan, new_plan, solid_group_target, raw_groups, plan_loop, plan_solid_groups,
}

abbrev pub sum : List ℕ → ℕ
sum [] = 0
sum (x ∷ xs) = x + sum xs

sum-append : (xs ys : List ℕ) → sum (xs ++ ys) ≡ sum xs + sum ys
sum-append [] ys = omega arith
sum-append (x ∷ xs) ys = omega (arith, sum-append xs ys)

-- The groups take the items from `index` on, in order and without a gap, each at least one, and
-- state the exact number of their bytes.
abbrev pub Covers : ℕ → List ℕ → List SolidGroupPlan → Type 0
Covers index lengths [] = lengths ≡ []
Covers index lengths (g ∷ gs) =
    (g.first_item ≡ index)
    × (0 < g.item_count)
    × (g.item_count ≤ length lengths)
    × (g.uncompressed_len ≡ sum (take g.item_count lengths))
    × Covers (index + g.item_count) (drop g.item_count lengths) gs

-- No group of several items passes the target, and no group could have taken the next item.
abbrev pub IsGreedy : ℕ → List ℕ → List SolidGroupPlan → Type 0
IsGreedy target lengths [] = Unit
IsGreedy target lengths (g ∷ gs) =
    (1 < g.item_count → g.uncompressed_len ≤ target)
    × (gs ≢ [] → target < sum (take (g.item_count + 1) lengths))
    × IsGreedy target (drop g.item_count lengths) gs

-- The group in hand, over the items `taken`, before the items that are left.
record Holds (target index : ℕ) (group : SolidGroupPlan) (taken : List ℕ) : Type 0 where
  begins : group.first_item + group.item_count ≡ index
  some_items : 0 < group.item_count
  counted : length taken ≡ group.item_count
  summed : group.uncompressed_len ≡ sum taken
  fits : 1 < group.item_count → group.uncompressed_len ≤ target

loop-inv :
    (target index : ℕ) (group : SolidGroupPlan) (l : ℕ) (ls : List ℕ) (gs : List SolidGroupPlan)
    → plan_loop target index (some group) (l ∷ ls) ≡ ok gs
    → ((group.uncompressed_len + l ≤ target)
        × (plan_loop target
              (index + 1)
              (some (record group {
                item_count = group.item_count + 1;
                uncompressed_len = group.uncompressed_len + l;
              }))
              ls
            ≡ ok gs))
      ⊎ ((target < group.uncompressed_len + l)
          × ((rest : List SolidGroupPlan) × (plan_loop target
                  (index + 1)
                  (some (new_plan index 1 l))
                  ls
                ≡ ok rest)
              × (gs ≡ group ∷ rest)))
unfolding plan_loop
loop-inv target index group l ls gs e =
    elim (Bool-cases (leb (group.uncompressed_len + l) target)) [
      | inl fits ↦ inl (ground arith, ground arith)
      | inr full ↦
          elim (Result-cases (plan_loop target (index + 1) (some (new_plan index 1 l)) ls)) [
            | inl (rest, q) ↦ inr (ground arith, (rest, q, ground arith))
            | inr (x, q) ↦ absurd (ground arith)
          ]
    ]

extend_Holds :
    (target index : ℕ) (g : SolidGroupPlan) (taken : List ℕ) (l : ℕ)
    → Holds target index g taken
    → g.uncompressed_len + l ≤ target
    → Holds target
        (index + 1)
        (record g { item_count = g.item_count + 1; uncompressed_len = g.uncompressed_len + l })
        (taken ++ l ∷ [])
extend_Holds target index g taken l h fits = record {
  begins = omega (arith, h.begins);
  some_items = omega arith;
  counted = omega (arith, length-append taken (l ∷ []), h.counted);
  summed = omega (arith, sum-append taken (l ∷ []), h.summed);
  fits = λ _. fits;
}

begin_Holds : (target index l : ℕ) → Holds target (index + 1) (new_plan index 1 l) (l ∷ [])
begin_Holds target index l = record {
  begins = refl;
  some_items = omega arith;
  counted = refl;
  summed = omega arith;
  fits = λ h. absurd (omega arith);
}

-- A group in front of those that cover what it left.
module _ (target index : ℕ) (g : SolidGroupPlan) (taken : List ℕ)
    (h : Holds target index g taken) where
  Covers-cons :
      (left : List ℕ) (gs : List SolidGroupPlan)
      → Covers index left gs
      → Covers g.first_item (taken ++ left) (g ∷ gs)
  Covers-cons left gs c = (
    refl,
    h.some_items,
    omega (arith, length-append taken left, h.counted),
    h.summed ∙ ap sum (sym (take-append taken left g.item_count h.counted)),
    subst (λ i. Covers i (drop g.item_count (taken ++ left)) gs) (sym h.begins)
        (subst (λ ls. Covers index ls gs) (sym (drop-append taken left g.item_count h.counted)) c),
  )

  IsGreedy-cons :
      (left : List ℕ) (gs : List SolidGroupPlan)
      → (gs ≢ [] → target < sum (take (g.item_count + 1) (taken ++ left)))
      → IsGreedy target left gs
      → IsGreedy target (taken ++ left) (g ∷ gs)
  IsGreedy-cons left gs next i = (
    h.fits,
    next,
    subst (λ ls. IsGreedy target ls gs) (sym (drop-append taken left g.item_count h.counted)) i,
  )

  full_group :
      (l : ℕ) (ls : List ℕ)
      → target < g.uncompressed_len + l
      → target < sum (take (g.item_count + 1) (taken ++ l ∷ ls))
  full_group l ls full =
      let here : take (g.item_count + 1) (taken ++ l ∷ ls) ≡ taken ++ l ∷ [] =
        ap (take (g.item_count + 1)) (sym (append_assoc taken (l ∷ []) ls))
        ∙ take-append (taken ++ l ∷ []) ls (g.item_count + 1)
            (omega (arith, length-append taken (l ∷ []), h.counted)) in
      rw here (omega (arith, sum-append taken (l ∷ []), h.summed))

plan_loop-Covers :
    (target index : ℕ) (g : SolidGroupPlan) (taken ls : List ℕ) (gs : List SolidGroupPlan)
    → Holds target index g taken
    → plan_loop target index (some g) ls ≡ ok gs
    → Covers g.first_item (taken ++ ls) gs × IsGreedy target (taken ++ ls) gs
plan_loop-Covers target index g taken [] gs h e =
    let one : g ∷ [] ≡ gs = unfold plan_loop in ground arith in
    subst (λ xs. Covers g.first_item (taken ++ []) xs × IsGreedy target (taken ++ []) xs) one
      (
        Covers-cons target index g taken h [] [] refl,
        IsGreedy-cons target index g taken h [] [] (λ n. absurd (n refl)) tt,
      )
plan_loop-Covers target index g taken (l ∷ ls) gs h e = elim (loop-inv target index g l ls gs e) [
  | inl (fits, q) ↦
      subst (λ xs. Covers g.first_item xs gs × IsGreedy target xs gs)
        (append_assoc taken (l ∷ []) ls)
        (plan_loop-Covers target (index + 1) _ (taken ++ l ∷ []) ls gs
          (extend_Holds target index g taken l h fits) q)
  | inr (full, (rest, q, shape)) ↦
      let ih =
        plan_loop-Covers target (index + 1) (new_plan index 1 l) (l ∷ []) ls rest
          (begin_Holds target index l) q in
      subst (λ xs. Covers g.first_item (taken ++ l ∷ ls) xs × IsGreedy target (taken ++ l ∷ ls) xs)
        (sym shape)
        (
          Covers-cons target index g taken h (l ∷ ls) rest ih.0,
          IsGreedy-cons target index g taken h (l ∷ ls) rest
              (λ _. full_group target index g taken h l ls full) ih.1,
        )
]

plan-Covers :
    (target : ℕ) (lengths : List ℕ) (gs : List SolidGroupPlan)
    → plan_loop target 0 none lengths ≡ ok gs
    → Covers 0 lengths gs × IsGreedy target lengths gs
plan-Covers target [] gs e =
    let empty : [] ≡ gs = unfold plan_loop in ground arith in
    subst (λ xs. Covers 0 [] xs × IsGreedy target [] xs) empty (refl, tt)
plan-Covers target (l ∷ ls) gs e =
    plan_loop-Covers target 1 (new_plan 0 1 l) (l ∷ []) ls gs (begin_Holds target 0 l)
      (unfold plan_loop in e)

raw_groups-Covers : (index : ℕ) (lengths : List ℕ) → Covers index lengths (raw_groups index lengths)
unfolding raw_groups
raw_groups-Covers index [] = refl
raw_groups-Covers index (l ∷ ls) =
    (refl, omega arith, omega arith, omega arith, raw_groups-Covers (index + 1) ls)

-- Whatever the profile, the planned groups take all items in order, each into exactly one group.
pub plan_solid_groups-Covers :
    (profile : CompressionProfile) (lengths : List ℕ) (gs : List SolidGroupPlan)
    → plan_solid_groups profile lengths ≡ ok gs
    → Covers 0 lengths gs
unfolding plan_solid_groups
plan_solid_groups-Covers raw lengths gs e =
    let same : raw_groups 0 lengths ≡ gs = ground arith in
    subst (Covers 0 lengths) same (raw_groups-Covers 0 lengths)
plan_solid_groups-Covers profile lengths gs e =
    (plan-Covers (solid_group_target profile) lengths gs e).0

-- For a compressing profile the plan is greedy: a group of several items fits the target, and a
-- group that another follows would have passed it with the next item.
pub plan_solid_groups-IsGreedy :
    (profile : CompressionProfile) (lengths : List ℕ) (gs : List SolidGroupPlan)
    → profile ≢ raw
    → plan_solid_groups profile lengths ≡ ok gs
    → IsGreedy (solid_group_target profile) lengths gs
unfolding plan_solid_groups
plan_solid_groups-IsGreedy raw lengths gs n e = absurd (n refl)
plan_solid_groups-IsGreedy profile lengths gs n e =
    (plan-Covers (solid_group_target profile) lengths gs e).1
