-- ===== src/Engine/Dispatch/Least.antt =====
-- `next_ready_task`, and the tasks that can start.
use pithos.Prelude.{
  ℕ, zero, suc, ◌+◌, ◌≡◌, refl, sym, ap, subst, ◌∙◌, ◌⊎◌, inl, inr, true, false, Option, none, some,
  List, [], ◌∷◌, arith, get_elem?, Bool-cases, ◌≤◌, ◌<◌, ◌↔◌, All, contains, &&-left, &&-right,
}
use pithos.Prelude.Sums.{plus_zero, plus_suc, zero_plus}
use pithos.Engine.Dispatch.{
  JobPriority, interactive_read, interactive_extract, verify_requested, pack_foreground,
  pack_background, benchmark, PendingTask, rank, all_completed, is_ready, key_le, Candidate,
  first_least, least_ready, index_of, next_ready_task,
}

key_le_refl : (p : PendingTask) → key_le p p ≡ true
key_le_refl p = ground arith

key_le_trans : (p q r : PendingTask) → key_le p q ≡ true → key_le q r ≡ true → key_le p r ≡ true
key_le_trans p q r h k = ground arith

key_le_total : (p q : PendingTask) → key_le p q ≡ false → key_le q p ≡ true
key_le_total p q h = ground arith

-- The candidate stands in the row, which begins at `base`, and can start.
abbrev IsCandidate : List ℕ → ℕ → ℕ → List (Option PendingTask) → Candidate → Type 0
IsCandidate completed memory base pending c =
    (i : ℕ) × (c.index ≡ base + i)
    × (get_elem? pending i ≡ some (some c.pending))
    × (is_ready completed memory c.pending ≡ true)

-- There is a candidate, and its key is at most that of `p`.
abbrev Finds : List ℕ → ℕ → ℕ → List (Option PendingTask) → PendingTask → Type 0
Finds completed memory base pending p =
    (c : Candidate) × (least_ready completed memory base pending ≡ some c)
    × (key_le c.pending p ≡ true)

first_least_either :
    (me : Candidate) (later : Option Candidate) (c : Candidate)
    → first_least me later ≡ c
    → (me ≡ c) ⊎ (later ≡ some c)
first_least_either me none c h = inl h
first_least_either me (some d) c h = elim (Bool-cases (key_le me.pending d.pending)) [
  | inl le ↦ let same : me ≡ c = rw le at h in inl same
  | inr gt ↦ let same : d ≡ c = rw gt at h in inr (ap some same)
]

first_least_le_me :
    (me : Candidate) (later : Option Candidate)
    → key_le (first_least me later).pending me.pending ≡ true
first_least_le_me me none = key_le_refl me.pending
first_least_le_me me (some d) = elim (Bool-cases (key_le me.pending d.pending)) [
  | inl le ↦ rw le (key_le_refl me.pending)
  | inr gt ↦ rw gt (key_le_total me.pending d.pending gt)
]

first_least_le_later :
    (me d : Candidate) → key_le (first_least me (some d)).pending d.pending ≡ true
first_least_le_later me d = elim (Bool-cases (key_le me.pending d.pending)) [
  | inl le ↦ rw le le
  | inr gt ↦ rw gt (key_le_refl d.pending)
]

module _ (completed : List ℕ) (memory : ℕ) where
  least_ready-IsCandidate :
      (base : ℕ) (pending : List (Option PendingTask)) (c : Candidate)
      → least_ready completed memory base pending ≡ some c
      → IsCandidate completed memory base pending c
  unfolding least_ready
  least_ready-IsCandidate base [] c q = cc
  least_ready-IsCandidate base (none ∷ rest) c q =
      let (i, at, found, ready) = least_ready-IsCandidate (base + 1) rest c q in
      (suc i, at ∙ plus_suc base i, found, ready)
  least_ready-IsCandidate base (some p ∷ rest) c q =
      let me : Candidate = record { pending = p; index = base } in
      elim (Bool-cases (is_ready completed memory p)) [
        | inl ready ↦
            let chosen : some (first_least me (least_ready completed memory (base + 1) rest))
                ≡ some c =
              rw ready at q in
            let same : first_least me (least_ready completed memory (base + 1) rest) ≡ c = cc in
            elim (first_least_either me (least_ready completed memory (base + 1) rest) c same) [
              | inl it ↦
                  subst (IsCandidate completed memory base (some p ∷ rest)) it
                    (0, plus_zero base, refl, ready)
              | inr later ↦
                  let (i, at, found, r) = least_ready-IsCandidate (base + 1) rest c later in
                  (suc i, at ∙ plus_suc base i, found, r)
            ]
        | inr waits ↦
            let later : least_ready completed memory (base + 1) rest ≡ some c = rw waits at q in
            let (i, at, found, r) = least_ready-IsCandidate (base + 1) rest c later in
            (suc i, at ∙ plus_suc base i, found, r)
      ]

  least_ready-Finds :
      (base : ℕ) (pending : List (Option PendingTask)) (i : ℕ) (p : PendingTask)
      → get_elem? pending i ≡ some (some p)
      → is_ready completed memory p ≡ true
      → Finds completed memory base pending p
  unfolding least_ready
  least_ready-Finds base [] i p g r = cc
  least_ready-Finds base (none ∷ rest) zero p g r = cc
  least_ready-Finds base (none ∷ rest) (suc i) p g r = least_ready-Finds (base + 1) rest i p g r
  least_ready-Finds base (some a ∷ rest) zero p g r =
      let me : Candidate = record { pending = a; index = base } in
      let same : a ≡ p = cc in
      let ready : is_ready completed memory a ≡ true =
        subst (λ x. is_ready completed memory x ≡ true) (sym same) r in
      let later = least_ready completed memory (base + 1) rest in
      (
        first_least me later,
        rw ready refl,
        subst (λ x. key_le (first_least me later).pending x ≡ true) same
            (first_least_le_me me later),
      )
  least_ready-Finds base (some a ∷ rest) (suc i) p g r =
      let me : Candidate = record { pending = a; index = base } in
      let (d, found, le) = least_ready-Finds (base + 1) rest i p g r in
      elim (Bool-cases (is_ready completed memory a)) [
        | inl ready ↦ (
          first_least me (some d),
          rw (ready, found) refl,
          key_le_trans (first_least me (some d)).pending d.pending p (first_least_le_later me d) le,
        )
        | inr waits ↦ (d, rw waits found, le)
      ]

-- A task that fits the memory, with all its dependencies among the completed.
abbrev pub CanStart : List ℕ → ℕ → PendingTask → Type 0
CanStart completed available_memory p =
    (p.memory ≤ available_memory)
    × All (λ dependency. contains completed dependency ≡ true) p.task.dependencies

all_completed-All :
    (completed ds : List ℕ)
    → (all_completed completed ds ≡ true) ↔ All (λ d. contains completed d ≡ true) ds
unfolding all_completed
all_completed-All completed [] = (λ h. tt, λ h. refl)
all_completed-All completed (d ∷ ds) =
    let (sound, complete) = all_completed-All completed ds in
    (
      λ h. (&&-left (contains completed d) _ h, sound (&&-right (contains completed d) _ h)),
      λ h. rw (h.0, complete h.1) refl,
    )

is_ready-CanStart :
    (completed : List ℕ) (memory : ℕ) (p : PendingTask)
    → (is_ready completed memory p ≡ true) ↔ CanStart completed memory p
is_ready-CanStart completed memory p =
    let (sound, complete) = all_completed-All completed p.task.dependencies in
    (λ h. (ground arith, sound (ground arith)), λ h. let c = complete h.1 in ground arith)

-- The priorities, the most urgent first, and their order.
abbrev priorities : List JobPriority
priorities =
    interactive_read ∷ interactive_extract ∷ verify_requested ∷ pack_foreground ∷ pack_background
    ∷ benchmark ∷ []

abbrev Precedes : JobPriority → JobPriority → Type 0
Precedes a b =
    (i : ℕ) × (j : ℕ) × (get_elem? priorities i ≡ some a)
    × (get_elem? priorities j ≡ some b)
    × (i < j)

-- A more urgent priority, or the same priority and no greater id.
abbrev pub ComesFirst : PendingTask → PendingTask → Type 0
ComesFirst q p =
    Precedes q.task.priority p.task.priority
    ⊎ ((q.task.priority ≡ p.task.priority) × (q.task.task_id ≤ p.task.task_id))

rank-priorities : (a : JobPriority) → get_elem? priorities (rank a) ≡ some a
unfolding rank
rank-priorities interactive_read = refl
rank-priorities interactive_extract = refl
rank-priorities verify_requested = refl
rank-priorities pack_foreground = refl
rank-priorities pack_background = refl
rank-priorities benchmark = refl

key_le-ranks :
    (q p : PendingTask)
    → key_le q p ≡ true
    → (rank q.task.priority < rank p.task.priority)
      ⊎ ((rank q.task.priority ≡ rank p.task.priority) × (q.task.task_id ≤ p.task.task_id))
key_le-ranks q p h = ground arith

key_le-ComesFirst : (q p : PendingTask) → key_le q p ≡ true → ComesFirst q p
key_le-ComesFirst q p h =
    let at_q = rank-priorities q.task.priority in
    let at_p = rank-priorities p.task.priority in
    elim (key_le-ranks q p h) [
      | inl before ↦ inl (rank q.task.priority, rank p.task.priority, at_q, at_p, before)
      | inr (same, id) ↦ inr (one_priority (sym at_q ∙ ap (get_elem? priorities) same ∙ at_p), id)
    ]
  where
    one_priority : {a b : JobPriority} → some a ≡ some b → a ≡ b
    one_priority e = cc

-- As soon as a waiting task has its dependencies completed and its memory available, a task is chosen.
-- It is a waiting task with the same, and is of a more urgent priority than that one, or of the same
-- priority and no greater id.
pub next_ready_task_least :
    (pending : List (Option PendingTask)) (completed : List ℕ) (available_memory j : ℕ)
    (p : PendingTask)
    → get_elem? pending j ≡ some (some p)
    → CanStart completed available_memory p
    → (i : ℕ) × (q : PendingTask) × (next_ready_task pending completed available_memory ≡ some i)
      × (get_elem? pending i ≡ some (some q))
      × CanStart completed available_memory q
      × ComesFirst q p
unfolding next_ready_task
next_ready_task_least pending completed memory j p g starts =
    let r = (is_ready-CanStart completed memory p).1 starts in
    let (c, found, le) = least_ready-Finds completed memory 0 pending j p g r in
    let (i, at, there, ready) = least_ready-IsCandidate completed memory 0 pending c found in
    (
      i,
      c.pending,
      ap index_of found ∙ ap some (at ∙ zero_plus i),
      there,
      (is_ready-CanStart completed memory c.pending).0 ready,
      key_le-ComesFirst c.pending p le,
    )
