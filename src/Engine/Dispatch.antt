-- ===== src/Engine/Dispatch.antt =====
-- crates/pithos-engine/src/scheduler.rs: the resources of a task and `next_ready_task`. The action of
-- a task is left out, since nothing here runs it; the set of the completed ids is a list.
pub mod Least
use pithos.Prelude.{
  ℕ, ◌+◌, Bool, true, false, ◌||◌, ◌&&◌, Option, none, some, List, [], ◌∷◌, contains, ltb, leb,
  ◌==◌, if◌then◌else◌,
}
use pithos.Core.{Result, ok, ◌>>=◌, ok_or, integer_overflow}
use pithos.Core.Checked.{checked_add}

pub data JobPriority : Type 0 where
  interactive_read interactive_extract verify_requested pack_foreground pack_background benchmark :
      JobPriority

unfoldable pub rank : JobPriority → ℕ
rank interactive_read = 0
rank interactive_extract = 1
rank verify_requested = 2
rank pack_foreground = 3
rank pack_background = 4
rank benchmark = 5

pub record ResourceEstimate : Type 0 where
  pub input_bytes : ℕ
  pub scratch_bytes : ℕ
  pub output_bound : ℕ

unfoldable pub total_resources : ResourceEstimate → Result ℕ
total_resources r = do
  value ← ok_or (checked_add r.input_bytes r.scratch_bytes) integer_overflow
  ok_or (checked_add value r.output_bound) integer_overflow

pub record ScheduledTask : Type 0 where
  pub task_id : ℕ
  pub priority : JobPriority
  pub dependencies : List ℕ
  pub resources : ResourceEstimate

-- A task that waits, with the memory reserved for it.
pub record PendingTask : Type 0 where
  pub task : ScheduledTask
  pub memory : ℕ

-- `dependencies.iter().all(|dependency| completed.contains(dependency))`
unfoldable pub all_completed : List ℕ → List ℕ → Bool
all_completed completed [] = true
all_completed completed (d ∷ ds) = contains completed d && all_completed completed ds

abbrev pub is_ready : List ℕ → ℕ → PendingTask → Bool
is_ready completed available_memory p =
    leb p.memory available_memory && all_completed completed p.task.dependencies

-- The order of the keys `(rank, task_id)`.
abbrev pub key_le : PendingTask → PendingTask → Bool
key_le p q =
    ltb (rank p.task.priority) (rank q.task.priority)
    || (rank p.task.priority == rank q.task.priority && leb p.task.task_id q.task.task_id)

-- A ready task with its index.
pub record Candidate : Type 0 where
  pub pending : PendingTask
  pub index : ℕ

-- `min_by_key` keeps the first of the least.
abbrev pub first_least : Candidate → Option Candidate → Candidate
first_least c none = c
first_least c (some d) = if key_le c.pending d.pending then c else d

-- `enumerate`, `filter_map` and `min_by_key`, from an index on.
unfoldable pub least_ready : List ℕ → ℕ → ℕ → List (Option PendingTask) → Option Candidate
least_ready completed available_memory index [] = none
least_ready completed available_memory index (none ∷ rest) =
    least_ready completed available_memory (index + 1) rest
least_ready completed available_memory index (some p ∷ rest) =
    let later = least_ready completed available_memory (index + 1) rest in
    if is_ready completed available_memory p
    then some (first_least (record { pending = p; index = index }) later)
    else later

abbrev pub index_of : Option Candidate → Option ℕ
index_of none = none
index_of (some c) = some c.index

unfoldable pub next_ready_task : List (Option PendingTask) → List ℕ → ℕ → Option ℕ
next_ready_task pending completed available_memory =
    index_of (least_ready completed available_memory 0 pending)
