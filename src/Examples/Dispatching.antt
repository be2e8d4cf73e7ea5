-- ===== src/Examples/Dispatching.antt =====
-- The choice of the next task at a concrete input.
use pithos.Prelude.{ℕ, ◌≡◌, refl, Option, none, some, List, [], ◌∷◌, get_elem?, arith}
use pithos.Engine.Dispatch.{
  JobPriority, interactive_read, benchmark, rank, all_completed, PendingTask, least_ready,
  next_ready_task,
}
use pithos.Engine.Dispatch.Least.{CanStart, ComesFirst, next_ready_task_least}

abbrev waiting : ℕ → JobPriority → List ℕ → PendingTask
waiting id priority dependencies = record {
  task = record {
    task_id = id;
    priority = priority;
    dependencies = dependencies;
    resources = record { input_bytes = 10; scratch_bytes = 0; output_bound = 0 };
  };
  memory = 10;
}

-- A task that runs, one whose dependency runs, and two that can start.
abbrev four_tasks : List (Option PendingTask)
four_tasks =
    none
    ∷ some (waiting 1 interactive_read (7 ∷ []))
    ∷ some (waiting 3 benchmark [])
    ∷ some (waiting 2 benchmark [])
    ∷ []

chosen : next_ready_task four_tasks [] 10 ≡ some 3
unfolding next_ready_task least_ready all_completed rank
chosen = refl

next_ready_task_least_example :
    (i : ℕ) × (q : PendingTask) × (next_ready_task four_tasks [] 10 ≡ some i)
    × (get_elem? four_tasks i ≡ some (some q))
    × CanStart [] 10 q
    × ComesFirst q (waiting 3 benchmark [])
next_ready_task_least_example =
    next_ready_task_least four_tasks [] 10 2 (waiting 3 benchmark []) refl (omega arith)
