-- ===== src/Examples/Lanes.antt =====
-- A lane of the daemon's scheduler at concrete inputs.
use pithos.Prelude.{ℕ, ◌+◌, ◌≡◌, refl, subst, Bool, true, none, some, List, [], ◌∷◌, ◌++◌}
use pithos.Format.Same.{same_bytes}
use pithos.Daemon.Lane.{
  ScheduledJob, interactive_read, Session, PriorityLane, default_lane, contains_key, get_queue,
  set_queue, remove_session, push_job, push_lane, serve, pop_loop, pop_lane,
}
use pithos.Daemon.Lane.Kept.{load, taken, pop_lane-load}
use pithos.Daemon.Lane.Invariant.{IsLane, push_lane-IsLane, pop_lane-IsLane}
use pithos.Daemon.Lane.Fair.{turn, pop_lane_first}

abbrev job_of : ℕ → ℕ → ScheduledJob
job_of owner number = record {
  owner = owner ∷ [];
  job_id = number ∷ [];
  priority = interactive_read;
  deadline_unix_ms = none;
}

abbrev two_owners : List Session
two_owners =
    record { owner = 1 ∷ []; queue = job_of 1 1 ∷ job_of 1 2 ∷ [] }
    ∷ record { owner = 2 ∷ []; queue = job_of 2 100 ∷ [] }
    ∷ []

abbrev lane_order : List (List ℕ)
lane_order = (1 ∷ []) ∷ (2 ∷ []) ∷ []

abbrev two_owner_lane : PriorityLane
two_owner_lane = record { sessions = two_owners; order = lane_order }

-- Two owners take turns.
turns : (pop_lane (pop_lane two_owner_lane).1).0 ≡ some (job_of 2 100)
unfolding pop_lane pop_loop serve get_queue set_queue remove_session same_bytes
turns = refl

pushed :
    push_lane (push_lane (push_lane default_lane (job_of 1 1)) (job_of 1 2)) (job_of 2 100)
    ≡ two_owner_lane
unfolding push_lane push_job contains_key same_bytes
pushed = refl

empty-IsLane : IsLane default_lane
empty-IsLane = record {
  have_jobs = tt;
  owners = tt;
  once = tt;
  agree = λ owner. unfold contains_key in refl;
}

abbrev any_job : ScheduledJob → Bool
any_job job = true

two_owner-IsLane : IsLane two_owner_lane
two_owner-IsLane = subst IsLane pushed (
    push_lane-IsLane (push_lane (push_lane default_lane (job_of 1 1)) (job_of 1 2)) (job_of 2 100) (
      push_lane-IsLane (push_lane default_lane (job_of 1 1)) (job_of 1 2)
        (push_lane-IsLane default_lane (job_of 1 1) empty-IsLane)))

pop_lane-IsLane_example : IsLane (pop_lane two_owner_lane).1
pop_lane-IsLane_example = pop_lane-IsLane two_owner_lane two_owner-IsLane

pop_lane-load_example :
    load any_job two_owners
    ≡ taken any_job (pop_lane two_owner_lane).0 + load any_job (pop_lane two_owner_lane).1.sessions
pop_lane-load_example = pop_lane-load any_job two_owner_lane

pop_lane_first_example :
    (job : ScheduledJob) × (queue : List ScheduledJob) × (get_queue two_owners (1 ∷ [])
      ≡ some (job ∷ queue))
    × ((pop_lane two_owner_lane).0 ≡ some job)
    × ((pop_lane two_owner_lane).1.order ≡ ((2 ∷ []) ∷ []) ++ turn (1 ∷ []) queue)
pop_lane_first_example = pop_lane_first two_owners (1 ∷ []) ((2 ∷ []) ∷ []) two_owner-IsLane
