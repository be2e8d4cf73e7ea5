-- ===== src/Daemon/Lane.antt =====
-- crates/pithos-daemon/src/scheduler.rs: `ScheduledJob` and `PriorityLane`. A string is the list of its
-- bytes, and the `BTreeMap` of the queues is an association list whose keys are looked up from the
-- front.
pub mod Kept
pub mod Owners
pub mod Invariant
pub mod Fair
use pithos.Prelude.{
  ℕ, Bool, true, false, ◌||◌, Option, none, some, List, [], ◌∷◌, ◌++◌, if◌then◌else◌,
}
use pithos.Format.Same.{same_bytes}

pub data JobPriority : Type 0 where
  interactive_read interactive_extract verify_requested pack_foreground pack_background benchmark :
      JobPriority

pub record ScheduledJob : Type 0 where
  pub owner : List ℕ
  pub job_id : List ℕ
  pub priority : JobPriority
  pub deadline_unix_ms : Option ℕ

pub record Session : Type 0 where
  pub owner : List ℕ
  pub queue : List ScheduledJob

pub record PriorityLane : Type 0 where
  pub sessions : List Session
  pub order : List (List ℕ)

abbrev pub default_lane : PriorityLane
default_lane = record { sessions = []; order = [] }

-- `sessions.contains_key(&owner)`
unfoldable pub contains_key : List Session → List ℕ → Bool
contains_key [] owner = false
contains_key (s ∷ ss) owner = same_bytes s.owner owner || contains_key ss owner

-- `sessions.get(&owner)`
unfoldable pub get_queue : List Session → List ℕ → Option (List ScheduledJob)
get_queue [] owner = none
get_queue (s ∷ ss) owner = if same_bytes s.owner owner then some s.queue else get_queue ss owner

-- `*sessions.get_mut(&owner) = queue`
unfoldable pub set_queue : List Session → List ℕ → List ScheduledJob → List Session
set_queue [] owner queue = []
set_queue (s ∷ ss) owner queue =
    let rest = set_queue ss owner queue in
    if same_bytes s.owner owner then record s { queue = queue } ∷ ss else s ∷ rest

-- `sessions.remove(&owner)`
unfoldable pub remove_session : List Session → List ℕ → List Session
remove_session [] owner = []
remove_session (s ∷ ss) owner =
    let rest = remove_session ss owner in if same_bytes s.owner owner then ss else s ∷ rest

-- `sessions.entry(owner).or_default().push_back(job)`
unfoldable pub push_job : List Session → List ℕ → ScheduledJob → List Session
push_job [] owner job = record { owner = owner; queue = job ∷ [] } ∷ []
push_job (s ∷ ss) owner job =
    let rest = push_job ss owner job in
    if same_bytes s.owner owner then record s { queue = s.queue ++ (job ∷ []) } ∷ ss else s ∷ rest

unfoldable pub push_lane : PriorityLane → ScheduledJob → PriorityLane
push_lane lane job = record {
  sessions = push_job lane.sessions job.owner job;
  order =
      if contains_key lane.sessions job.owner then lane.order else lane.order ++ (job.owner ∷ []);
}

-- One round of the loop of `pop`, given what the loop does when it goes on after `None => continue`
-- and after it has removed a session without a job.
unfoldable pub serve :
    Option ScheduledJob × PriorityLane
    → Option ScheduledJob × PriorityLane
    → List Session
    → List ℕ
    → List (List ℕ)
    → Option (List ScheduledJob)
    → Option ScheduledJob × PriorityLane
serve continued removed sessions owner order none = continued
serve continued removed sessions owner order (some []) = removed
serve continued removed sessions owner order (some (job ∷ [])) =
    (some job, record { sessions = remove_session sessions owner; order = order })
serve continued removed sessions owner order (some (job ∷ next ∷ queue)) = (
  some job,
  record { sessions = set_queue sessions owner (next ∷ queue); order = order ++ (owner ∷ []) },
)

-- The loop recurs on the order: a round that does not return has taken an owner off it for good.
unfoldable pub pop_loop : List Session → List (List ℕ) → Option ScheduledJob × PriorityLane
pop_loop sessions [] = (none, record { sessions = sessions; order = [] })
pop_loop sessions (owner ∷ order) =
    let continued = pop_loop sessions order in
    let removed = pop_loop (remove_session sessions owner) order in
    serve continued removed sessions owner order (get_queue sessions owner)

unfoldable pub pop_lane : PriorityLane → Option ScheduledJob × PriorityLane
pop_lane lane = pop_loop lane.sessions lane.order

unfoldable pub is_empty_lane : PriorityLane → Bool
is_empty_lane lane = is_empty lane.order
  where
    is_empty : List (List ℕ) → Bool
    is_empty [] = true
    is_empty (o ∷ os) = false
