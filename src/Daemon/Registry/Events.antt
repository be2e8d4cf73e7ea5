-- ===== src/Daemon/Registry/Events.antt =====
-- crates/pithos-daemon/src/store.rs: the event history of a job, its append and its trimming.
pub mod Appended
use pithos.Prelude.{
  ℕ, ◌-◌, Bool, true, false, ◌||◌, some, List, [], ◌∷◌, ◌++◌, String, length, drop, ◌==◌,
  if◌then◌else◌,
}
use pithos.Core.Checked.{checked_add}
use pithos.AgentApi.{RpcResult, ok, ◌>>=◌, ok_or, resource_limit_error}
use pithos.AgentApi.Jobs.{ApiJobState, is_terminal, ProgressEvent}
use pithos.Daemon.Registry.{StoredJob, StorePolicy, PersistentState}

-- What comes back with the job is whether it has changed.
unfoldable pub trim_event_history : StoredJob → ℕ → StoredJob × Bool
trim_event_history job maximum_events =
    let overflow = length job.events - maximum_events in
    if overflow == 0 then (job, false) else (record job { events = drop overflow job.events }, true)

-- `u64::from(state.is_terminal())`
unfoldable pub units_of : ApiJobState → ℕ
units_of state = if is_terminal state then 1 else 0

-- The event of the present state and time.
unfoldable pub event_of : StoredJob → ℕ → String → ProgressEvent
event_of job now phase = record {
  job_id = job.job_id;
  sequence = job.next_sequence;
  state = job.state;
  phase = phase;
  completed_units = units_of job.state;
  total_units = some 1;
  occurred_at_unix_ms = now;
}

-- The time that `unix_ms` gives is the second argument.
unfoldable pub append_event : StoredJob → ℕ → String → ℕ → RpcResult StoredJob
append_event job now phase maximum_events =
    ok_or (checked_add job.next_sequence 1) (resource_limit_error "job event sequence exhausted")
    >>= λ next. ok (
        (trim_event_history
          (record job {
            next_sequence = next;
            updated_at_unix_ms = now;
            events = job.events ++ (event_of job now phase ∷ []);
          })
          maximum_events).0)

unfoldable pub trim_jobs : List (List ℕ × StoredJob) → ℕ → List (List ℕ × StoredJob) × Bool
trim_jobs [] maximum_events = ([], false)
trim_jobs (e ∷ es) maximum_events =
    let (job, changed) = trim_event_history e.1 maximum_events in
    let (rest, others) = trim_jobs es maximum_events in ((e.0, job) ∷ rest, changed || others)

unfoldable pub trim_retained_events : PersistentState → StorePolicy → PersistentState × Bool
trim_retained_events state policy =
    let (jobs, changed) = trim_jobs state.jobs policy.max_events_per_job in
    (record state { jobs = jobs }, changed)
