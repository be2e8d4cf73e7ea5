-- ===== src/Daemon/Registry/Submission.antt =====
-- crates/pithos-daemon/src/store.rs: `submit_with_limit`, with its idempotent replay.
pub mod Admission
pub mod Admitted
pub mod Replayed
use pithos.Prelude.{
  ℕ, suc, ◌-◌, Bool, true, false, not, ◌||◌, ◌&&◌, Option, none, some, List, [], ◌∷◌, length, leb,
  ◌==◌, if◌then◌else◌,
}
use pithos.Core.Checked.{checked_add, u64_end}
use pithos.Format.Same.{same_bytes}
use pithos.AgentApi.{
  job_conflict, domain, resource_limit_error, RpcResult, ok, err, ◌>>◌, ◌>>=◌, bail_if, ok_or,
}
use pithos.AgentApi.Ids.{new_id, job_prefix}
use pithos.AgentApi.Jobs.{queued, is_terminal, JobAccepted}
use pithos.Daemon.Lane.{
  JobPriority, interactive_read, interactive_extract, verify_requested, pack_foreground,
  pack_background, benchmark,
}
use pithos.Daemon.Registry.{StoredJob, JobSubmission, PersistentState, internal}
use pithos.Daemon.Registry.Maps.{get_key, insert_key}
use pithos.Daemon.Registry.Identifiers.{
  format_job_id, idempotency_map_key, validate_idempotency_key,
}
use pithos.Daemon.Registry.Events.{append_event}
use pithos.Daemon.Registry.Validation.{same_method}
use pithos.Daemon.Registry.Storage.{World, JobRegistry, commit}

abbrev pub priority_number : JobPriority → ℕ
priority_number interactive_read = 0
priority_number interactive_extract = 1
priority_number verify_requested = 2
priority_number pack_foreground = 3
priority_number pack_background = 4
priority_number benchmark = 5

unfoldable pub same_priority : JobPriority → JobPriority → Bool
same_priority a b = priority_number a == priority_number b

-- The answer to a key that is known.
unfoldable pub replay : JobSubmission → RpcResult StoredJob → RpcResult JobAccepted
replay submission (err error) = err error
replay submission (ok existing) =
    bail_if
      (not (same_bytes existing.params_hash submission.params_hash)
        || not (same_method existing.method submission.method)
        || not (same_priority existing.priority submission.priority))
      (domain job_conflict "idempotency key has different parameters")
    >> ok (record { job_id = existing.job_id; state = existing.state; idempotent_replay = true })

-- `values().filter(|job| job.owner == owner && !job.state.is_terminal()).count()`
unfoldable pub nonterminal_of : List ℕ → List (List ℕ × StoredJob) → ℕ
nonterminal_of owner [] = 0
nonterminal_of owner (e ∷ es) =
    let rest = nonterminal_of owner es in
    if same_bytes e.1.owner owner && not (is_terminal e.1.state) then suc rest else rest

unfoldable pub new_job : World → JobSubmission → List ℕ → StoredJob
new_job world submission job_id = record {
  job_id = job_id;
  owner = submission.owner;
  method = submission.method;
  priority = submission.priority;
  idempotency_key = submission.idempotency_key;
  params_hash = submission.params_hash;
  limits = submission.limits;
  operation = submission.operation;
  state = queued;
  created_at_unix_ms = world.now;
  updated_at_unix_ms = world.now;
  result = none;
  error = none;
  events = [];
  next_sequence = 1;
  pack_publication = none;
}

-- The state with the new job, and the identifier of the job.
unfoldable pub admit :
    World → JobRegistry → JobSubmission → ℕ → RpcResult (PersistentState × List ℕ)
admit world registry submission max_nonterminal_for_owner =
    let state = registry.state in
    let key = idempotency_map_key submission.owner submission.idempotency_key in
    bail_if (leb registry.policy.max_retained_jobs (length state.jobs))
      (resource_limit_error "job retention capacity exceeded")
    >> bail_if (leb max_nonterminal_for_owner (nonterminal_of submission.owner state.jobs))
        (resource_limit_error "session job quota exceeded")
    >> (new_id job_prefix (format_job_id state.next_job) >>= λ job_id.
        ok_or (checked_add state.next_job 1) (resource_limit_error "job id space exhausted")
        >>= λ next_job.
            append_event (new_job world submission job_id) (world.stamp job_id) "queued"
              registry.policy.max_events_per_job
            >>= λ job. ok (
              record state {
                next_job = next_job;
                idempotency = insert_key state.idempotency key job_id;
                jobs = insert_key state.jobs job_id job;
              },
              job_id,
            ))

unfoldable pub commit_admitted :
    World → JobRegistry → RpcResult (PersistentState × List ℕ) → RpcResult JobAccepted × JobRegistry
commit_admitted world registry (err error) = (err error, registry)
commit_admitted world registry (ok (state, job_id)) =
    let (done, next) = commit world registry state in
    (done >> ok (record { job_id = job_id; state = queued; idempotent_replay = false }), next)

-- `next.idempotency.get(&key)`
unfoldable pub submit_indexed :
    World → JobRegistry → JobSubmission → ℕ → Option (List ℕ) → RpcResult JobAccepted × JobRegistry
submit_indexed world registry submission most (some existing_id) = (
  replay submission
      (ok_or (get_key registry.state.jobs existing_id) (internal "idempotency index is corrupt")),
  registry,
)
submit_indexed world registry submission most none =
    commit_admitted world registry (admit world registry submission most)

-- The checks before the index is asked.
unfoldable pub may_submit : JobRegistry → JobSubmission → RpcResult (Unit {0})
may_submit registry submission =
    bail_if registry.closed (domain job_conflict "job registry is closed")
    >> bail_if (not registry.healthy) (internal "job registry storage is unhealthy")
    >> validate_idempotency_key submission.idempotency_key

unfoldable pub submit_checked :
    World
    → JobRegistry
    → JobSubmission
    → ℕ
    → RpcResult (Unit {0})
    → RpcResult JobAccepted × JobRegistry
submit_checked world registry submission most (err error) = (err error, registry)
submit_checked world registry submission most (ok done) =
    submit_indexed world registry submission most (
      get_key registry.state.idempotency
        (idempotency_map_key submission.owner submission.idempotency_key))

unfoldable pub submit_with_limit :
    World → JobRegistry → JobSubmission → ℕ → RpcResult JobAccepted × JobRegistry
submit_with_limit world registry submission max_nonterminal_for_owner =
    submit_checked world registry submission max_nonterminal_for_owner
      (may_submit registry submission)

-- The limit is `usize::MAX`.
unfoldable pub submit : World → JobRegistry → JobSubmission → RpcResult JobAccepted × JobRegistry
submit world registry submission = submit_with_limit world registry submission (u64_end - 1)
