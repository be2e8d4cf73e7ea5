-- ===== src/Daemon/Registry/Queries.antt =====
-- crates/pithos-daemon/src/store.rs: the calls that read the registry.
pub mod Later
use pithos.Prelude.{ℕ, not, List, [], ◌∷◌, ltb, if◌then◌else◌}
use pithos.AgentApi.{RpcResult, ok, ◌>>=◌}
use pithos.AgentApi.Jobs.{is_terminal, ProgressEvent, JobSnapshot}
use pithos.Daemon.Limits.{JobLimits}
use pithos.Daemon.Lane.{JobPriority}
use pithos.Daemon.Registry.{StoredJob, StoredOperation}
use pithos.Daemon.Registry.Storage.{JobRegistry}
use pithos.Daemon.Registry.Calls.{owned_job}

unfoldable pub snapshot_of : StoredJob → JobSnapshot
snapshot_of job = record {
  job_id = job.job_id;
  state = job.state;
  operation = job.method;
  created_at_unix_ms = job.created_at_unix_ms;
  updated_at_unix_ms = job.updated_at_unix_ms;
  result = job.result;
  error = job.error;
}

unfoldable pub snapshot : JobRegistry → List ℕ → List ℕ → RpcResult JobSnapshot
snapshot registry owner job_id =
    owned_job registry.state owner job_id >>= λ job. ok (snapshot_of job)

-- `events.iter().filter(|event| event.sequence > after_sequence)`
unfoldable pub events_after : ℕ → List ProgressEvent → List ProgressEvent
events_after after_sequence [] = []
events_after after_sequence (e ∷ es) =
    let rest = events_after after_sequence es in
    if ltb after_sequence e.sequence then e ∷ rest else rest

unfoldable pub events : JobRegistry → List ℕ → List ℕ → ℕ → RpcResult (List ProgressEvent)
events registry owner job_id after_sequence =
    owned_job registry.state owner job_id >>= λ job. ok (events_after after_sequence job.events)

unfoldable pub operation :
    JobRegistry → List ℕ → List ℕ → RpcResult (StoredOperation × JobLimits × JobPriority)
operation registry owner job_id =
    owned_job registry.state owner job_id >>= λ job. ok (job.operation, job.limits, job.priority)

unfoldable pub nonterminal : List (List ℕ × StoredJob) → List (List ℕ × List ℕ)
nonterminal [] = []
nonterminal (e ∷ es) =
    let rest = nonterminal es in
    if not (is_terminal e.1.state) then (e.1.owner, e.1.job_id) ∷ rest else rest

unfoldable pub nonterminal_jobs : JobRegistry → List (List ℕ × List ℕ)
nonterminal_jobs registry = nonterminal registry.state.jobs
