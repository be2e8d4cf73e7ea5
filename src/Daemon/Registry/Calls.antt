-- ===== src/Daemon/Registry/Calls.antt =====
-- crates/pithos-daemon/src/store.rs: the calls on one job of an owner, which lock the registry, change the
-- job and commit the whole state.
pub mod Owned
pub mod Stepped
pub mod Completed
pub mod Unsettled
use pithos.Prelude.{ℕ, not, Option, none, some, List, String, if◌then◌else◌}
use pithos.Format.Same.{same_bytes}
use pithos.AgentApi.{
  Value, JsonRpcError, job_conflict, domain, RpcResult, ok, err, ◌>>◌, ◌>>=◌, bail_if, ok_or,
}
use pithos.AgentApi.Jobs.{ApiJobState}
use pithos.Daemon.Registry.{StoredJob, PersistentState, ArchiveIdentity, internal, job_not_found}
use pithos.Daemon.Registry.Maps.{get_key, set_key}
use pithos.Daemon.Registry.Markers.{pack_output, verified_archive_identity}
use pithos.Daemon.Registry.Storage.{World, JobRegistry, commit}
use pithos.Daemon.Registry.Operations.{
  transition_job, cancel_job, finish_cancelled_job, complete_job, fail_job, can_publish,
  publication_job,
}

-- `.filter(|job| &job.owner == owner)`
unfoldable pub owned_by : List ℕ → Option StoredJob → Option StoredJob
owned_by owner none = none
owned_by owner (some job) = if same_bytes job.owner owner then some job else none

unfoldable pub owned_job : PersistentState → List ℕ → List ℕ → RpcResult StoredJob
owned_job state owner job_id = ok_or (owned_by owner (get_key state.jobs job_id)) job_not_found

-- `*job = next` in a copy of the state.
unfoldable pub with_job : PersistentState → List ℕ → StoredJob → PersistentState
with_job state job_id job = record state { jobs = set_key state.jobs job_id job }

abbrev storage_unhealthy : JsonRpcError
storage_unhealthy = internal "job registry storage is unhealthy"

-- Behind the closure of an update; a call may return a value that the closure has set.
unfoldable pub apply_update {ℓ} :
    {R : Type ℓ}
    → World
    → JobRegistry
    → List ℕ
    → RpcResult (StoredJob × R)
    → RpcResult R × JobRegistry
apply_update world registry job_id (err error) = (err error, registry)
apply_update world registry job_id (ok (job, answer)) =
    let (done, next) = commit world registry (with_job registry.state job_id job) in
    (done >> ok answer, next)

unfoldable pub update_found {ℓ} :
    {R : Type ℓ}
    → World
    → JobRegistry
    → List ℕ
    → (StoredJob → RpcResult (StoredJob × R))
    → RpcResult StoredJob
    → RpcResult R × JobRegistry
update_found world registry job_id update (err error) = (err error, registry)
update_found world registry job_id update (ok job) = apply_update world registry job_id (update job)

unfoldable pub update_owned {ℓ} :
    {R : Type ℓ}
    → World
    → JobRegistry
    → List ℕ
    → List ℕ
    → (StoredJob → RpcResult (StoredJob × R))
    → RpcResult R × JobRegistry
update_owned world registry owner job_id update =
    if not registry.healthy
    then (err storage_unhealthy, registry)
    else update_found world registry job_id update (owned_job registry.state owner job_id)

-- A closure that returns `()`.
unfoldable pub quietly :
    (StoredJob → RpcResult StoredJob) → StoredJob → RpcResult (StoredJob × Unit {0})
quietly update job = update job >>= λ next. ok (next, tt)

unfoldable pub transition :
    World
    → JobRegistry
    → List ℕ
    → List ℕ
    → ApiJobState
    → String
    → RpcResult (Unit {0}) × JobRegistry
transition world registry owner job_id state phase =
    update_owned world registry owner job_id
      (quietly (transition_job world state phase registry.policy.max_events_per_job))

unfoldable pub request_cancel :
    World → JobRegistry → List ℕ → List ℕ → RpcResult ApiJobState × JobRegistry
request_cancel world registry owner job_id = update_owned world registry owner job_id (λ job.
    cancel_job world registry.policy.max_events_per_job job >>= λ next. ok (next, next.state))

unfoldable pub finish_cancelled :
    World → JobRegistry → List ℕ → List ℕ → RpcResult (Unit {0}) × JobRegistry
finish_cancelled world registry owner job_id =
    update_owned world registry owner job_id
      (quietly (finish_cancelled_job world registry.policy.max_events_per_job))

unfoldable pub complete :
    World → JobRegistry → List ℕ → List ℕ → Value → RpcResult (Unit {0}) × JobRegistry
complete world registry owner job_id result =
    update_owned world registry owner job_id
      (quietly (complete_job world result registry.policy.max_events_per_job))

unfoldable pub fail :
    World → JobRegistry → List ℕ → List ℕ → JsonRpcError → RpcResult (Unit {0}) × JobRegistry
fail world registry owner job_id error =
    update_owned world registry owner job_id
      (quietly (fail_job world error registry.policy.max_events_per_job))

-- The output of a pack job that runs, read before the archive is verified.
unfoldable pub publication_output : StoredJob → RpcResult (List ℕ)
publication_output job =
    bail_if (not (can_publish job.state))
      (domain job_conflict "pack publication cannot be recorded from current state")
    >> ok_or (pack_output job.operation) (domain job_conflict "job is not a pack operation")

unfoldable pub publish_identified :
    World
    → JobRegistry
    → List ℕ
    → List ℕ
    → RpcResult (List ℕ × ArchiveIdentity)
    → RpcResult (Unit {0}) × JobRegistry
publish_identified world registry owner job_id (err error) = (err error, registry)
publish_identified world registry owner job_id (ok (output, identity)) =
    update_owned world registry owner job_id
      (quietly (publication_job world output identity registry.policy.max_events_per_job))

-- `identify` is called between the two looks at the job, outside the lock of changes. `later` is the
-- registry at the second look, which other calls may have changed.
unfoldable pub record_pack_publication_with :
    World
    → JobRegistry
    → JobRegistry
    → List ℕ
    → List ℕ
    → (List ℕ → RpcResult ArchiveIdentity)
    → RpcResult (Unit {0}) × JobRegistry
record_pack_publication_with world registry later owner job_id identify =
    publish_identified world later owner job_id (
      owned_job registry.state owner job_id >>= λ job.
      publication_output job >>= λ output. identify output >>= λ identity. ok (output, identity))

unfoldable pub record_pack_publication :
    World → JobRegistry → JobRegistry → List ℕ → List ℕ → RpcResult (Unit {0}) × JobRegistry
record_pack_publication world registry later owner job_id =
    record_pack_publication_with world registry later owner job_id
      (verified_archive_identity world.verify)
