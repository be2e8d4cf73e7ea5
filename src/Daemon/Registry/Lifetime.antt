-- ===== src/Daemon/Registry/Lifetime.antt =====
-- crates/pithos-daemon/src/store.rs: the deadline of a job, the shutdown of the registry, and its recovery
-- from the file of the store.
pub mod Ended
pub mod Stopped
pub mod Closed
pub mod Recovered
use pithos.Prelude.{
  ℕ, Bool, true, false, not, ◌||◌, Option, none, some, List, [], ◌∷◌, if◌then◌else◌,
}
use pithos.AgentApi.{
  Value, string, object, no_fields, and_field, cancelled_kind, internal_kind, domain, RpcResult, ok,
  err, ◌>>◌, ◌>>=◌,
}
use pithos.AgentApi.Jobs.{
  ApiJobState, queued, running, cancelling, completed, failed, cancelled, is_terminal,
}
use pithos.Daemon.Registry.{
  StoredJob, StorePolicy, default_store_policy, PersistentState, PackPublicationMarker,
  ArchiveIdentity, internal, validate_policy,
}
use pithos.Daemon.Registry.Events.{append_event, trim_retained_events}
use pithos.Daemon.Registry.Markers.{recover_pack_archive}
use pithos.Daemon.Registry.Validation.{validate_state}
use pithos.Daemon.Registry.Storage.{
  World, JobRegistry, StoreFile, load_state_with_policy, commit, persist_state_with_policy,
}
use pithos.Daemon.Registry.Operations.{expire_in}
use pithos.Daemon.Registry.Calls.{owned_job, with_job}

-- `if changed { self.commit(next)?; } Ok(cancel_worker)`
unfoldable pub apply_expiry :
    World
    → JobRegistry
    → List ℕ
    → RpcResult (Bool × Option StoredJob)
    → RpcResult Bool × JobRegistry
apply_expiry world registry job_id (err error) = (err error, registry)
apply_expiry world registry job_id (ok (cancel_worker, none)) = (ok cancel_worker, registry)
apply_expiry world registry job_id (ok (cancel_worker, some job)) =
    let (done, next) = commit world registry (with_job registry.state job_id job) in
    (done >> ok cancel_worker, next)

unfoldable pub expire_deadline :
    World → JobRegistry → List ℕ → List ℕ → RpcResult Bool × JobRegistry
expire_deadline world registry owner job_id =
    if not registry.healthy
    then (err (internal "job registry storage is unhealthy"), registry)
    else apply_expiry world registry job_id (
        owned_job registry.state owner job_id >>= λ job.
        expire_in world registry.policy.max_events_per_job job job.state)

-- The round of `close_and_cancel_all` for a job; `none` where the loop goes on without a change.
unfoldable pub shut_down_job : World → ℕ → StoredJob → ApiJobState → RpcResult (Option StoredJob)
shut_down_job world max job queued =
    append_event
      (record job {
        state = cancelled;
        result = none;
        error = some (domain cancelled_kind "job cancelled during daemon shutdown");
      })
      (world.stamp job.job_id) "daemon_shutdown" max
    >>= λ next. ok (some next)
shut_down_job world max job running =
    append_event (record job { state = cancelling }) (world.stamp job.job_id) "daemon_shutdown" max
    >>= λ next. ok (some next)
shut_down_job world max job _ = ok none

pub record Shutdown : Type 0 where
  pub jobs : List (List ℕ × StoredJob)
  pub affected : List (List ℕ × List ℕ)
  pub changed : Bool

abbrev pub changed_or : StoredJob → Option StoredJob → StoredJob
changed_or job none = job
changed_or job (some next) = next

abbrev has_changed : Option StoredJob → Bool
has_changed none = false
has_changed (some next) = true

unfoldable pub add_shut_down : List ℕ → StoredJob → Option StoredJob → Shutdown → Shutdown
add_shut_down map_key job changed_job rest = record {
  jobs = (map_key, changed_or job changed_job) ∷ rest.jobs;
  affected =
      if is_terminal job.state then rest.affected else (job.owner, job.job_id) ∷ rest.affected;
  changed = has_changed changed_job || rest.changed;
}

unfoldable pub shut_down_jobs : World → ℕ → List (List ℕ × StoredJob) → RpcResult Shutdown
shut_down_jobs world max [] = ok (record { jobs = []; affected = []; changed = false })
shut_down_jobs world max (e ∷ es) = shut_down_job world max e.1 e.1.state >>= λ next.
    shut_down_jobs world max es >>= λ rest. ok (add_shut_down e.0 e.1 next rest)

unfoldable pub apply_shutdown :
    World → JobRegistry → RpcResult Shutdown → RpcResult (List (List ℕ × List ℕ)) × JobRegistry
apply_shutdown world registry (err error) = (err error, registry)
apply_shutdown world registry (ok shutdown) =
    if shutdown.changed
    then (let (done, next) =
          commit world registry (record registry.state { jobs = shutdown.jobs }) in
        (done >> ok shutdown.affected, next))
    else (ok shutdown.affected, registry)

unfoldable pub close_and_cancel_all :
    World → JobRegistry → RpcResult (List (List ℕ × List ℕ)) × JobRegistry
close_and_cancel_all world registry =
    apply_shutdown world (record registry { closed = true })
      (shut_down_jobs world registry.policy.max_events_per_job registry.state.jobs)

-- `if let Some(marker) = job.pack_publication.as_mut() { ... }`
unfoldable pub identified :
    Option PackPublicationMarker → ArchiveIdentity → Option PackPublicationMarker
identified none identity = none
identified (some marker) identity = some (record marker { published_archive = some identity })

-- `serde_json::json!({"archive": archive})`
unfoldable pub archive_value : List ℕ → Value
archive_value archive =
    object (and_field (97 ∷ 114 ∷ 99 ∷ 104 ∷ 105 ∷ 118 ∷ 101 ∷ []) (string archive) no_fields)

unfoldable pub recover_interrupted :
    World → ℕ → StoredJob → Option (List ℕ × ArchiveIdentity) → RpcResult StoredJob
recover_interrupted world max job (some (archive, identity)) =
    append_event
      (record job {
        pack_publication = identified job.pack_publication identity;
        state = completed;
        result = some (archive_value archive);
        error = none;
      })
      (world.stamp job.job_id) "recovered_completed" max
recover_interrupted world max job none =
    append_event
      (record job {
        state = failed;
        result = none;
        error = some (domain internal_kind "job interrupted by daemon restart");
      })
      (world.stamp job.job_id) "daemon_restarted" max

unfoldable pub recover_job : World → ℕ → StoredJob → RpcResult StoredJob
recover_job world max job =
    if is_terminal job.state
    then ok job
    else recover_interrupted world max job (recover_pack_archive world.is_file world.verify job)

unfoldable pub recover_jobs :
    World → ℕ → List (List ℕ × StoredJob) → RpcResult (List (List ℕ × StoredJob) × Bool)
recover_jobs world max [] = ok ([], false)
recover_jobs world max (e ∷ es) = recover_job world max e.1 >>= λ job.
    recover_jobs world max es >>= λ rest.
    ok ((e.0, job) ∷ rest.0, not (is_terminal e.1.state) || rest.1)

-- `if changed { persist_state_with_policy(...)?; }`: what the file holds then.
unfoldable pub persist_changed :
    World → PersistentState → StorePolicy → Option (List ℕ) → Bool → RpcResult (Option (List ℕ))
persist_changed world state policy file false = ok file
persist_changed world state policy file true =
    persist_state_with_policy world state policy >>= λ bytes. ok (some bytes)

-- The bytes that the file of the store holds.
unfoldable pub held : StoreFile → Option (List ℕ)
held (StoreFile.of_length length bytes) = bytes
held _ = none

-- The end of `open_with_policy`: `changed` and the flag beside the state say whether it has changed.
unfoldable pub open_recovered :
    World → StorePolicy → Bool → PersistentState × Bool → RpcResult JobRegistry
open_recovered world policy changed (state, shorter) =
    validate_state state policy true
    >> (persist_changed world state policy (held world.store_file) (changed || shorter) >>= λ file.
        ok (record { state = state; policy = policy; closed = false; healthy = true; file = file }))

unfoldable pub open_trimmed : World → StorePolicy → PersistentState × Bool → RpcResult JobRegistry
open_trimmed world policy (state, shorter) =
    recover_jobs world policy.max_events_per_job state.jobs >>= λ recovered.
    open_recovered world policy (shorter || recovered.1)
      (trim_retained_events (record state { jobs = recovered.0 }) policy)

unfoldable pub open_with_policy : World → StorePolicy → RpcResult JobRegistry
open_with_policy world requested = validate_policy requested >>= λ policy.
    load_state_with_policy world policy world.store_file >>= λ loaded.
    validate_state loaded policy false
    >> open_trimmed world policy (trim_retained_events loaded policy)

unfoldable pub open_registry : World → RpcResult JobRegistry
open_registry world = open_with_policy world default_store_policy

unfoldable pub open_with_event_limit : World → ℕ → RpcResult JobRegistry
open_with_event_limit world max_events_per_job =
    open_with_policy world (record default_store_policy { max_events_per_job = max_events_per_job })
