-- ===== src/Daemon/Registry/Operations.antt =====
-- crates/pithos-daemon/src/store.rs: the changes of a single job, and the calls that apply them.
pub mod Moves
pub mod Stored
pub mod Updates
pub mod Transitions
pub mod Publication
use pithos.Prelude.{
  ℕ, ◌≡◌, Bool, true, false, not, ◌||◌, ◌&&◌, Option, none, some, List, [], ◌∷◌, String, map, ltb,
  if◌then◌else◌,
}
use pithos.StdPath.{same_path}
use pithos.AgentApi.{
  Value, JsonRpcError, PublicErrorKind, job_conflict, cancelled_kind, integrity_mismatch, domain,
  resource_limit_error, RpcResult, ok, err, ◌>>◌, ◌>>=◌, bail_if, ok_or,
}
use pithos.AgentApi.Jobs.{
  ApiJobState, queued, running, cancelling, completed, failed, cancelled, is_terminal,
  ProgressEvent, JobSnapshot,
}
use pithos.Daemon.Limits.{JobLimits}
use pithos.Daemon.Lane.{JobPriority}
use pithos.Daemon.Registry.{
  StoredJob, StoredOperation, PersistentState, PackPublicationMarker, ArchiveIdentity, internal,
  job_not_found,
}
use pithos.Daemon.Registry.Maps.{get_key, set_key}
use pithos.Daemon.Registry.Events.{append_event}
use pithos.Daemon.Registry.Markers.{
  Presence, pack_output, prepare_pack_publication_marker, same_archive,
  require_recorded_pack_publication,
}
use pithos.Daemon.Registry.Storage.{World, JobRegistry, commit}

abbrev pub conflict : String → JsonRpcError
conflict message = domain job_conflict message

unfoldable pub valid_transition : ApiJobState → ApiJobState → Bool
valid_transition queued running = true
valid_transition queued cancelled = true
valid_transition running cancelling = true
valid_transition running completed = true
valid_transition running failed = true
valid_transition cancelling cancelled = true
valid_transition cancelling failed = true
valid_transition _ _ = false

-- `if state == ApiJobState::Running { ... }`
unfoldable pub prepared : World → StoredJob → ApiJobState → RpcResult StoredJob
prepared world job running =
    prepare_pack_publication_marker world.symlink_metadata job >>= λ marker.
    ok (record job { pack_publication = marker })
prepared world job _ = ok job

-- The closure of `transition`, as those of the other calls below.
unfoldable pub transition_job : World → ApiJobState → String → ℕ → StoredJob → RpcResult StoredJob
transition_job world state phase max job =
    bail_if (not (valid_transition job.state state)) (conflict "invalid job state transition")
    >> (prepared world job state >>= λ next.
        append_event (record next { state = state }) (world.stamp job.job_id) phase max)

unfoldable pub cancel_in : World → ℕ → StoredJob → ApiJobState → RpcResult StoredJob
cancel_in world max job queued =
    append_event
      (record job { state = cancelled; error = some (domain cancelled_kind "job cancelled") })
      (world.stamp job.job_id) "cancelled" max
cancel_in world max job running =
    append_event (record job { state = cancelling }) (world.stamp job.job_id) "cancelling" max
cancel_in world max job cancelling = ok job
cancel_in world max job cancelled = ok job
cancel_in world max job completed = err (conflict "terminal job cannot be cancelled")
cancel_in world max job failed = err (conflict "terminal job cannot be cancelled")

unfoldable pub cancel_job : World → ℕ → StoredJob → RpcResult StoredJob
cancel_job world max job = cancel_in world max job job.state

abbrev pub is_cancelling : ApiJobState → Bool
is_cancelling cancelling = true
is_cancelling _ = false

unfoldable pub finish_cancelled_job : World → ℕ → StoredJob → RpcResult StoredJob
finish_cancelled_job world max job =
    bail_if (not (is_cancelling job.state)) (conflict "job is not cancelling")
    >> append_event
        (record job { state = cancelled; error = some (domain cancelled_kind "job cancelled") })
        (world.stamp job.job_id) "cancelled" max

unfoldable pub can_complete : ApiJobState → Bool
can_complete queued = true
can_complete running = true
can_complete cancelling = true
can_complete _ = false

unfoldable pub complete_job : World → Value → ℕ → StoredJob → RpcResult StoredJob
complete_job world result max job =
    bail_if (not (can_complete job.state)) (conflict "job cannot complete from current state")
    >> require_recorded_pack_publication job
    >> append_event (record job { state = completed; result = some result; error = none })
        (world.stamp job.job_id) "completed" max

-- `error.kind == PublicErrorKind::Cancelled`
abbrev pub is_cancelled_kind : PublicErrorKind → Bool
is_cancelled_kind cancelled_kind = true
is_cancelled_kind _ = false

unfoldable pub fail_job : World → JsonRpcError → ℕ → StoredJob → RpcResult StoredJob
fail_job world error max job =
    bail_if (is_terminal job.state) (conflict "terminal job is immutable")
    >> append_event
        (record job {
          state = if is_cancelled_kind error.kind then cancelled else failed;
          result = none;
          error = some error;
        })
        (world.stamp job.job_id) "failed" max

-- `matches!(job.state, ApiJobState::Running | ApiJobState::Cancelling)`
abbrev pub can_publish : ApiJobState → Bool
can_publish running = true
can_publish cancelling = true
can_publish _ = false

-- `matches!(&job.operation, StoredOperation::Pack { output: current, .. } if current == &output)`
abbrev packs_to : Option (List ℕ) → List ℕ → Bool
packs_to none output = false
packs_to (some current) output = same_path current output

-- `.filter(|marker| marker.output_was_absent)`
abbrev own_marker : Option PackPublicationMarker → Option PackPublicationMarker
own_marker none = none
own_marker (some marker) = if marker.output_was_absent then some marker else none

unfoldable pub publish_in :
    World
    → ArchiveIdentity
    → ℕ
    → StoredJob
    → PackPublicationMarker
    → Option ArchiveIdentity
    → RpcResult StoredJob
publish_in world identity max job marker (some expected) =
    if same_archive expected identity
    then ok job
    else err (domain integrity_mismatch "pack output identity changed")
publish_in world identity max job marker none =
    append_event
      (record job { pack_publication = some (record marker { published_archive = some identity }) })
      (world.stamp job.job_id) "pack_published" max

-- The closure of `record_pack_publication_with`.
unfoldable pub publication_job :
    World → List ℕ → ArchiveIdentity → ℕ → StoredJob → RpcResult StoredJob
publication_job world output identity max job =
    bail_if (not (can_publish job.state))
      (conflict "pack publication cannot be recorded from current state")
    >> bail_if (not (packs_to (pack_output job.operation) output))
        (conflict "pack operation changed while publication was verified")
    >> (ok_or (own_marker job.pack_publication) (internal "pack publication marker is missing")
        >>= λ marker. publish_in world identity max job marker marker.published_archive)

-- The match of `expire_deadline`: the flag that cancels a worker, and the job if it has changed.
unfoldable pub expire_in : World → ℕ → StoredJob → ApiJobState → RpcResult (Bool × Option StoredJob)
expire_in world max job queued =
    append_event
      (record job {
        state = failed;
        result = none;
        error = some (resource_limit_error "job deadline exceeded");
      })
      (world.stamp job.job_id) "deadline_exceeded" max
    >>= λ next. ok (false, some next)
expire_in world max job running =
    append_event (record job { state = cancelling }) (world.stamp job.job_id) "deadline_exceeded"
      max
    >>= λ next. ok (true, some next)
expire_in world max job cancelling = ok (true, none)
expire_in world max job completed = ok (false, none)
expire_in world max job failed = ok (false, none)
expire_in world max job cancelled = ok (false, none)
