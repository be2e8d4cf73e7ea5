-- ===== src/Daemon/Registry/Operations/Updates.antt =====
-- The calls that change a job without its marker, as moves.
use pithos.Prelude.{
  ℕ, ◌≡◌, refl, sym, ◌⊎◌, inl, inr, Bool, true, false, not, none, some, if◌then◌else◌,
}
use pithos.AgentApi.{
  Value, JsonRpcError, ok, ◌>>◌, bail_if, bind-inv, bail_if-ok, bail_unless-ok, ok-injective,
  domain, cancelled_kind,
}
use pithos.AgentApi.Jobs.{
  ApiJobState, queued, running, cancelling, completed, failed, cancelled, is_terminal,
}
use pithos.Daemon.Registry.{StoredJob}
use pithos.Daemon.Registry.Markers.{require_recorded_pack_publication}
use pithos.Daemon.Registry.Validation.{has_valid_result}
use pithos.Daemon.Registry.Storage.{World}
use pithos.Daemon.Registry.Operations.{
  conflict, is_cancelling, is_cancelled_kind, cancel_in, finish_cancelled_job, fail_job,
  can_complete, complete_job,
}
use pithos.Daemon.Registry.Operations.Moves.{
  Moves, queued_completes, queued_fails, queued_is_cancelled, running_stops, running_completes,
  running_fails, running_is_cancelled, stopping_completes, stopping_fails, stopping_is_cancelled,
  Update, Keeps, by_marked_event, no_result,
}

pub cancel_in-update :
    (world : World) (maximum : ℕ) (job : StoredJob) (state : ApiJobState) {next : StoredJob}
    → job.state ≡ state
    → cancel_in world maximum job state ≡ ok next
    → (next ≡ job) ⊎ ((u : Update maximum job next) × Keeps u)
unfolding cancel_in has_valid_result
cancel_in-update world maximum job queued at q = inr (
    by_marked_event job queued cancelled job.result (some (domain cancelled_kind "job cancelled"))
      (world.stamp job.job_id) "cancelled" maximum at queued_is_cancelled
      (no_result job.result job.error) q)
cancel_in-update world maximum job running at q = inr (
    by_marked_event job running cancelling job.result job.error (world.stamp job.job_id)
      "cancelling" maximum at running_stops (λ h. h) q)
cancel_in-update world maximum job cancelling at q = inl (sym (ok-injective q))
cancel_in-update world maximum job cancelled at q = inl (sym (ok-injective q))
cancel_in-update world maximum job completed at q = cc
cancel_in-update world maximum job failed at q = cc

pub finish_cancelled_job-update :
    (world : World) (maximum : ℕ) (job : StoredJob) {next : StoredJob}
    → finish_cancelled_job world maximum job ≡ ok next
    → (u : Update maximum job next) × Keeps u
unfolding finish_cancelled_job has_valid_result
finish_cancelled_job-update world maximum job q =
    let (tt, stopping, done) =
      bind-inv (bail_if (not (is_cancelling job.state)) (conflict "job is not cancelling")) _ q in
    by_marked_event job cancelling cancelled job.result
      (some (domain cancelled_kind "job cancelled")) (world.stamp job.job_id) "cancelled" maximum
      (stops job.state (bail_if-ok _ _ stopping)) stopping_is_cancelled
      (no_result job.result job.error) done
  where
    stops : (s : ApiJobState) → not (is_cancelling s) ≡ false → s ≡ cancelling
    stops queued h = cc
    stops running h = cc
    stops cancelling h = refl
    stops completed h = cc
    stops failed h = cc
    stops cancelled h = cc

fails :
    (s : ApiJobState) (kind : Bool) (error : JsonRpcError)
    → is_terminal s ≡ false
    → Moves s (if kind then cancelled else failed)
      × (has_valid_result (if kind then cancelled else failed) none (some error) ≡ true)
unfolding is_terminal has_valid_result
fails queued true error h = (queued_is_cancelled, refl)
fails queued false error h = (queued_fails, refl)
fails running true error h = (running_is_cancelled, refl)
fails running false error h = (running_fails, refl)
fails cancelling true error h = (stopping_is_cancelled, refl)
fails cancelling false error h = (stopping_fails, refl)
fails completed kind error h = cc
fails failed kind error h = cc
fails cancelled kind error h = cc

pub fail_job-update :
    (world : World) (error : JsonRpcError) (maximum : ℕ) (job : StoredJob) {next : StoredJob}
    → fail_job world error maximum job ≡ ok next
    → (u : Update maximum job next) × Keeps u
unfolding fail_job has_valid_result
fail_job-update world error maximum job q =
    let (tt, live, done) =
      bind-inv (bail_if (is_terminal job.state) (conflict "terminal job is immutable")) _ q in
    let (moves, settles) =
      fails job.state (is_cancelled_kind error.kind) error (bail_if-ok _ _ live) in
    by_marked_event job job.state (if is_cancelled_kind error.kind then cancelled else failed) none
      (some error) (world.stamp job.job_id) "failed" maximum refl moves (λ h. settles) done

completes : (s : ApiJobState) → can_complete s ≡ true → Moves s completed
unfolding can_complete
completes queued h = queued_completes
completes running h = running_completes
completes cancelling h = stopping_completes
completes completed h = cc
completes failed h = cc
completes cancelled h = cc

pub complete_job-update :
    (world : World) (result : Value) (maximum : ℕ) (job : StoredJob) {next : StoredJob}
    → complete_job world result maximum job ≡ ok next
    → (u : Update maximum job next) × Keeps u
unfolding complete_job has_valid_result
complete_job-update world result maximum job q =
    let (tt, checks, done) =
      bind-inv
        (bail_if (not (can_complete job.state)) (conflict "job cannot complete from current state")
          >> require_recorded_pack_publication job)
        _ q in
    let (tt, live, recorded) =
      bind-inv
        (bail_if (not (can_complete job.state)) (conflict "job cannot complete from current state"))
        _ checks in
    by_marked_event job job.state completed (some result) none (world.stamp job.job_id) "completed"
      maximum refl (completes job.state (bail_unless-ok _ _ live)) (λ h. refl) done
