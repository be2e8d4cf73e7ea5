-- ===== src/Daemon/Registry/Operations/Transitions.antt =====
-- `transition` and `expire_deadline`, as moves.
use pithos.Prelude.{
  ℕ, ◌≡◌, refl, sym, ap, subst, ◌∙◌, Bool, true, false, not, Option, none, some, List, String,
  arith,
}
use pithos.Format.Same.{eq→same_bytes}
use pithos.StdPath.Plain.{eq→same_path}
use pithos.AgentApi.{
  Value, JsonRpcError, RpcResult, ok, bail_if, bind-inv, bail_unless-ok, ok-injective,
  resource_limit_error,
}
use pithos.AgentApi.Jobs.{ApiJobState, queued, running, cancelling, completed, failed, cancelled}
use pithos.Daemon.Registry.{StoredJob, PackPublicationMarker}
use pithos.Daemon.Registry.Events.{append_event}
use pithos.Daemon.Registry.Markers.{
  Presence, prepare_marker_at, prepare_pack_publication_marker, was_absent, new_marker, pack_output,
}
use pithos.Daemon.Registry.Validation.{has_valid_result, validate_marker_at, same_state}
use pithos.Daemon.Registry.Storage.{World}
use pithos.Daemon.Registry.Operations.{
  conflict, valid_transition, prepared, transition_job, expire_in,
}
use pithos.Daemon.Registry.Operations.Moves.{
  Moves, queued_starts, queued_fails, queued_is_cancelled, running_stops, running_completes,
  running_fails, stopping_fails, stopping_is_cancelled, changed, Update, Keeps, by_event_if,
  by_marked_event, no_result, later_state, Moves-started,
}

-- The states that `transition` reaches with a result that is wanting.
abbrev pub is_ending : ApiJobState → Bool
is_ending completed = true
is_ending failed = true
is_ending _ = false

abbrev Settles : ApiJobState → ApiJobState → Type 0
Settles a b =
    (result : Option Value) (error : Option JsonRpcError)
    → has_valid_result a result error ≡ true
    → has_valid_result b result error ≡ true

transits :
    (a b : ApiJobState)
    → valid_transition a b ≡ true
    → Moves a b × (is_ending b ≡ false → Settles a b)
unfolding valid_transition has_valid_result
transits queued queued h = cc
transits queued running h = (queued_starts, λ n r e v. v)
transits queued cancelling h = cc
transits queued completed h = cc
transits queued failed h = cc
transits queued cancelled h = (queued_is_cancelled, λ n r e v. no_result r e v)
transits running queued h = cc
transits running running h = cc
transits running cancelling h = (running_stops, λ n r e v. v)
transits running completed h = (running_completes, λ n r e v. cc)
transits running failed h = (running_fails, λ n r e v. cc)
transits running cancelled h = cc
transits cancelling queued h = cc
transits cancelling running h = cc
transits cancelling cancelling h = cc
transits cancelling completed h = cc
transits cancelling failed h = (stopping_fails, λ n r e v. cc)
transits cancelling cancelled h = (stopping_is_cancelled, λ n r e v. no_result r e v)
transits completed b h = absurd (ground arith)
transits failed b h = absurd (ground arith)
transits cancelled b h = absurd (ground arith)

-- A new marker suits the job that starts.
prepare_marker_at-fits :
    (metadata : List ℕ → Presence) (job : StoredJob) (output : Option (List ℕ))
    {marker : Option PackPublicationMarker}
    → prepare_marker_at metadata job output ≡ ok marker
    → validate_marker_at (record job { state = running }) marker output ≡ ok tt
unfolding prepare_marker_at validate_marker_at new_marker same_state
prepare_marker_at-fits metadata job none q =
    subst (λ m. validate_marker_at (record job { state = running }) m none ≡ ok tt) (ok-injective q)
      refl
prepare_marker_at-fits metadata job (some output) q =
    let (absent, h, k) = bind-inv (was_absent (metadata output)) _ q in
    subst (λ m. validate_marker_at (record job { state = running }) m (some output) ≡ ok tt)
      (ok-injective k)
      (rw
        (
          eq→same_bytes job.job_id job.job_id refl,
          eq→same_bytes job.params_hash job.params_hash refl,
          eq→same_path output output refl,
        )
        refl)

-- What `prepared` leaves.
prepared-fits :
    (world : World) (job : StoredJob) (state : ApiJobState) {next : StoredJob}
    → same_state state queued ≡ false
    → prepared world job state ≡ ok next
    → (marker : Option PackPublicationMarker) × (next ≡ record job { pack_publication = marker })
      × (validate_marker_at job job.pack_publication (pack_output job.operation) ≡ ok tt
          → validate_marker_at (record job { state = state }) marker (pack_output job.operation)
            ≡ ok tt)
unfolding prepared prepare_pack_publication_marker
prepared-fits world job running s q =
    let (marker, h, k) =
      bind-inv (prepare_pack_publication_marker world.symlink_metadata job) _ q in
    (
      marker,
      sym (ok-injective k),
      λ v. prepare_marker_at-fits world.symlink_metadata job (pack_output job.operation) h,
    )
prepared-fits world job queued s q = (
  job.pack_publication,
  sym (ok-injective q),
  later_state job job.state queued job.pack_publication (pack_output job.operation) s,
)
prepared-fits world job cancelling s q = (
  job.pack_publication,
  sym (ok-injective q),
  later_state job job.state cancelling job.pack_publication (pack_output job.operation) s,
)
prepared-fits world job completed s q = (
  job.pack_publication,
  sym (ok-injective q),
  later_state job job.state completed job.pack_publication (pack_output job.operation) s,
)
prepared-fits world job failed s q = (
  job.pack_publication,
  sym (ok-injective q),
  later_state job job.state failed job.pack_publication (pack_output job.operation) s,
)
prepared-fits world job cancelled s q = (
  job.pack_publication,
  sym (ok-injective q),
  later_state job job.state cancelled job.pack_publication (pack_output job.operation) s,
)

pub transition_job-update :
    (world : World) (state : ApiJobState) (phase : String) (maximum : ℕ) (job : StoredJob)
    {next : StoredJob}
    → transition_job world state phase maximum job ≡ ok next
    → (u : Update maximum job next) × (is_ending state ≡ false → Keeps u)
unfolding transition_job
transition_job-update world state phase maximum job {next} q =
    let (tt, valid, q1) =
      bind-inv
        (bail_if (not (valid_transition job.state state)) (conflict "invalid job state transition"))
        _ q in
    let (ready, p, q2) = bind-inv (prepared world job state) _ q1 in
    let (moves, settles) = transits job.state state (bail_unless-ok _ _ valid) in
    let (marker, e, fits) = prepared-fits world job state (Moves-started moves) p in
    let q3 : append_event (changed job state job.result job.error marker) (world.stamp job.job_id)
          phase maximum
        ≡ ok next =
      subst
        (λ j.
          append_event (record j { state = state }) (world.stamp job.job_id) phase maximum
          ≡ ok next)
        e q2 in
    by_event_if job state job.result job.error marker (world.stamp job.job_id) phase maximum moves
      (λ going v. (settles going job.result job.error v.0, fits v.1)) q3

same_next :
    {b b' : Bool} {j j' : StoredJob}
    → ◌≡◌ {A = RpcResult (Bool × Option StoredJob)} (ok (b, some j)) (ok (b', some j'))
    → j ≡ j'
same_next q = cc

-- A deadline.
pub expire_in-update :
    (world : World) (maximum : ℕ) (job : StoredJob) (state : ApiJobState) {cancel_worker : Bool}
    {next : StoredJob}
    → job.state ≡ state
    → expire_in world maximum job state ≡ ok (cancel_worker, some next)
    → (u : Update maximum job next) × Keeps u
unfolding expire_in has_valid_result
expire_in-update world maximum job queued at q =
    let (done, h, k) =
      bind-inv
        (append_event
          (changed job failed none (some (resource_limit_error "job deadline exceeded"))
            job.pack_publication)
          (world.stamp job.job_id) "deadline_exceeded" maximum)
        _ q in
    by_marked_event job queued failed none (some (resource_limit_error "job deadline exceeded"))
      (world.stamp job.job_id) "deadline_exceeded" maximum at queued_fails (λ v. refl)
      (h ∙ ap ok (same_next k))
expire_in-update world maximum job running at q =
    let (done, h, k) =
      bind-inv
        (append_event (record job { state = cancelling }) (world.stamp job.job_id)
          "deadline_exceeded" maximum)
        _ q in
    by_marked_event job running cancelling job.result job.error (world.stamp job.job_id)
      "deadline_exceeded" maximum at running_stops (λ v. v) (h ∙ ap ok (same_next k))
expire_in-update world maximum job cancelling at q = cc
expire_in-update world maximum job completed at q = cc
expire_in-update world maximum job failed at q = cc
expire_in-update world maximum job cancelled at q = cc
