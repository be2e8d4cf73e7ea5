-- ===== src/Daemon/Registry/Runs/Lives.antt =====
-- Runs of the registry: its state, and the life of a job.
use pithos.Prelude.{
  ℕ, ◌<◌, ◌≡◌, refl, sym, ap, subst, ◌∙◌, inl, inr, true, false, Bool, ◌≢◌, some, List,
}
use pithos.AgentApi.{RpcResult, ok, err, bind-inv}
use pithos.AgentApi.Jobs.{ApiJobState, is_terminal}
use pithos.Daemon.Registry.{StoredJob, StorePolicy, ArchiveIdentity}
use pithos.Daemon.Registry.Maps.{get_key}
use pithos.Daemon.Registry.Validation.States.{IsStore}
use pithos.Daemon.Registry.Storage.{World, JobRegistry}
use pithos.Daemon.Registry.Operations.{cancel_job, cancel_in}
use pithos.Daemon.Registry.Operations.Moves.{
  Moves, queued_starts, queued_completes, queued_fails, queued_is_cancelled, running_publishes,
  running_stops, running_completes, running_fails, running_is_cancelled, stopping_publishes,
  stopping_completes, stopping_fails, stopping_is_cancelled, Update,
}
use pithos.Daemon.Registry.Operations.Updates.{
  cancel_in-update, finish_cancelled_job-update, fail_job-update, complete_job-update,
}
use pithos.Daemon.Registry.Operations.Transitions.{transition_job-update}
use pithos.Daemon.Registry.Operations.Publication.{publication_job-update}
use pithos.Daemon.Registry.Calls.{
  transition, request_cancel, finish_cancelled, complete, fail, record_pack_publication,
  record_pack_publication_with, publish_identified,
}
use pithos.Daemon.Registry.Calls.Stepped.{JobStep, IsStepped, same-IsStepped}
use pithos.Daemon.Registry.Calls.Owned.{update_owned-IsStepped, quietly-JobStep}
use pithos.Daemon.Registry.Lifetime.Ended.{expire_deadline-IsStepped, submit_with_limit-IsStepped}
use pithos.Daemon.Registry.Lifetime.Closed.{close_and_cancel_all-IsStepped}
use pithos.Daemon.Registry.Runs.{
  Call, submits, transits, cancels, finishes, completes, fails, publishes, expires, closes, call,
  Run, here, after,
}

module _ (world : World) (registry : JobRegistry)
    (some_kept : 0 < registry.policy.max_events_per_job)
    (s : IsStore registry.policy true registry.state) where
  publish_identified-IsStepped :
      (owner job_id : List ℕ) (identified : RpcResult (List ℕ × ArchiveIdentity))
      → IsStepped registry (publish_identified world registry owner job_id identified).1
  unfolding publish_identified
  publish_identified-IsStepped owner job_id (err error) = same-IsStepped registry registry refl refl
  publish_identified-IsStepped owner job_id (ok (output, identity)) =
      update_owned-IsStepped world registry job_id some_kept s owner _ (
        quietly-JobStep registry.policy.max_events_per_job _ (λ job next q.
          elim (publication_job-update world output identity registry.policy.max_events_per_job job
            q) [ inl same ↦ inl same | inr (u, keeps) ↦ inr u ]))

  call-IsStepped : (c : Call) → IsStepped registry (call world registry c)
  unfolding call transition request_cancel cancel_job finish_cancelled complete fail
      record_pack_publication record_pack_publication_with
  call-IsStepped (submits submission most) =
      submit_with_limit-IsStepped world registry some_kept s submission most
  call-IsStepped (transits owner job_id state phase) =
      update_owned-IsStepped world registry job_id some_kept s owner _ (
        quietly-JobStep registry.policy.max_events_per_job _ (λ job next q.
          inr (transition_job-update world state phase registry.policy.max_events_per_job job q).0))
  call-IsStepped (cancels owner job_id) =
      update_owned-IsStepped world registry job_id some_kept s owner _ (λ job next answer q.
        let (j, h, k) = bind-inv (cancel_job world registry.policy.max_events_per_job job) _ q in
        cancel_steps job next (h ∙ ap ok (first k)))
    where
      cancel_steps :
          (job next : StoredJob)
          → cancel_in world registry.policy.max_events_per_job job job.state ≡ ok next
          → JobStep registry.policy.max_events_per_job job next
      cancel_steps job next q =
          elim (cancel_in-update world registry.policy.max_events_per_job job job.state refl q) [
            | inl same ↦ inl same
            | inr (u, keeps) ↦ inr u
          ]

      first :
          {a b : StoredJob} {u v : ApiJobState}
          → ◌≡◌ {A = RpcResult (StoredJob × ApiJobState)} (ok (a, u)) (ok (b, v))
          → a ≡ b
      first q = cc
  call-IsStepped (finishes owner job_id) =
      update_owned-IsStepped world registry job_id some_kept s owner _ (
        quietly-JobStep registry.policy.max_events_per_job _ (λ job next q.
          inr (finish_cancelled_job-update world registry.policy.max_events_per_job job q).0))
  call-IsStepped (completes owner job_id result) =
      update_owned-IsStepped world registry job_id some_kept s owner _ (
        quietly-JobStep registry.policy.max_events_per_job _ (λ job next q.
          inr (complete_job-update world result registry.policy.max_events_per_job job q).0))
  call-IsStepped (fails owner job_id error) =
      update_owned-IsStepped world registry job_id some_kept s owner _ (
        quietly-JobStep registry.policy.max_events_per_job _ (λ job next q.
          inr (fail_job-update world error registry.policy.max_events_per_job job q).0))
  call-IsStepped (publishes earlier owner job_id) = publish_identified-IsStepped owner job_id _
  call-IsStepped (expires owner job_id) =
      expire_deadline-IsStepped world registry some_kept s owner job_id
  call-IsStepped closes = close_and_cancel_all-IsStepped world registry some_kept s

-- The life of a job: updates, each of them one move of the state machine with one event.
pub data Lives (maximum : ℕ) (job : StoredJob) : StoredJob → Type 0 where
  unchanged : Lives maximum job job
  moved :
      {middle next : StoredJob}
      → Lives maximum job middle
      → Update maximum middle next
      → Lives maximum job next

stepped_life :
    {maximum : ℕ} {job middle next : StoredJob}
    → Lives maximum job middle
    → JobStep maximum middle next
    → Lives maximum job next
stepped_life {maximum} {job} life (inl same) = subst (Lives maximum job) (sym same) life
stepped_life life (inr u) = moved life u

-- Every run of calls from a consistent registry that keeps at least one event of a job, in whatever
-- worlds, leaves a consistent registry of the same policy.
pub Run-IsStore :
    {start registry : JobRegistry}
    → 0 < start.policy.max_events_per_job
    → IsStore start.policy true start.state
    → Run start registry
    → (registry.policy ≡ start.policy) × IsStore registry.policy true registry.state
Run-IsStore some_kept s here = (refl, s)
Run-IsStore {start = start} some_kept s (after {registry = registry} run world c) =
    let (p, kept) = Run-IsStore some_kept s run in
    let stepped = call-IsStepped world registry (kept_some p some_kept) kept c in
    (stepped.policy ∙ p, stepped.consistent kept)
  where
    kept_some :
        {q : StorePolicy}
        → q ≡ start.policy
        → 0 < start.policy.max_events_per_job
        → 0 < q.max_events_per_job
    kept_some e h = subst (λ policy. 0 < policy.max_events_per_job) (sym e) h

-- In every run of calls from a consistent registry that keeps at least one event of a job, in whatever
-- worlds, a job is never lost: it is found under its identifier, and has come there by moves of the
-- state machine, each with one event of the next number, its parameters unchanged.
pub Run-Lives :
    {start registry : JobRegistry} (job_id : List ℕ) (job : StoredJob)
    → 0 < start.policy.max_events_per_job
    → IsStore start.policy true start.state
    → get_key start.state.jobs job_id ≡ some job
    → Run start registry
    → (next : StoredJob) × (get_key registry.state.jobs job_id ≡ some next)
      × Lives start.policy.max_events_per_job job next
Run-Lives job_id job some_kept s there here = (job, there, unchanged)
Run-Lives {start = start} job_id job some_kept s there (after {registry = registry} run world c) =
    let (p, kept) = Run-IsStore some_kept s run in
    let some_kept_now : 0 < registry.policy.max_events_per_job =
      subst (λ policy. 0 < policy.max_events_per_job) (sym p) some_kept in
    let stepped = call-IsStepped world registry some_kept_now kept c in
    let (middle, found, life) = Run-Lives job_id job some_kept s there run in
    let (next, now, step) = stepped.jobs job_id middle found in
    (
      next,
      now,
      stepped_life life (subst (λ policy. JobStep policy.max_events_per_job middle next) p step),
    )

Moves-live : {a b : ApiJobState} → Moves a b → is_terminal a ≡ false
unfolding is_terminal
Moves-live queued_starts = refl
Moves-live queued_completes = refl
Moves-live queued_fails = refl
Moves-live queued_is_cancelled = refl
Moves-live running_publishes = refl
Moves-live running_stops = refl
Moves-live running_completes = refl
Moves-live running_fails = refl
Moves-live running_is_cancelled = refl
Moves-live stopping_publishes = refl
Moves-live stopping_completes = refl
Moves-live stopping_fails = refl
Moves-live stopping_is_cancelled = refl

not_both : {b : Bool} → b ≡ true → b ≢ false
not_both h k = cc

final_life :
    {maximum : ℕ} {job next : StoredJob}
    → is_terminal job.state ≡ true
    → Lives maximum job next
    → next ≡ job
final_life final unchanged = refl
final_life {job = job} final (moved {middle = middle} life u) =
    let same = final_life final life in
    let still : is_terminal middle.state ≡ true =
      subst (λ j. is_terminal j.state ≡ true) (sym same) final in
    absurd (not_both still (Moves-live u.moves))

-- A job in a terminal state is the same, in everything, after every run of calls from a consistent
-- registry that keeps at least one event of a job.
pub Run-final :
    {start registry : JobRegistry} (job_id : List ℕ) (job : StoredJob)
    → 0 < start.policy.max_events_per_job
    → IsStore start.policy true start.state
    → get_key start.state.jobs job_id ≡ some job
    → is_terminal job.state ≡ true
    → Run start registry
    → get_key registry.state.jobs job_id ≡ some job
Run-final job_id job some_kept s there final run =
    let (next, found, life) = Run-Lives job_id job some_kept s there run in
    found ∙ ap some (final_life final life)
