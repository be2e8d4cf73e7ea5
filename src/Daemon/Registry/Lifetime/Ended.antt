-- ===== src/Daemon/Registry/Lifetime/Ended.antt =====
-- A submission, a deadline and the shutdown, as steps of the jobs.
use pithos.Prelude.{
  ℕ, ◌+◌, ◌<◌, ◌≡◌, refl, sym, subst, ◌∙◌, inl, inr, Bool, true, Option, none, some, List, All,
  arith,
}
use pithos.Core.Checked.{u64_end}
use pithos.AgentApi.{RpcResult, ok, err, bind-inv}
use pithos.Daemon.Registry.{StoredJob, PersistentState, JobSubmission}
use pithos.Daemon.Registry.Maps.{get_key, insert_key-get_key_other}
use pithos.Daemon.Registry.Maps.Entries.{insert_key-All}
use pithos.Daemon.Registry.Events.Appended.{length-appended}
use pithos.Daemon.Registry.Validation.States.{IsStore}
use pithos.Daemon.Registry.Storage.{World, JobRegistry, commit}
use pithos.Daemon.Registry.Storage.Trimmed.{IsShort, IsStore-IsShort}
use pithos.Daemon.Registry.Operations.Transitions.{expire_in-update}
use pithos.Daemon.Registry.Calls.{owned_job}
use pithos.Daemon.Registry.Calls.Owned.{owned_job-get_key, healthy}
use pithos.Daemon.Registry.Calls.Stepped.{
  JobStep, JobsStep, IsStepped, same-IsStepped, commit-IsStepped, commit-with_job-IsStepped,
}
use pithos.Daemon.Registry.Identifiers.{format_job_id}
use pithos.Daemon.Registry.Submission.{
  new_job, admit, commit_admitted, submit_indexed, may_submit, submit_checked, submit_with_limit,
}
use pithos.Daemon.Registry.Submission.Admitted.{
  other_key, fresh_job_id, queued_job, key_of, admitted,
}
use pithos.Daemon.Registry.Submission.Admission.{admit-admitted}
use pithos.Daemon.Registry.Lifetime.{apply_expiry, expire_deadline}

module _ (world : World) (registry : JobRegistry)
    (some_kept : 0 < registry.policy.max_events_per_job)
    (s : IsStore registry.policy true registry.state) where
  apply_expiry-IsStepped :
      (job_id : List ℕ) (expired : RpcResult (Bool × Option StoredJob))
      → ((cancel_worker : Bool) (next : StoredJob)
          → expired ≡ ok (cancel_worker, some next)
          → (job : StoredJob) × (get_key registry.state.jobs job_id ≡ some job)
            × JobStep registry.policy.max_events_per_job job next)
      → IsStepped registry (apply_expiry world registry job_id expired).1
  unfolding apply_expiry
  apply_expiry-IsStepped job_id (err error) steps = same-IsStepped registry registry refl refl
  apply_expiry-IsStepped job_id (ok (cancel_worker, none)) steps =
      same-IsStepped registry registry refl refl
  apply_expiry-IsStepped job_id (ok (cancel_worker, some next)) steps =
      let (job, there, step) = steps cancel_worker next refl in
      commit-with_job-IsStepped world registry job_id job next some_kept s there step

  pub expire_deadline-IsStepped :
      (owner job_id : List ℕ) → IsStepped registry (expire_deadline world registry owner job_id).1
  unfolding expire_deadline
  expire_deadline-IsStepped owner job_id = healthy registry.healthy _ _ (
      apply_expiry-IsStepped job_id _ (λ cancel_worker next q.
        let (job, h, k) = bind-inv (owned_job registry.state owner job_id) _ q in
        let (u, keeps) =
          expire_in-update world registry.policy.max_events_per_job job job.state refl k in
        (job, owned_job-get_key registry.state owner job_id h, inr u)))

  -- A new job beside the others.
  admitted-JobsStep :
      (submission : JobSubmission)
      → registry.state.next_job + 1 < u64_end
      → JobsStep registry.policy.max_events_per_job registry.state.jobs
          (admitted world registry submission).jobs
  unfolding admitted
  admitted-JobsStep submission room job_id job there =
      let fresh = fresh_job_id registry.policy registry.state (omega arith) s in
      (
        job,
        insert_key-get_key_other registry.state.jobs (format_job_id registry.state.next_job) job_id
              (queued_job world submission (format_job_id registry.state.next_job)
                registry.policy.max_events_per_job)
              (other_key registry.state.jobs (format_job_id registry.state.next_job) job_id fresh
                there)
            ∙ there,
        inl refl,
      )

  admitted-IsShort :
      (submission : JobSubmission)
      → All (IsShort registry.policy.max_events_per_job) (admitted world registry submission).jobs
  unfolding admitted queued_job
  admitted-IsShort submission =
      let id = format_job_id registry.state.next_job in
      insert_key-All (IsShort registry.policy.max_events_per_job) registry.state.jobs id
        (queued_job world submission id registry.policy.max_events_per_job)
        (length-appended (new_job world submission id) (world.stamp id) "queued"
          registry.policy.max_events_per_job some_kept).1
        (IsStore-IsShort registry.policy registry.state s)

  commit_admitted-IsStepped :
      (submission : JobSubmission) (answer : RpcResult (PersistentState × List ℕ))
      → ((state : PersistentState) (job_id : List ℕ)
          → answer ≡ ok (state, job_id)
          → (state ≡ admitted world registry submission) × (registry.state.next_job + 1 < u64_end))
      → IsStepped registry (commit_admitted world registry answer).1
  unfolding commit_admitted
  commit_admitted-IsStepped submission (err error) known =
      same-IsStepped registry registry refl refl
  commit_admitted-IsStepped submission (ok (state, job_id)) known =
      let (is_state, room) = known state job_id refl in
      subst (λ st. IsStepped registry (commit world registry st).1) (sym is_state)
        (commit-IsStepped world registry (admitted world registry submission)
          (admitted-IsShort submission) (admitted-JobsStep submission room))

  submit_indexed-IsStepped :
      (submission : JobSubmission) (most : ℕ) (indexed : Option (List ℕ))
      → IsStepped registry (submit_indexed world registry submission most indexed).1
  unfolding submit_indexed
  submit_indexed-IsStepped submission most (some existing) =
      same-IsStepped registry registry refl refl
  submit_indexed-IsStepped submission most none =
      commit_admitted-IsStepped submission (admit world registry submission most) (λ state job_id q.
        let (e, i, retained, room) = admit-admitted world registry submission most q in (e, room))

  submit_checked-IsStepped :
      (submission : JobSubmission) (most : ℕ) (may : RpcResult (Unit {0}))
      → IsStepped registry (submit_checked world registry submission most may).1
  unfolding submit_checked
  submit_checked-IsStepped submission most (err error) = same-IsStepped registry registry refl refl
  submit_checked-IsStepped submission most (ok done) =
      submit_indexed-IsStepped submission most
        (get_key registry.state.idempotency (key_of submission))

  pub submit_with_limit-IsStepped :
      (submission : JobSubmission) (most : ℕ)
      → IsStepped registry (submit_with_limit world registry submission most).1
  unfolding submit_with_limit
  submit_with_limit-IsStepped submission most =
      submit_checked-IsStepped submission most (may_submit registry submission)
