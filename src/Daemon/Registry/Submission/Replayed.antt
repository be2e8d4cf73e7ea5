-- ===== src/Daemon/Registry/Submission/Replayed.antt =====
-- A submission that is accepted, and the same submission once more.
use pithos.Prelude.{
  ℕ, ◌+◌, ◌<◌, ◌≡◌, refl, ap, ◌∙◌, Bool, true, false, none, some, List, length, leb, ◌==◌, eq→==,
  arith,
}
use pithos.Core.Checked.{u64_end, checked_add_fits}
use pithos.Format.Same.{eq→same_bytes}
use pithos.AgentApi.{ok, ok_or, ◌>>◌}
use pithos.AgentApi.Jobs.{JobAccepted, queued}
use pithos.Daemon.Registry.{StoredJob, JobSubmission, internal}
use pithos.Daemon.Registry.Maps.{get_key, insert_key-get_key}
use pithos.Daemon.Registry.Identifiers.{format_job_id}
use pithos.Daemon.Registry.Identifiers.Numbers.{parse_job_number-format_job_id}
use pithos.Daemon.Registry.Events.Appended.{appended-append_event}
use pithos.Daemon.Registry.Validation.Equalities.{same_method_refl}
use pithos.Daemon.Registry.Validation.States.{IsStore}
use pithos.Daemon.Registry.Storage.{World, JobRegistry}
use pithos.Daemon.Registry.Storage.Commit.{Works}
use pithos.Daemon.Registry.Storage.Trimmed.{commit_succeeds}
use pithos.Daemon.Registry.Submission.{
  same_priority, priority_number, replay, nonterminal_of, new_job, admit, commit_admitted,
  submit_indexed, may_submit, submit_checked, submit_with_limit,
}
use pithos.Daemon.Registry.Submission.Admitted.{
  IsSubmission, queued_job, key_of, admitted, admitted-IsStore,
}

abbrev pub accepted : JobRegistry → Bool → JobAccepted
accepted registry is_replay = record {
  job_id = format_job_id registry.state.next_job;
  state = queued;
  idempotent_replay = is_replay;
}

abbrev pub after_submission : World → JobRegistry → JobSubmission → List ℕ → JobRegistry
after_submission world registry submission bytes = record registry {
  state = admitted world registry submission;
  file = some bytes;
}

-- The registry takes submissions, and one more job fits.
pub record IsOpen (registry : JobRegistry) (owner : List ℕ) (most : ℕ) : Type 0 where
  pub not_closed : registry.closed ≡ false
  pub is_healthy : registry.healthy ≡ true
  pub some_kept : 0 < registry.policy.max_events_per_job
  pub retained : length registry.state.jobs < registry.policy.max_retained_jobs
  pub quota : nonterminal_of owner registry.state.jobs < most
  pub room : registry.state.next_job + 1 < u64_end

lt-leb : (size most : ℕ) → size < most → leb most size ≡ false
lt-leb size most h = ground arith

admit_succeeds :
    (world : World) (registry : JobRegistry) (submission : JobSubmission) (most : ℕ)
    → IsOpen registry submission.owner most
    → admit world registry submission most
      ≡ ok (admitted world registry submission, format_job_id registry.state.next_job)
unfolding admit admitted queued_job format_job_id new_job
admit_succeeds world registry submission most o =
    let id = format_job_id registry.state.next_job in
    rw
      (
        lt-leb (length registry.state.jobs) registry.policy.max_retained_jobs o.retained,
        lt-leb (nonterminal_of submission.owner registry.state.jobs) most o.quota,
        (parse_job_number-format_job_id registry.state.next_job (omega arith)).0,
        checked_add_fits registry.state.next_job 1 o.room,
        appended-append_event (new_job world submission id) (world.stamp id) "queued"
            registry.policy.max_events_per_job first_room,
      )
      refl
  where
    first_room : 1 + 1 < u64_end
    first_room = omega arith

-- The checks read what a commit leaves alone.
may_submit_open :
    (registry : JobRegistry) (submission : JobSubmission) (most : ℕ)
    → IsOpen registry submission.owner most
    → IsSubmission submission
    → may_submit registry submission ≡ ok tt
unfolding may_submit
may_submit_open registry submission most o v = rw (o.not_closed, o.is_healthy, v.key) refl

pub submit_accepted :
    (world : World) (registry : JobRegistry) (submission : JobSubmission) (most : ℕ)
    → IsOpen registry submission.owner most
    → IsSubmission submission
    → IsStore registry.policy true registry.state
    → get_key registry.state.idempotency (key_of submission) ≡ none
    → (works : Works world registry.policy (admitted world registry submission))
    → submit_with_limit world registry submission most
      ≡ (ok (accepted registry false), after_submission world registry submission works.bytes)
unfolding submit_with_limit submit_checked submit_indexed may_submit commit_admitted
submit_accepted world registry submission most o v s fresh works =
    let whole =
      admitted-IsStore world registry submission o.some_kept o.retained o.room fresh v s in
    let done = commit_succeeds world registry (admitted world registry submission) whole works in
    ap (submit_checked world registry submission most)
      (may_submit_open registry submission most o v)
    ∙ ap (submit_indexed world registry submission most) fresh
    ∙ ap (commit_admitted world registry) (admit_succeeds world registry submission most o)
    ∙ ap (λ c. (c.0 >> ok (accepted registry false), c.1)) done

-- The index leads to a job of the same parameters.
replay_same :
    (job : StoredJob) (submission : JobSubmission)
    → job.params_hash ≡ submission.params_hash
    → job.method ≡ submission.method
    → job.priority ≡ submission.priority
    → replay submission (ok job)
      ≡ ok (record { job_id = job.job_id; state = job.state; idempotent_replay = true })
unfolding replay same_priority
replay_same job submission hash method priority =
    let p : (priority_number job.priority == priority_number submission.priority) ≡ true =
      eq→== (priority_number job.priority) (priority_number submission.priority)
        (ap priority_number priority) in
    rw
      (
        eq→same_bytes job.params_hash submission.params_hash hash,
        same_method_refl job.method submission.method method,
        p,
      )
      refl

-- A registry that is open, healthy and consistent, keeps at least one event of a job, has working
-- storage, and room for one more job in the store, for the owner and in the numbers, accepts a valid
-- submission with a new key: the job is queued under the next number, in memory and in the file. The
-- same submission is then answered with that job, as a replay, and changes nothing.
pub submit_with_limit-submit_with_limit :
    (world later : World) (registry : JobRegistry) (submission : JobSubmission) (most again : ℕ)
    → IsOpen registry submission.owner most
    → IsSubmission submission
    → IsStore registry.policy true registry.state
    → get_key registry.state.idempotency (key_of submission) ≡ none
    → (works : Works world registry.policy (admitted world registry submission))
    → (submit_with_limit world registry submission most
        ≡ (ok (accepted registry false), after_submission world registry submission works.bytes))
      × (submit_with_limit later
            (after_submission world registry submission works.bytes)
            submission
            again
          ≡ (ok (accepted registry true), after_submission world registry submission works.bytes))
unfolding submit_with_limit submit_checked submit_indexed may_submit admitted queued_job new_job
submit_with_limit-submit_with_limit world later registry submission most again o v s fresh works =
    let id = format_job_id registry.state.next_job in
    let job = queued_job world submission id registry.policy.max_events_per_job in
    let indexed = insert_key-get_key registry.state.idempotency (key_of submission) id in
    let there = insert_key-get_key registry.state.jobs id job in
    (
      submit_accepted world registry submission most o v s fresh works,
      ap
            (submit_checked later (after_submission world registry submission works.bytes)
              submission again)
            (may_submit_open registry submission most o v)
          ∙ ap
              (submit_indexed later (after_submission world registry submission works.bytes)
                submission again)
              indexed
          ∙ ap
              (λ found. (
                replay submission (ok_or found (internal "idempotency index is corrupt")),
                after_submission world registry submission works.bytes,
              ))
              there
          ∙ ap (λ answer. (answer, after_submission world registry submission works.bytes))
              (replay_same job submission refl refl refl),
    )
