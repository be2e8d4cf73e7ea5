-- ===== src/Daemon/Registry/Submission/Admitted.antt =====
-- A new job, its identifier, and the state with it.
use pithos.Prelude.{
  ℕ, suc, ◌+◌, ◌<◌, ◌≤◌, ◌≡◌, refl, sym, ap, ◌∙◌, inl, inr, true, false, ◌&&◌, Bool-cases,
  Option-cases, none, some, List, All_imp, length, ltb, arith,
}
use pithos.Core.Checked.{u64_end}
use pithos.Format.Same.{same_bytes, same_bytes→eq}
use pithos.AgentApi.{ok, ok-injective}
use pithos.AgentApi.Ids.{session_prefix}
use pithos.Daemon.Registry.{
  StoredJob, StorePolicy, PersistentState, JobSubmission, operation_method,
}
use pithos.Daemon.Registry.Maps.{
  get_key, insert_key, insert_key-get_key, insert_key-get_key_other, length-insert_key,
}
use pithos.Daemon.Registry.Maps.Entries.{insert_key-All, All-get_key}
use pithos.Daemon.Registry.Identifiers.{
  valid_identifier, format_job_id, parse_job_number, idempotency_map_key, validate_idempotency_key,
}
use pithos.Daemon.Registry.Identifiers.Numbers.{parse_job_number-format_job_id}
use pithos.Daemon.Registry.Events.Appended.{appended, first-IsLog, length-appended}
use pithos.Daemon.Registry.Validation.Jobs.{IsStored}
use pithos.Daemon.Registry.Validation.Facts.{
  valid_identifier-IsIdentifier, validate_idempotency_key-IsKey, parse_job_number-HasNumber,
}
use pithos.Daemon.Registry.Validation.States.{IsNumbered, LeadsBack, IsStore}
use pithos.Daemon.Registry.Storage.{World, JobRegistry}
use pithos.Daemon.Registry.Submission.{new_job}

-- What the service checks of a submission: the session, the method and the limits.
pub record IsSubmission (submission : JobSubmission) : Type 0 where
  pub owner : valid_identifier submission.owner session_prefix ≡ true
  pub method : submission.method ≡ operation_method submission.operation
  pub threads : 0 < submission.limits.max_threads
  pub memory : 0 < submission.limits.max_memory
  pub output : 0 < submission.limits.max_output
  pub key : validate_idempotency_key submission.idempotency_key ≡ ok tt

-- The job that a submission adds, with its first event.
unfoldable pub queued_job : World → JobSubmission → List ℕ → ℕ → StoredJob
queued_job world submission job_id maximum =
    appended (new_job world submission job_id) (world.stamp job_id) "queued" maximum

abbrev pub key_of : JobSubmission → List ℕ
key_of submission = idempotency_map_key submission.owner submission.idempotency_key

-- The state with the job.
unfoldable pub admitted : World → JobRegistry → JobSubmission → PersistentState
admitted world registry submission =
    let state = registry.state in
    let job_id = format_job_id state.next_job in
    record state {
      next_job = state.next_job + 1;
      idempotency = insert_key state.idempotency (key_of submission) job_id;
      jobs =
          insert_key state.jobs job_id
            (queued_job world submission job_id registry.policy.max_events_per_job);
    }

-- No job has the next number.
pub fresh_job_id :
    (policy : StorePolicy) (state : PersistentState)
    → state.next_job < u64_end
    → IsStore policy true state
    → get_key state.jobs (format_job_id state.next_job) ≡ none
fresh_job_id policy state room s =
    elim (Option-cases (get_key state.jobs (format_job_id state.next_job))) [
      | inl fresh ↦ fresh
      | inr (job, there) ↦
          let (number, below, stored) =
            All-get_key (IsNumbered policy true state.idempotency state.next_job) state.jobs
              (format_job_id state.next_job) there s.jobs in
          let same : number ≡ state.next_job = ok-injective (
            sym ((parse_job_number-HasNumber _ number).1 stored.numbered)
            ∙ ap parse_job_number (sym stored.keyed)
            ∙ (parse_job_number-format_job_id state.next_job room).1) in
          absurd (omega arith)
    ]

-- A stored job with another index that leads to it as well.
indexed_elsewhere :
    (policy : StorePolicy) (before after : List (List ℕ × List ℕ)) (map_key : List ℕ)
    (job : StoredJob) (number : ℕ)
    → get_key after (idempotency_map_key job.owner job.idempotency_key) ≡ some job.job_id
    → IsStored policy true before map_key job number
    → IsStored policy true after map_key job number
indexed_elsewhere policy before after map_key job number there s = record {
  keyed = s.keyed;
  owner = s.owner;
  method = s.method;
  threads = s.threads;
  memory = s.memory;
  output = s.output;
  idempotency_key = s.idempotency_key;
  numbered = s.numbered;
  indexed = there;
  history = s.history;
  settled = s.settled;
  marked = s.marked;
}

within : (limit n : ℕ) → n ≤ limit → (true && ltb limit n) ≡ false
within limit n h = ground arith

queued_job-IsStored :
    (world : World) (registry : JobRegistry) (submission : JobSubmission)
    → 0 < registry.policy.max_events_per_job
    → registry.state.next_job < u64_end
    → IsSubmission submission
    → IsStored registry.policy true
        (admitted world registry submission).idempotency
        (format_job_id registry.state.next_job)
        (queued_job world submission
          (format_job_id registry.state.next_job)
          registry.policy.max_events_per_job)
        registry.state.next_job
unfolding queued_job admitted new_job
queued_job-IsStored world registry submission some_kept room v =
    let job_id = format_job_id registry.state.next_job in
    let most = registry.policy.max_events_per_job in
    let (present, short) =
      length-appended (new_job world submission job_id) (world.stamp job_id) "queued" most
        some_kept in
    record {
      keyed = refl;
      owner = (valid_identifier-IsIdentifier submission.owner session_prefix).0 v.owner;
      method = v.method;
      threads = v.threads;
      memory = v.memory;
      output = v.output;
      idempotency_key = (validate_idempotency_key-IsKey submission.idempotency_key).0 v.key;
      numbered =
          (parse_job_number-HasNumber job_id registry.state.next_job).0
            (parse_job_number-format_job_id registry.state.next_job room).1;
      indexed = insert_key-get_key registry.state.idempotency (key_of submission) job_id;
      history = record {
        some_events = present;
        retained = within most _ short;
        log =
            first-IsLog (new_job world submission job_id) (world.stamp job_id) "queued" most
              some_kept refl refl;
      };
      settled = (refl, refl);
      marked = tt;
    }

-- A key that finds something is not one that finds nothing.
pub other_key {ℓ} :
    {V : Type ℓ} (es : List (List ℕ × V)) (fresh key : List ℕ) {value : V}
    → get_key es fresh ≡ none
    → get_key es key ≡ some value
    → same_bytes fresh key ≡ false
other_key es fresh key {value} nothing there = elim (Bool-cases (same_bytes fresh key)) [
  | inl hit ↦
      let bad : none ≡ some value =
        sym nothing ∙ ap (get_key es) (same_bytes→eq fresh key hit) ∙ there in
      cc
  | inr miss ↦ miss
]

pub admitted-IsStore :
    (world : World) (registry : JobRegistry) (submission : JobSubmission)
    → 0 < registry.policy.max_events_per_job
    → length registry.state.jobs < registry.policy.max_retained_jobs
    → registry.state.next_job + 1 < u64_end
    → get_key registry.state.idempotency (key_of submission) ≡ none
    → IsSubmission submission
    → IsStore registry.policy true registry.state
    → IsStore registry.policy true (admitted world registry submission)
unfolding admitted queued_job new_job
admitted-IsStore world registry submission some_kept retained room fresh v s =
    let policy = registry.policy in
    let state = registry.state in
    let job_id = format_job_id state.next_job in
    let job = queued_job world submission job_id policy.max_events_per_job in
    let index = insert_key state.idempotency (key_of submission) job_id in
    let unused = fresh_job_id policy state (omega arith) s in
    let more_jobs = length-insert_key state.jobs job_id job unused in
    let more_keys = length-insert_key state.idempotency (key_of submission) job_id fresh in
    record {
      schema = s.schema;
      retained =
          within policy.max_retained_jobs (length (insert_key state.jobs job_id job)) (omega arith);
      counter = omega arith;
      counts = more_keys ∙ ap suc s.counts ∙ sym more_jobs;
      jobs =
          insert_key-All (IsNumbered policy true index (state.next_job + 1)) state.jobs job_id job
            (
              state.next_job,
              omega arith,
              queued_job-IsStored world registry submission some_kept (omega arith) v,
            )
            (All_imp (IsNumbered policy true state.idempotency state.next_job)
              (IsNumbered policy true index (state.next_job + 1)) state.jobs
              (λ e (number, below, stored). (
                number,
                omega arith,
                indexed_elsewhere policy state.idempotency index e.0 e.1 number
                    (insert_key-get_key_other state.idempotency (key_of submission)
                        (idempotency_map_key e.1.owner e.1.idempotency_key) job_id
                        (other_key state.idempotency (key_of submission)
                          (idempotency_map_key e.1.owner e.1.idempotency_key) fresh stored.indexed)
                      ∙ stored.indexed)
                    stored,
              ))
              s.jobs);
      index =
          insert_key-All (LeadsBack (insert_key state.jobs job_id job)) state.idempotency
            (key_of submission) job_id (job, insert_key-get_key state.jobs job_id job, refl)
            (All_imp (LeadsBack state.jobs) (LeadsBack (insert_key state.jobs job_id job))
              state.idempotency
              (λ e (old, there, key). (
                old,
                insert_key-get_key_other state.jobs job_id e.1 job
                      (other_key state.jobs job_id e.1 unused there)
                    ∙ there,
                key,
              ))
              s.index);
    }
