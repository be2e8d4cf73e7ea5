-- ===== src/Daemon/Registry/Submission/Admission.antt =====
-- What `admit` returns.
use pithos.Prelude.{ℕ, ◌+◌, ◌<◌, ◌≡◌, sym, ap, subst, ◌∙◌, not, ◌||◌, List, length, ltb, leb, arith}
use pithos.Core.Checked.{u64_end, checked_add, checked_add-some}
use pithos.AgentApi.{
  ok, JsonRpcError, both-ok, invalid_params, RpcResult, ◌>>◌, ◌>>=◌, bail_if, ok_or, ok_or-some,
  bind-inv, ok-injective, resource_limit_error,
}
use pithos.AgentApi.Ids.{job_prefix, new_id, starts_with, all_bytes, identifier_byte}
use pithos.Daemon.Registry.{PersistentState, JobSubmission}
use pithos.Daemon.Registry.Maps.{insert_key}
use pithos.Daemon.Registry.Identifiers.{format_job_id}
use pithos.Daemon.Registry.Events.{append_event}
use pithos.Daemon.Registry.Events.Appended.{append_event-appended}
use pithos.Daemon.Registry.Storage.{World, JobRegistry}
use pithos.Daemon.Registry.Submission.{new_job, nonterminal_of, admit}
use pithos.Daemon.Registry.Submission.Admitted.{queued_job, key_of, admitted}

-- The state with a job of any identifier and any next number.
with_queued : World → JobRegistry → JobSubmission → List ℕ → ℕ → PersistentState
with_queued world registry submission job_id next_job = record registry.state {
  next_job = next_job;
  idempotency = insert_key registry.state.idempotency (key_of submission) job_id;
  jobs =
      insert_key registry.state.jobs job_id
        (queued_job world submission job_id registry.policy.max_events_per_job);
}

admitted_as :
    (world : World) (registry : JobRegistry) (submission : JobSubmission) (id : List ℕ) (next : ℕ)
    {state : PersistentState} {job_id : List ℕ}
    → ◌>>=◌ {U = PersistentState × List ℕ}
        (append_event
          (new_job world submission id)
          (world.stamp id)
          "queued"
          registry.policy.max_events_per_job)
        (λ job. ok (
          record registry.state {
            next_job = next;
            idempotency = insert_key registry.state.idempotency (key_of submission) id;
            jobs = insert_key registry.state.jobs id job;
          },
          id,
        ))
      ≡ ok (state, job_id)
    → (state ≡ with_queued world registry submission id next) × (job_id ≡ id)
unfolding queued_job with_queued
admitted_as world registry submission id next q =
    let (job, j, q1) =
      bind-inv
        (append_event (new_job world submission id) (world.stamp id) "queued"
          registry.policy.max_events_per_job)
        _ q in
    let (e, room) =
      append_event-appended (new_job world submission id) (world.stamp id) "queued"
        registry.policy.max_events_per_job j in
    let (is_state, is_id) = both q1 in
    (
      sym is_state
          ∙ ap
              (λ job. record registry.state {
                next_job = next;
                idempotency = insert_key registry.state.idempotency (key_of submission) id;
                jobs = insert_key registry.state.jobs id job;
              })
              e,
      sym is_id,
    )
  where
    both :
        {s t : PersistentState} {a b : List ℕ}
        → ◌≡◌ {A = RpcResult (PersistentState × List ℕ)} (ok (s, a)) (ok (t, b))
        → (s ≡ t) × (a ≡ b)
    both q = (cc, cc)

new_id-same : (prefix value : List ℕ) {id : List ℕ} → new_id prefix value ≡ ok id → id ≡ value
unfolding new_id
new_id-same prefix value q =
    let (u, h, k) =
      bind-inv
        (bail_if
          (ltb (length value) (length prefix + 8)
            || ltb 96 (length value)
            || not (starts_with value prefix)
            || not (all_bytes identifier_byte value))
          (invalid_params "invalid identifier"))
        _ q in
    sym (ok-injective k)

room_left : (size most : ℕ) (e : JsonRpcError) → bail_if (leb most size) e ≡ ok tt → size < most
room_left size most e h = ground arith

-- What `admit` returns.
pub admit-admitted :
    (world : World) (registry : JobRegistry) (submission : JobSubmission) (most : ℕ)
    {state : PersistentState} {job_id : List ℕ}
    → admit world registry submission most ≡ ok (state, job_id)
    → (state ≡ admitted world registry submission)
      × (job_id ≡ format_job_id registry.state.next_job)
      × (length registry.state.jobs < registry.policy.max_retained_jobs)
      × (registry.state.next_job + 1 < u64_end)
unfolding admit admitted with_queued
admit-admitted world registry submission most q =
    let (u, checks, q1) =
      bind-inv
        (bail_if (leb registry.policy.max_retained_jobs (length registry.state.jobs))
            (resource_limit_error "job retention capacity exceeded")
          >> bail_if (leb most (nonterminal_of submission.owner registry.state.jobs))
              (resource_limit_error "session job quota exceeded"))
        _ q in
    let (id, i, q2) = bind-inv (new_id job_prefix (format_job_id registry.state.next_job)) _ q1 in
    let (next, n, q3) =
      bind-inv
        (ok_or (checked_add registry.state.next_job 1)
          (resource_limit_error "job id space exhausted"))
        _ q2 in
    let (retained, quota) =
      both-ok
        (bail_if (leb registry.policy.max_retained_jobs (length registry.state.jobs))
          (resource_limit_error "job retention capacity exceeded"))
        (bail_if (leb most (nonterminal_of submission.owner registry.state.jobs))
          (resource_limit_error "session job quota exceeded"))
        checks in
    let same_id = new_id-same job_prefix (format_job_id registry.state.next_job) i in
    let next_one = checked_add-some registry.state.next_job 1 (ok_or-some _ _ n) in
    let (is_state, is_id) = admitted_as world registry submission id next q3 in
    (
      is_state
          ∙ ap (λ d. with_queued world registry submission d next) same_id
          ∙ ap (with_queued world registry submission (format_job_id registry.state.next_job))
              next_one.0,
      is_id ∙ same_id,
      room_left (length registry.state.jobs) registry.policy.max_retained_jobs _ retained,
      subst (λ m. m < u64_end) next_one.0 next_one.1,
    )
