-- ===== src/Daemon/Registry/Calls/Unsettled.antt =====
-- `transition` to a state that wants a result or an error, which it does not set.
use pithos.Prelude.{
  ℕ, ◌+◌, ◌<◌, ◌≡◌, refl, ap, subst, ◌∙◌, true, false, some, Option, List, String, arith,
}
use pithos.Core.Checked.{u64_end}
use pithos.AgentApi.{Value, JsonRpcError, RpcResult, ok, err, ◌>>◌, ◌>>=◌}
use pithos.AgentApi.Jobs.{ApiJobState, queued, running, cancelling, completed, failed, cancelled}
use pithos.Daemon.Registry.{StoredJob, StorePolicy, PersistentState}
use pithos.Daemon.Registry.Maps.{get_key, set_key-get_key}
use pithos.Daemon.Registry.Maps.Entries.{set_key-All, All-get_key}
use pithos.Daemon.Registry.Events.Appended.{appended, appended-append_event, length-appended}
use pithos.Daemon.Registry.Validation.{has_valid_result}
use pithos.Daemon.Registry.Validation.Jobs.{IsStored-Suits}
use pithos.Daemon.Registry.Validation.States.{IsStore, IsNumbered}
use pithos.Daemon.Registry.Storage.{
  World, JobRegistry, publish_valid, after_publish, commit_with_sync, commit,
}
use pithos.Daemon.Registry.Storage.Commit.{trimmed, publish_valid-ok}
use pithos.Daemon.Registry.Storage.Trimmed.{IsShort, trimmed_short, IsStore-IsShort}
use pithos.Daemon.Registry.Operations.{valid_transition, prepared, transition_job}
use pithos.Daemon.Registry.Operations.Transitions.{is_ending}
use pithos.Daemon.Registry.Calls.{
  owned_job, with_job, apply_update, update_found, update_owned, quietly, transition,
}
use pithos.Daemon.Registry.Calls.Owned.{owned_job-get_key}
use pithos.Daemon.Registry.Calls.Completed.{when_healthy}

-- The registry after a call that has failed behind its checks.
abbrev pub Refuses {ℓ} : {R : Type ℓ} → JobRegistry → RpcResult R × JobRegistry → Type ℓ
Refuses registry answer =
    (error : JsonRpcError) × (answer ≡ (err error, record registry { healthy = false }))

-- A state that does not pass the check is not committed.
pub commit_inconsistent :
    (world : World) (registry : JobRegistry) (state : PersistentState)
    → ¬ IsStore registry.policy true (trimmed registry state)
    → Refuses registry (commit world registry state)
unfolding commit commit_with_sync trimmed after_publish
commit_inconsistent world registry state bad =
    refused (publish_valid world registry.policy (trimmed registry state)) refl
  where
    refused :
        (published : RpcResult (List ℕ))
        → publish_valid world registry.policy (trimmed registry state) ≡ published
        → Refuses registry (after_publish world registry (trimmed registry state) published)
    refused (err error) q = (error, refl)
    refused (ok bytes) q =
        absurd (bad (publish_valid-ok world registry.policy (trimmed registry state) q).0)

-- The job that the closure of `transition` leaves in such a state.
abbrev unsettled : World → ℕ → StoredJob → ApiJobState → String → StoredJob
unsettled world maximum job state phase =
    appended (record job { state = state }) (world.stamp job.job_id) phase maximum

transition_job_ends :
    (world : World) (maximum : ℕ) (job : StoredJob) (state : ApiJobState) (phase : String)
    → valid_transition job.state state ≡ true
    → is_ending state ≡ true
    → job.next_sequence + 1 < u64_end
    → transition_job world state phase maximum job ≡ ok (unsettled world maximum job state phase)
unfolding transition_job prepared
transition_job_ends world maximum job completed phase valid ending room = rw valid (
    appended-append_event (record job { state = completed }) (world.stamp job.job_id) phase maximum
      room)
transition_job_ends world maximum job failed phase valid ending room = rw valid (
    appended-append_event (record job { state = failed }) (world.stamp job.job_id) phase maximum
      room)
transition_job_ends world maximum job queued phase valid ending room = cc
transition_job_ends world maximum job running phase valid ending room = cc
transition_job_ends world maximum job cancelling phase valid ending room = cc
transition_job_ends world maximum job cancelled phase valid ending room = cc

-- The result and the error of a job before the move do not suit it afterwards.
ends_unsettled :
    (before after : ApiJobState) (result : Option Value) (error : Option JsonRpcError)
    → valid_transition before after ≡ true
    → is_ending after ≡ true
    → has_valid_result before result error ≡ true
    → has_valid_result after result error ≡ true
    → ⊥
unfolding valid_transition has_valid_result
ends_unsettled queued completed result error a b c d = cc
ends_unsettled queued failed result error a b c d = cc
ends_unsettled running completed result error a b c d = ground arith
ends_unsettled running failed result error a b c d = ground arith
ends_unsettled cancelling completed result error a b c d = cc
ends_unsettled cancelling failed result error a b c d = ground arith
ends_unsettled completed completed result error a b c d = cc
ends_unsettled completed failed result error a b c d = cc
ends_unsettled failed completed result error a b c d = cc
ends_unsettled failed failed result error a b c d = cc
ends_unsettled cancelled completed result error a b c d = cc
ends_unsettled cancelled failed result error a b c d = cc
ends_unsettled before queued result error a b c d = cc
ends_unsettled before running result error a b c d = cc
ends_unsettled before cancelling result error a b c d = cc
ends_unsettled before cancelled result error a b c d = cc

-- What a consistent state says of the result of a job that it holds.
held_result :
    (policy : StorePolicy) (state : PersistentState) (job_id : List ℕ) {job : StoredJob}
    → IsStore policy true state
    → get_key state.jobs job_id ≡ some job
    → has_valid_result job.state job.result job.error ≡ true
held_result policy state job_id s there =
    let (number, below, stored) =
      All-get_key (IsNumbered policy true state.idempotency state.next_job) state.jobs job_id there
        s.jobs in
    (IsStored-Suits stored).0

-- The state with such a job is not consistent.
unsettled_inconsistent :
    (world : World) (registry : JobRegistry) (job_id : List ℕ) (state : ApiJobState)
    (phase : String) (job : StoredJob)
    → 0 < registry.policy.max_events_per_job
    → IsStore registry.policy true registry.state
    → get_key registry.state.jobs job_id ≡ some job
    → valid_transition job.state state ≡ true
    → is_ending state ≡ true
    → ¬ IsStore registry.policy true (
        trimmed registry (
          with_job registry.state job_id
            (unsettled world registry.policy.max_events_per_job job state phase)))
unfolding with_job
unsettled_inconsistent world registry job_id state phase job some_kept s there valid ending bad =
    let maximum = registry.policy.max_events_per_job in
    let next = unsettled world maximum job state phase in
    let short =
      (length-appended (record job { state = state }) (world.stamp job.job_id) phase maximum
        some_kept).1 in
    let all_short =
      set_key-All (IsShort maximum) registry.state.jobs job_id next there (λ h. short)
        (IsStore-IsShort registry.policy registry.state s) in
    let consistent =
      subst (IsStore registry.policy true)
        (trimmed_short registry (with_job registry.state job_id next) all_short) bad in
    ends_unsettled job.state state job.result job.error valid ending
      (held_result registry.policy registry.state job_id s there)
      (held_result registry.policy (with_job registry.state job_id next) job_id consistent
        (set_key-get_key registry.state.jobs job_id next there))

-- On a healthy and consistent registry that keeps at least one event of a job, a transition of an
-- owned job with an event number left to the state completed or failed, when the table of transitions
-- permits it, always fails and leaves the registry unhealthy, whatever the world, with everything
-- else unchanged.
pub transition-Refuses :
    (world : World) (registry : JobRegistry) (owner job_id : List ℕ) (state : ApiJobState)
    (phase : String) (job : StoredJob)
    → registry.healthy ≡ true
    → 0 < registry.policy.max_events_per_job
    → IsStore registry.policy true registry.state
    → owned_job registry.state owner job_id ≡ ok job
    → valid_transition job.state state ≡ true
    → is_ending state ≡ true
    → job.next_sequence + 1 < u64_end
    → Refuses registry (transition world registry owner job_id state phase)
unfolding transition update_owned update_found apply_update quietly
transition-Refuses world registry owner job_id state phase job healthy some_kept s found valid
      ending room =
    let maximum = registry.policy.max_events_per_job in
    let next = unsettled world maximum job state phase in
    let there = owned_job-get_key registry.state owner job_id found in
    let whole = with_job registry.state job_id next in
    let (error, refused) = commit_inconsistent world registry whole (
      unsettled_inconsistent world registry job_id state phase job some_kept s there valid
        ending) in
    let update = quietly (transition_job world state phase maximum) in
    (
      error,
      when_healthy registry.healthy _ _ healthy
          ∙ ap (update_found world registry job_id update) found
          ∙ ap (λ r. apply_update world registry job_id (r >>= λ j. ok (j, tt)))
              (transition_job_ends world maximum job state phase valid ending room)
          ∙ ap (λ c. (c.0 >> ok tt, c.1)) refused,
    )
