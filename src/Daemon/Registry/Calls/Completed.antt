-- ===== src/Daemon/Registry/Calls/Completed.antt =====
-- The completion of a job, on storage that works.
use pithos.Prelude.{
  ℕ, ◌+◌, ◌<◌, ◌≡◌, refl, ap, ◌∙◌, Bool, true, false, not, none, some, List, if◌then◌else◌,
}
use pithos.Core.Checked.{u64_end}
use pithos.AgentApi.{Value, ok, ◌>>◌, ◌>>=◌}
use pithos.AgentApi.Jobs.{completed}
use pithos.Daemon.Registry.{StoredJob, StorePolicy}
use pithos.Daemon.Registry.Markers.{require_recorded_pack_publication}
use pithos.Daemon.Registry.Events.Appended.{appended, appended-append_event}
use pithos.Daemon.Registry.Validation.States.{IsStore}
use pithos.Daemon.Registry.Storage.{World, JobRegistry}
use pithos.Daemon.Registry.Storage.Commit.{Works}
use pithos.Daemon.Registry.Storage.Trimmed.{commit_succeeds}
use pithos.Daemon.Registry.Operations.{can_complete, complete_job}
use pithos.Daemon.Registry.Operations.Updates.{complete_job-update}
use pithos.Daemon.Registry.Operations.Stored.{with_job-IsStore}
use pithos.Daemon.Registry.Calls.{
  owned_job, with_job, apply_update, update_found, update_owned, quietly, complete,
}
use pithos.Daemon.Registry.Calls.Owned.{owned_job-get_key}

-- The job with its result and the event of it.
abbrev pub completed_job : World → StorePolicy → Value → StoredJob → StoredJob
completed_job world policy result job =
    appended (record job { state = completed; result = some result; error = none })
      (world.stamp job.job_id) "completed" policy.max_events_per_job

complete_job_succeeds :
    (world : World) (policy : StorePolicy) (result : Value) (job : StoredJob)
    → can_complete job.state ≡ true
    → require_recorded_pack_publication job ≡ ok tt
    → job.next_sequence + 1 < u64_end
    → complete_job world result policy.max_events_per_job job
      ≡ ok (completed_job world policy result job)
unfolding complete_job
complete_job_succeeds world policy result job live recorded room =
    rw (live, recorded)
      (appended-append_event (record job { state = completed; result = some result; error = none })
        (world.stamp job.job_id) "completed" policy.max_events_per_job room)

pub when_healthy {ℓ} :
    {A : Type ℓ} (is_healthy : Bool) (refused call : A)
    → is_healthy ≡ true
    → (if not is_healthy then refused else call) ≡ call
when_healthy true refused call h = refl
when_healthy false refused call h = cc

-- On a healthy and consistent registry that keeps at least one event of a job, with working storage,
-- the owner of a live job with an event number left, whose publication is recorded if it packs,
-- completes it: the call succeeds, the job has the result and one more event, in memory and in the
-- file, and nothing else has changed.
pub complete-completed_job :
    (world : World) (registry : JobRegistry) (owner job_id : List ℕ) (result : Value)
    (job : StoredJob)
    → registry.healthy ≡ true
    → 0 < registry.policy.max_events_per_job
    → IsStore registry.policy true registry.state
    → owned_job registry.state owner job_id ≡ ok job
    → can_complete job.state ≡ true
    → require_recorded_pack_publication job ≡ ok tt
    → job.next_sequence + 1 < u64_end
    → (works : Works world registry.policy
        (with_job registry.state job_id (completed_job world registry.policy result job)))
    → complete world registry owner job_id result ≡ (
      ok tt,
      record registry {
        state = with_job registry.state job_id (completed_job world registry.policy result job);
        file = some works.bytes;
      },
    )
unfolding complete update_owned update_found apply_update quietly
complete-completed_job world registry owner job_id result job healthy some_kept s found live
      recorded room works =
    let next = completed_job world registry.policy result job in
    let done = complete_job_succeeds world registry.policy result job live recorded room in
    let (u, keeps) = complete_job-update world result registry.policy.max_events_per_job job done in
    let whole =
      with_job-IsStore registry.policy registry.state job_id job next some_kept
        (owned_job-get_key registry.state owner job_id found) u keeps s in
    let update = quietly (complete_job world result registry.policy.max_events_per_job) in
    when_healthy registry.healthy _ _ healthy
    ∙ ap (update_found world registry job_id update) found
    ∙ ap (λ r. apply_update world registry job_id (r >>= λ j. ok (j, tt))) done
    ∙ ap (λ c. (c.0 >> ok tt, c.1))
        (commit_succeeds world registry (with_job registry.state job_id next) whole works)
