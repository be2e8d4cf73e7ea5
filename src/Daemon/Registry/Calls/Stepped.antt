-- ===== src/Daemon/Registry/Calls/Stepped.antt =====
-- The calls on one job of an owner, as steps of all the jobs of the registry.
use pithos.Prelude.{
  ℕ, ◌<◌, ◌≤◌, ◌≡◌, refl, sym, ap, subst, ◌∙◌, ◌⊎◌, inl, inr, true, Bool-cases, some, List, All,
  length,
}
use pithos.Format.Same.{same_bytes, same_bytes→eq}
use pithos.AgentApi.{RpcResult}
use pithos.Daemon.Registry.{StoredJob, PersistentState}
use pithos.Daemon.Registry.Maps.{get_key, set_key, set_key-get_key, set_key-get_key_other}
use pithos.Daemon.Registry.Maps.Entries.{set_key-All}
use pithos.Daemon.Registry.Events.Appended.{length-appended}
use pithos.Daemon.Registry.Validation.States.{IsStore}
use pithos.Daemon.Registry.Storage.{World, JobRegistry, commit}
use pithos.Daemon.Registry.Storage.Commit.{
  trimmed, Committed, done, not_synced, refused, commit-Committed, commit-IsStore,
}
use pithos.Daemon.Registry.Storage.Trimmed.{IsShort, trimmed_short, IsStore-IsShort}
use pithos.Daemon.Registry.Operations.Moves.{Update, changed}
use pithos.Daemon.Registry.Calls.{with_job}

abbrev pub JobStep : ℕ → StoredJob → StoredJob → Type 0
JobStep maximum job next = (next ≡ job) ⊎ Update maximum job next

abbrev pub JobsStep : ℕ → List (List ℕ × StoredJob) → List (List ℕ × StoredJob) → Type 0
JobsStep maximum before after =
    (job_id : List ℕ) (job : StoredJob)
    → get_key before job_id ≡ some job
    → (next : StoredJob) × (get_key after job_id ≡ some next) × JobStep maximum job next

-- The policy stays, and every job is there with one update at most.
pub record IsStepped (before after : JobRegistry) : Type 0 where
  pub policy : after.policy ≡ before.policy
  pub jobs : JobsStep before.policy.max_events_per_job before.state.jobs after.state.jobs
  pub consistent : IsStore before.policy true before.state → IsStore after.policy true after.state

pub same-IsStepped :
    (before after : JobRegistry)
    → after.policy ≡ before.policy
    → after.state ≡ before.state
    → IsStepped before after
same-IsStepped before after p q = record {
  policy = p;
  jobs = λ job_id job there. (job, ap (λ s. get_key s.jobs job_id) q ∙ there, inl refl);
  consistent = λ s. rw (p, q) s;
}

pub commit-IsStepped :
    (world : World) (registry : JobRegistry) (state : PersistentState)
    → All (IsShort registry.policy.max_events_per_job) state.jobs
    → JobsStep registry.policy.max_events_per_job registry.state.jobs state.jobs
    → IsStepped registry (commit world registry state).1
commit-IsStepped world registry state short steps =
    let stepped = ended (commit-Committed world registry state) in
    record {
      policy = stepped.0;
      jobs = stepped.1;
      consistent = commit-IsStore world registry state;
    }
  where
    Ended : JobRegistry → Type 0
    Ended after =
        (after.policy ≡ registry.policy)
        × JobsStep registry.policy.max_events_per_job registry.state.jobs after.state.jobs

    replaced :
        (after : JobRegistry)
        → after.policy ≡ registry.policy
        → after.state ≡ trimmed registry state
        → Ended after
    replaced after p q = (
      p,
      λ job_id job there.
          let (next, found, step) = steps job_id job there in
          (
            next,
            ap (λ s. get_key s.jobs job_id) (q ∙ trimmed_short registry state short) ∙ found,
            step,
          ),
    )

    ended :
        {r : RpcResult (Unit {0})} {after : JobRegistry}
        → Committed world (trimmed registry state) registry r after
        → Ended after
    ended (done after r h) = replaced after r.policy r.state
    ended (not_synced after e r h) = replaced after r.policy r.state
    ended (refused after e r h) = (
      r.policy,
      λ job_id job there. (job, ap (λ s. get_key s.jobs job_id) r.state ∙ there, inl refl),
    )

pub JobStep-short :
    (maximum : ℕ) (job next : StoredJob)
    → 0 < maximum
    → length job.events ≤ maximum
    → JobStep maximum job next
    → length next.events ≤ maximum
JobStep-short maximum job next some_kept h (inl e) =
    subst (λ j. length j.events ≤ maximum) (sym e) h
JobStep-short maximum job next some_kept h (inr u) =
    subst (λ j. length j.events ≤ maximum) (sym u.becomes)
      (length-appended (changed job u.state u.result u.error u.marker) u.now u.phase maximum
        some_kept).1

-- One job replaced.
with_job-JobsStep :
    (maximum : ℕ) (state : PersistentState) (job_id : List ℕ) (job next : StoredJob)
    → get_key state.jobs job_id ≡ some job
    → JobStep maximum job next
    → JobsStep maximum state.jobs (with_job state job_id next).jobs
unfolding with_job
with_job-JobsStep maximum state job_id job next there step other old found =
    elim (Bool-cases (same_bytes job_id other)) [
      | inl hit ↦
          let same = same_bytes→eq job_id other hit in
          let is_job : job ≡ old = some_inj (sym there ∙ ap (get_key state.jobs) same ∙ found) in
          (
            next,
            ap (get_key (set_key state.jobs job_id next)) (sym same)
                ∙ set_key-get_key state.jobs job_id next there,
            subst (λ j. JobStep maximum j next) is_job step,
          )
      | inr miss ↦ (old, set_key-get_key_other state.jobs job_id other next miss ∙ found, inl refl)
    ]
  where
    some_inj : {a b : StoredJob} → some a ≡ some b → a ≡ b
    some_inj q = cc

pub commit-with_job-IsStepped :
    (world : World) (registry : JobRegistry) (job_id : List ℕ) (job next : StoredJob)
    → 0 < registry.policy.max_events_per_job
    → IsStore registry.policy true registry.state
    → get_key registry.state.jobs job_id ≡ some job
    → JobStep registry.policy.max_events_per_job job next
    → IsStepped registry (commit world registry (with_job registry.state job_id next)).1
unfolding with_job
commit-with_job-IsStepped world registry job_id job next some_kept s there step =
    let short = IsStore-IsShort registry.policy registry.state s in
    commit-IsStepped world registry (with_job registry.state job_id next)
      (set_key-All (IsShort registry.policy.max_events_per_job) registry.state.jobs job_id next
        there (λ h. JobStep-short registry.policy.max_events_per_job job next some_kept h step)
        short)
      (with_job-JobsStep registry.policy.max_events_per_job registry.state job_id job next there
        step)
