-- ===== src/Daemon/Registry/Storage/Trimmed.antt =====
-- The trim before a commit, when no history is longer than permitted.
use pithos.Prelude.{
  ℕ, ◌-◌, ◌≤◌, ◌≡◌, refl, ap, ◌∙◌, true, false, ◌&&◌, some, List, [], ◌∷◌, All, All_imp, length,
  drop, ltb, arith,
}
use pithos.AgentApi.{ok}
use pithos.Daemon.Registry.{StoredJob, StorePolicy, PersistentState}
use pithos.Daemon.Registry.Events.{trim_jobs, trim_retained_events}
use pithos.Daemon.Registry.Events.Appended.{newest, trim_event_history-newest}
use pithos.Daemon.Registry.Validation.States.{IsNumbered, IsStore}
use pithos.Daemon.Registry.Storage.{World, JobRegistry, commit, commit_with_sync}
use pithos.Daemon.Registry.Storage.Commit.{trimmed, Works, commit_with_sync_succeeds}

abbrev pub IsShort : ℕ → List ℕ × StoredJob → Type 0
IsShort maximum e = length e.1.events ≤ maximum

pub newest_short :
    (job : StoredJob) (maximum : ℕ) → length job.events ≤ maximum → newest job maximum ≡ job
newest_short job maximum h =
    let none_over : length job.events - maximum ≡ 0 = omega arith in
    ap (λ n. record job { events = drop n job.events }) none_over

trim_jobs_short :
    (es : List (List ℕ × StoredJob)) (maximum : ℕ)
    → All (IsShort maximum) es
    → (trim_jobs es maximum).0 ≡ es
unfolding trim_jobs
trim_jobs_short [] maximum h = refl
trim_jobs_short (e ∷ es) maximum (short, rest) =
    let same = trim_event_history-newest e.1 maximum ∙ newest_short e.1 maximum short in
    ap (λ job. (e.0, job) ∷ (trim_jobs es maximum).0) same
    ∙ ap (◌∷◌ e) (trim_jobs_short es maximum rest)

pub trimmed_short :
    (registry : JobRegistry) (state : PersistentState)
    → All (IsShort registry.policy.max_events_per_job) state.jobs
    → trimmed registry state ≡ state
unfolding trimmed trim_retained_events
trimmed_short registry state h =
    ap (λ jobs. record state { jobs = jobs })
      (trim_jobs_short state.jobs registry.policy.max_events_per_job h)

within : (limit n : ℕ) → (true && ltb limit n) ≡ false → n ≤ limit
within limit n h = ground arith

-- The histories of a consistent state are short enough.
pub IsStore-IsShort :
    (policy : StorePolicy) (state : PersistentState)
    → IsStore policy true state
    → All (IsShort policy.max_events_per_job) state.jobs
IsStore-IsShort policy state s =
    All_imp (IsNumbered policy true state.idempotency state.next_job)
      (IsShort policy.max_events_per_job) state.jobs
      (λ e (number, below, stored).
        within policy.max_events_per_job (length e.1.events) stored.history.retained)
      s.jobs

-- Storage that works commits a consistent state as it is.
pub commit_succeeds :
    (world : World) (registry : JobRegistry) (state : PersistentState)
    → IsStore registry.policy true state
    → (works : Works world registry.policy state)
    → commit world registry state
      ≡ (ok tt, record registry { state = state; file = some works.bytes })
unfolding commit trimmed
commit_succeeds world registry state s works =
    ap (commit_with_sync world registry)
      (trimmed_short registry state (IsStore-IsShort registry.policy state s))
    ∙ commit_with_sync_succeeds world registry state s works
