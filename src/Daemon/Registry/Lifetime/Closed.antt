-- ===== src/Daemon/Registry/Lifetime/Closed.antt =====
-- The shutdown of the registry: the jobs that it leaves, and those that it names.
use pithos.Prelude.{
  ℕ, ◌<◌, ◌≡◌, refl, sym, ap, subst, ◌∙◌, ◌⊎◌, inl, inr, Bool, true, false, List, All, if_either,
  ◌≢◌,
}
use pithos.AgentApi.{RpcResult, ok, err, ◌>>◌, ok-injective}
use pithos.Daemon.Registry.{StoredJob}
use pithos.Daemon.Registry.Validation.States.{IsStore}
use pithos.Daemon.Registry.Storage.{World, JobRegistry, commit}
use pithos.Daemon.Registry.Storage.Commit.{
  trimmed, Committed, done, not_synced, refused, commit-Committed,
}
use pithos.Daemon.Registry.Storage.Trimmed.{IsShort, trimmed_short, IsStore-IsShort}
use pithos.Daemon.Registry.Calls.Stepped.{IsStepped, same-IsStepped, commit-IsStepped}
use pithos.Daemon.Registry.Queries.{nonterminal}
use pithos.Daemon.Registry.Lifetime.{Shutdown, shut_down_jobs, apply_shutdown, close_and_cancel_all}
use pithos.Daemon.Registry.Lifetime.Stopped.{IsStopped, IsShutDown, shut_down_jobs-IsShutDown}

-- The registry behind a shutdown that was committed.
jobs_after_commit :
    (world : World) (registry : JobRegistry) (jobs : List (List ℕ × StoredJob))
    {r : RpcResult (Unit {0})} {after : JobRegistry}
    → All (IsShort registry.policy.max_events_per_job) jobs
    → Committed world (trimmed registry (record registry.state { jobs = jobs })) registry r after
    → r ≡ ok tt
    → (after.state.jobs ≡ jobs) × (after.closed ≡ registry.closed)
jobs_after_commit world registry jobs short (done after r h) q = (
  ap (λ st. st.jobs)
      (r.state ∙ trimmed_short registry (record registry.state { jobs = jobs }) short),
  r.closed,
)
jobs_after_commit world registry jobs short (not_synced after e r h) q = cc
jobs_after_commit world registry jobs short (refused after e r h) q = cc

-- What a successful shutdown leaves.
abbrev pub IsClosed : JobRegistry → List (List ℕ × List ℕ) → JobRegistry → Type 0
IsClosed before affected after =
    (after.closed ≡ true)
    × All IsStopped after.state.jobs
    × (affected ≡ nonterminal before.state.jobs)

answered :
    {affected named : List (List ℕ × List ℕ)} (done : RpcResult (Unit {0}))
    → (done >> ok named) ≡ ok affected
    → (done ≡ ok tt) × (named ≡ affected)
answered (ok tt) q = (refl, ok-injective q)
answered (err e) q = cc

not_true : {b : Bool} → b ≡ false → b ≢ true
not_true h k = cc

unchanged_jobs :
    (shutdown : Shutdown) {jobs : List (List ℕ × StoredJob)}
    → shutdown.changed ≡ false
    → (shutdown.changed ≡ true) ⊎ (shutdown.jobs ≡ jobs)
    → shutdown.jobs ≡ jobs
unchanged_jobs shutdown h (inl k) = absurd (not_true h k)
unchanged_jobs shutdown h (inr e) = e

apply_shutdown-IsClosed :
    (world : World) (registry : JobRegistry) (shutdown : RpcResult Shutdown)
    {affected : List (List ℕ × List ℕ)}
    → registry.closed ≡ true
    → ((found : Shutdown)
        → shutdown ≡ ok found
        → IsShutDown registry.policy.max_events_per_job registry.state.jobs found)
    → (apply_shutdown world registry shutdown).0 ≡ ok affected
    → IsClosed registry affected (apply_shutdown world registry shutdown).1
unfolding apply_shutdown
apply_shutdown-IsClosed world registry (err error) closed known = λ q. cc
apply_shutdown-IsClosed world registry (ok shutdown) {affected} closed known =
    let shut = known shutdown refl in
    let next = commit world registry (record registry.state { jobs = shutdown.jobs }) in
    if_either
      (λ (c : RpcResult (List (List ℕ × List ℕ)) × JobRegistry).
        c.0 ≡ ok affected → IsClosed registry affected c.1)
      shutdown.changed (next.0 >> ok shutdown.affected, next.1) (ok shutdown.affected, registry)
      (λ t q.
        let (committed, names) = answered next.0 q in
        let (jobs, still) =
          jobs_after_commit world registry shutdown.jobs shut.short
            (commit-Committed world registry (record registry.state { jobs = shutdown.jobs }))
            committed in
        (still ∙ closed, subst (All IsStopped) (sym jobs) shut.stopped, sym names ∙ shut.affected))
      (λ t q. (
        closed,
        subst (All IsStopped) (unchanged_jobs shutdown t shut.unchanged) shut.stopped,
        sym (ok-injective q) ∙ shut.affected,
      ))

-- A shutdown that succeeds, on a consistent registry that keeps at least one event of a job, leaves it
-- closed, with every job cancelling or in a terminal state, and names exactly the jobs that were not
-- in one before.
pub close_and_cancel_all-IsClosed :
    (world : World) (registry : JobRegistry) {affected : List (List ℕ × List ℕ)}
    → 0 < registry.policy.max_events_per_job
    → IsStore registry.policy true registry.state
    → (close_and_cancel_all world registry).0 ≡ ok affected
    → IsClosed registry affected (close_and_cancel_all world registry).1
unfolding close_and_cancel_all
close_and_cancel_all-IsClosed world registry some_kept s q =
    apply_shutdown-IsClosed world (record registry { closed = true })
      (shut_down_jobs world registry.policy.max_events_per_job registry.state.jobs) refl
      (λ found h.
        shut_down_jobs-IsShutDown world registry.policy.max_events_per_job registry.state.jobs
          some_kept (IsStore-IsShort registry.policy registry.state s) h)
      q

apply_shutdown-IsStepped :
    (world : World) (registry : JobRegistry) (shutdown : RpcResult Shutdown)
    → ((found : Shutdown)
        → shutdown ≡ ok found
        → IsShutDown registry.policy.max_events_per_job registry.state.jobs found)
    → IsStepped registry (apply_shutdown world registry shutdown).1
unfolding apply_shutdown
apply_shutdown-IsStepped world registry (err error) known =
    same-IsStepped registry registry refl refl
apply_shutdown-IsStepped world registry (ok shutdown) known =
    let shut = known shutdown refl in
    let next = commit world registry (record registry.state { jobs = shutdown.jobs }) in
    if_either (λ (c : RpcResult (List (List ℕ × List ℕ)) × JobRegistry). IsStepped registry c.1)
      shutdown.changed (next.0 >> ok shutdown.affected, next.1) (ok shutdown.affected, registry)
      (λ t.
        commit-IsStepped world registry (record registry.state { jobs = shutdown.jobs }) shut.short
          shut.steps)
      (λ t. same-IsStepped registry registry refl refl)

pub close_and_cancel_all-IsStepped :
    (world : World) (registry : JobRegistry)
    → 0 < registry.policy.max_events_per_job
    → IsStore registry.policy true registry.state
    → IsStepped registry (close_and_cancel_all world registry).1
unfolding close_and_cancel_all
close_and_cancel_all-IsStepped world registry some_kept s =
    let stepped =
      apply_shutdown-IsStepped world (record registry { closed = true })
        (shut_down_jobs world registry.policy.max_events_per_job registry.state.jobs)
        (λ found h.
          shut_down_jobs-IsShutDown world registry.policy.max_events_per_job registry.state.jobs
            some_kept (IsStore-IsShort registry.policy registry.state s) h) in
    record { policy = stepped.policy; jobs = stepped.jobs; consistent = stepped.consistent }
