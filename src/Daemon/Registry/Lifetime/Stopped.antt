-- ===== src/Daemon/Registry/Lifetime/Stopped.antt =====
-- The loop of the shutdown over the jobs.
use pithos.Prelude.{
  ℕ, ◌<◌, ◌≡◌, refl, sym, ap, subst, ◌⊎◌, inl, inr, Bool, true, false, not, Bool-cases, Option,
  none, some, String, List, [], ◌∷◌, All, if◌then◌else◌,
}
use pithos.Format.Same.{same_bytes}
use pithos.AgentApi.{Value, JsonRpcError, ok, ◌>>=◌, bind-inv, ok-injective, domain, cancelled_kind}
use pithos.AgentApi.Jobs.{
  ApiJobState, queued, running, cancelling, completed, failed, cancelled, is_terminal,
}
use pithos.Daemon.Registry.{StoredJob}
use pithos.Daemon.Registry.Maps.{get_key}
use pithos.Daemon.Registry.Events.{append_event}
use pithos.Daemon.Registry.Events.Appended.{append_event-appended}
use pithos.Daemon.Registry.Storage.{World}
use pithos.Daemon.Registry.Storage.Trimmed.{IsShort}
use pithos.Daemon.Registry.Operations.Moves.{
  Moves, queued_is_cancelled, running_stops, changed, by_event,
}
use pithos.Daemon.Registry.Calls.Stepped.{JobStep, JobsStep, JobStep-short}
use pithos.Daemon.Registry.Queries.{nonterminal}
use pithos.Daemon.Registry.Lifetime.{
  shut_down_job, Shutdown, add_shut_down, changed_or, shut_down_jobs,
}

-- A job that no worker will start or go on with.
abbrev pub IsStopped : List ℕ × StoredJob → Type 0
IsStopped e = (e.1.state ≡ cancelling) ⊎ (is_terminal e.1.state ≡ true)

abbrev Stops : ℕ → StoredJob → Option StoredJob → Type 0
Stops maximum job next =
    JobStep maximum job (changed_or job next) × IsStopped (job.job_id, changed_or job next)

-- A job that the shutdown changes.
stopped_by_event :
    (job : StoredJob) (state : ApiJobState) (result : Option Value) (error : Option JsonRpcError)
    (now : ℕ) (phase : String) (maximum : ℕ) {next : Option StoredJob}
    → Moves job.state state
    → (state ≡ cancelling) ⊎ (is_terminal state ≡ true)
    → (append_event (changed job state result error job.pack_publication) now phase maximum >>= λ j.
        ok (some j))
      ≡ ok next
    → Stops maximum job next
stopped_by_event job state result error now phase maximum moves stopped q =
    let (j, h, k) =
      bind-inv
        (append_event (changed job state result error job.pack_publication) now phase maximum) _
        q in
    let u = by_event job state result error job.pack_publication now phase maximum moves h in
    let (e, room) =
      append_event-appended (changed job state result error job.pack_publication) now phase maximum
        h in
    subst (Stops maximum job) (ok-injective k)
      (inr u, subst (λ n. IsStopped (job.job_id, n)) (sym e) stopped)

shut_down_job-Stops :
    (world : World) (maximum : ℕ) (job : StoredJob) (state : ApiJobState) {next : Option StoredJob}
    → job.state ≡ state
    → shut_down_job world maximum job state ≡ ok next
    → Stops maximum job next
unfolding shut_down_job is_terminal
shut_down_job-Stops world maximum job queued at q =
    stopped_by_event job cancelled none
      (some (domain cancelled_kind "job cancelled during daemon shutdown")) (world.stamp job.job_id)
      "daemon_shutdown" maximum (subst (λ st. Moves st cancelled) (sym at) queued_is_cancelled)
      (inr refl) q
shut_down_job-Stops world maximum job running at q =
    stopped_by_event job cancelling job.result job.error (world.stamp job.job_id) "daemon_shutdown"
      maximum (subst (λ st. Moves st cancelling) (sym at) running_stops) (inl refl) q
shut_down_job-Stops world maximum job cancelling at q =
    subst (Stops maximum job) (ok-injective q) (inl refl, inl at)
shut_down_job-Stops world maximum job completed at q =
    subst (Stops maximum job) (ok-injective q) (inl refl, inr (ap is_terminal at))
shut_down_job-Stops world maximum job failed at q =
    subst (Stops maximum job) (ok-injective q) (inl refl, inr (ap is_terminal at))
shut_down_job-Stops world maximum job cancelled at q =
    subst (Stops maximum job) (ok-injective q) (inl refl, inr (ap is_terminal at))

pub JobsStep-cons :
    (maximum : ℕ) (key : List ℕ) (job next : StoredJob) (before after : List (List ℕ × StoredJob))
    → JobStep maximum job next
    → JobsStep maximum before after
    → JobsStep maximum ((key, job) ∷ before) ((key, next) ∷ after)
unfolding get_key
JobsStep-cons maximum key job next before after step rest job_id old there =
    elim (Bool-cases (same_bytes key job_id)) [
      | inl hit ↦
          let is_job : some job ≡ some old = rw hit at there in
          (next, rw hit refl, subst (λ j. JobStep maximum j next) (some_inj is_job) step)
      | inr miss ↦
          let left : get_key before job_id ≡ some old = rw miss at there in
          let (n, found, moved) = rest job_id old left in (n, rw miss found, moved)
    ]
  where
    some_inj : {a b : StoredJob} → some a ≡ some b → a ≡ b
    some_inj q = cc

-- What the loop of the shutdown leaves of the entries of the map.
pub record IsShutDown (maximum : ℕ) (before : List (List ℕ × StoredJob)) (shutdown : Shutdown)
    : Type 0 where
  pub stopped : All IsStopped shutdown.jobs
  pub steps : JobsStep maximum before shutdown.jobs
  pub short : All (IsShort maximum) shutdown.jobs
  pub affected : shutdown.affected ≡ nonterminal before
  pub unchanged : (shutdown.changed ≡ true) ⊎ (shutdown.jobs ≡ before)

kept_or_changed :
    (key : List ℕ) (job : StoredJob) (next : Option StoredJob) (before : List (List ℕ × StoredJob))
    (rest : Shutdown)
    → (rest.changed ≡ true) ⊎ (rest.jobs ≡ before)
    → ((add_shut_down key job next rest).changed ≡ true)
      ⊎ ((add_shut_down key job next rest).jobs ≡ (key, job) ∷ before)
unfolding add_shut_down
kept_or_changed key job (some next) before rest h = inl refl
kept_or_changed key job none before rest (inl h) = inl h
kept_or_changed key job none before rest (inr h) = inr (ap (◌∷◌ (key, job)) h)

named :
    (terminal : Bool) (a : List ℕ × List ℕ) (rest others : List (List ℕ × List ℕ))
    → rest ≡ others
    → (if terminal then rest else a ∷ rest) ≡ (if not terminal then a ∷ others else others)
named true a rest others h = h
named false a rest others h = ap (◌∷◌ a) h

pub shut_down_jobs-IsShutDown :
    (world : World) (maximum : ℕ) (es : List (List ℕ × StoredJob)) {shutdown : Shutdown}
    → 0 < maximum
    → All (IsShort maximum) es
    → shut_down_jobs world maximum es ≡ ok shutdown
    → IsShutDown maximum es shutdown
unfolding shut_down_jobs add_shut_down nonterminal get_key
shut_down_jobs-IsShutDown world maximum [] some_kept short q =
    subst (IsShutDown maximum []) (ok-injective q) (record {
      stopped = tt;
      steps = λ job_id job there. absurd (nothing there);
      short = tt;
      affected = refl;
      unchanged = inr refl;
    })
  where
    nothing : {j : StoredJob} → none ≡ some j → ⊥
    nothing q = cc
shut_down_jobs-IsShutDown world maximum (e ∷ es) some_kept short q =
    let (next, h, q1) = bind-inv (shut_down_job world maximum e.1 e.1.state) _ q in
    let (rest, r, q2) = bind-inv (shut_down_jobs world maximum es) _ q1 in
    let (step, stopped) = shut_down_job-Stops world maximum e.1 e.1.state refl h in
    let others = shut_down_jobs-IsShutDown world maximum es some_kept short.1 r in
    subst (IsShutDown maximum (e ∷ es)) (ok-injective q2) (record {
      stopped = (stopped, others.stopped);
      steps = JobsStep-cons maximum e.0 e.1 (changed_or e.1 next) es rest.jobs step others.steps;
      short =
          (JobStep-short maximum e.1 (changed_or e.1 next) some_kept short.0 step, others.short);
      affected =
          named (is_terminal e.1.state) (e.1.owner, e.1.job_id) rest.affected (nonterminal es)
            others.affected;
      unchanged = kept_or_changed e.0 e.1 next es rest others.unchanged;
    })
