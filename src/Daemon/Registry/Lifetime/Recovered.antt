-- ===== src/Daemon/Registry/Lifetime/Recovered.antt =====
-- The registry that is opened, and the jobs that were interrupted.
use pithos.Prelude.{
  ℕ, ◌≡◌, refl, sym, ap, subst, ◌∙◌, Bool, true, false, ◌||◌, Option, none, some, List, [], ◌∷◌,
  All, if_either, ◌==◌,
}
use pithos.AgentApi.{RpcResult, ok, err, bind-inv, ok-injective}
use pithos.AgentApi.Jobs.{is_terminal}
use pithos.Daemon.Registry.{
  StoredJob, StorePolicy, PersistentState, ArchiveIdentity, internal, validate_policy,
}
use pithos.Daemon.Registry.Events.{trim_jobs, trim_retained_events}
use pithos.Daemon.Registry.Events.Appended.{append_event-appended, trim_event_history-newest}
use pithos.Daemon.Registry.Markers.{recover_pack_archive}
use pithos.Daemon.Registry.Validation.{validate_state}
use pithos.Daemon.Registry.Validation.States.{IsStore, validate_state-IsStore}
use pithos.Daemon.Registry.Storage.{World, JobRegistry, load_state_with_policy}
use pithos.Daemon.Registry.Lifetime.{
  recover_interrupted, recover_job, recover_jobs, persist_changed, held, open_recovered,
  open_trimmed, open_with_policy,
}

abbrev pub HasEnded : List ℕ × StoredJob → Type 0
HasEnded e = is_terminal e.1.state ≡ true

recover_interrupted-ended :
    (world : World) (maximum : ℕ) (job : StoredJob) (recovered : Option (List ℕ × ArchiveIdentity))
    {next : StoredJob}
    → recover_interrupted world maximum job recovered ≡ ok next
    → is_terminal next.state ≡ true
unfolding recover_interrupted is_terminal
recover_interrupted-ended world maximum job (some (archive, identity)) q =
    ap (λ j. is_terminal j.state) (append_event-appended _ _ _ maximum q).0
recover_interrupted-ended world maximum job none q =
    ap (λ j. is_terminal j.state) (append_event-appended _ _ _ maximum q).0

recover_job-ended :
    (world : World) (maximum : ℕ) (job : StoredJob) {next : StoredJob}
    → recover_job world maximum job ≡ ok next
    → is_terminal next.state ≡ true
unfolding recover_job
recover_job-ended world maximum job {next} q =
    if_either (λ r. r ≡ ok next → is_terminal next.state ≡ true) (is_terminal job.state) (ok job)
      (recover_interrupted world maximum job (recover_pack_archive world.is_file world.verify job))
      (λ t h. subst (λ j. is_terminal j.state ≡ true) (ok-injective h) t)
      (λ t h. recover_interrupted-ended world maximum job _ h) q

first :
    {a b : List (List ℕ × StoredJob)} {u v : Bool}
    → ◌≡◌ {A = RpcResult (List (List ℕ × StoredJob) × Bool)} (ok (a, u)) (ok (b, v))
    → a ≡ b
first q = cc

recover_jobs-HasEnded :
    (world : World) (maximum : ℕ) (es : List (List ℕ × StoredJob))
    {after : List (List ℕ × StoredJob)} {changed : Bool}
    → recover_jobs world maximum es ≡ ok (after, changed)
    → All HasEnded after
unfolding recover_jobs
recover_jobs-HasEnded world maximum [] q = subst (All HasEnded) (first q) tt
recover_jobs-HasEnded world maximum (e ∷ es) q =
    let (job, h, q1) = bind-inv (recover_job world maximum e.1) _ q in
    let (rest, r, q2) = bind-inv (recover_jobs world maximum es) _ q1 in
    subst (All HasEnded) (first q2)
      (recover_job-ended world maximum e.1 h, recover_jobs-HasEnded world maximum es r)

trim_jobs-HasEnded :
    (maximum : ℕ) (es : List (List ℕ × StoredJob))
    → All HasEnded es
    → All HasEnded (trim_jobs es maximum).0
unfolding trim_jobs
trim_jobs-HasEnded maximum [] h = tt
trim_jobs-HasEnded maximum (e ∷ es) (ended, rest) = (
  ap (λ j. is_terminal j.state) (trim_event_history-newest e.1 maximum) ∙ ended,
  trim_jobs-HasEnded maximum es rest,
)

-- What holds of a registry that opens.
abbrev pub IsRecovered : StorePolicy → JobRegistry → Type 0
IsRecovered policy registry =
    IsStore policy true registry.state
    × All HasEnded registry.state.jobs
    × (registry.policy ≡ policy)
    × (registry.healthy ≡ true)
    × (registry.closed ≡ false)

open_recovered-IsRecovered :
    (world : World) (policy : StorePolicy) (changed : Bool) (state : PersistentState)
    (shorter : Bool) {registry : JobRegistry}
    → All HasEnded state.jobs
    → open_recovered world policy changed (state, shorter) ≡ ok registry
    → IsRecovered policy registry
unfolding open_recovered
open_recovered-IsRecovered world policy changed state shorter ended q =
    let (u, valid, q1) = bind-inv (validate_state state policy true) _ q in
    let (file, f, q2) =
      bind-inv (persist_changed world state policy (held world.store_file) (changed || shorter)) _
        q1 in
    subst (IsRecovered policy) (ok-injective q2)
      (validate_state-IsStore state policy true valid, ended, refl, refl, refl)

open_trimmed-IsRecovered :
    (world : World) (policy : StorePolicy) (state : PersistentState) (shorter : Bool)
    {registry : JobRegistry}
    → open_trimmed world policy (state, shorter) ≡ ok registry
    → IsRecovered policy registry
unfolding open_trimmed trim_retained_events
open_trimmed-IsRecovered world policy state shorter q =
    let (recovered, r, q1) =
      bind-inv (recover_jobs world policy.max_events_per_job state.jobs) _ q in
    let most = policy.max_events_per_job in
    open_recovered-IsRecovered world policy (shorter || recovered.1)
      (record state { jobs = (trim_jobs recovered.0 most).0 }) (trim_jobs recovered.0 most).1
      (trim_jobs-HasEnded most recovered.0 (recover_jobs-HasEnded world most state.jobs r)) q1

validate_policy-same :
    (policy : StorePolicy) {valid : StorePolicy}
    → validate_policy policy ≡ ok valid
    → valid ≡ policy
unfolding validate_policy
validate_policy-same policy {valid} q =
    if_either (λ r. r ≡ ok valid → valid ≡ policy)
      (policy.max_store_bytes == 0
        || policy.max_events_per_job == 0
        || policy.max_retained_jobs == 0)
      (err (internal "invalid job store policy")) (ok policy) (λ t h. cc)
      (λ t h. sym (ok-injective h)) q

-- A registry that opens is consistent, healthy, not closed and of the requested policy, and every
-- job is in a terminal state.
pub open_with_policy-IsRecovered :
    (world : World) (policy : StorePolicy) {registry : JobRegistry}
    → open_with_policy world policy ≡ ok registry
    → IsRecovered policy registry
unfolding open_with_policy
open_with_policy-IsRecovered world requested {registry} q =
    let (policy, p, q1) = bind-inv (validate_policy requested) _ q in
    let (loaded, l, q2) = bind-inv (load_state_with_policy world policy world.store_file) _ q1 in
    let (u, valid, q3) = bind-inv (validate_state loaded policy false) _ q2 in
    subst (λ p. IsRecovered p registry) (validate_policy-same requested p)
      (open_trimmed-IsRecovered world policy (trim_retained_events loaded policy).0
        (trim_retained_events loaded policy).1 q3)
