-- ===== src/Daemon/Registry/Operations/Stored.antt =====
-- The update of a stored job, and the state that holds it.
use pithos.Prelude.{
  ℕ, ◌<◌, ◌≤◌, ◌≡◌, refl, sym, ap, subst, ◌∙◌, inl, inr, true, false, ◌&&◌, Bool-cases, Option,
  none, some, String, List, All_imp, ltb, arith,
}
use pithos.Format.Same.{same_bytes, same_bytes→eq}
use pithos.AgentApi.{ok, Value, JsonRpcError}
use pithos.AgentApi.Jobs.{ApiJobState}
use pithos.Daemon.Registry.Markers.{pack_output}
use pithos.Daemon.Registry.Validation.{validate_marker_at}
use pithos.Daemon.Registry.{PackPublicationMarker, StoredJob, StorePolicy, PersistentState}
use pithos.Daemon.Registry.Maps.{
  get_key, set_key, set_key-get_key, set_key-get_key_other, length-set_key,
}
use pithos.Daemon.Registry.Maps.Entries.{set_key-All}
use pithos.Daemon.Registry.Events.Appended.{appended, appended-IsLog, length-appended}
use pithos.Daemon.Registry.Identifiers.{idempotency_map_key}
use pithos.Daemon.Registry.Validation.Jobs.{IsStored-Suits, IsStored}
use pithos.Daemon.Registry.Validation.States.{IsNumbered, LeadsBack, IsStore}
use pithos.Daemon.Registry.Validation.Settled.{
  has_valid_result-IsSettled, validate_marker_at-IsMarked,
}
use pithos.Daemon.Registry.Calls.{with_job}
use pithos.Daemon.Registry.Operations.Moves.{Update, Keeps, changed}

within : (limit n : ℕ) → n ≤ limit → (true && ltb limit n) ≡ false
within limit n h = ground arith

-- The check of a marker does not read what the append of an event changes.
same_marker :
    (job : StoredJob) (state : ApiJobState) (result : Option Value) (error : Option JsonRpcError)
    (m : Option PackPublicationMarker) (now : ℕ) (phase : String) (maximum : ℕ)
    (marker : Option PackPublicationMarker) (output : Option (List ℕ))
    → validate_marker_at (record job { state = state }) marker output ≡ ok tt
    → validate_marker_at
        (appended (changed job state result error m) now phase maximum)
        marker
        output
      ≡ ok tt
unfolding validate_marker_at
same_marker job state result error m now phase maximum none output v = v
same_marker job state result error m now phase maximum (some marker) none v = v
same_marker job state result error m now phase maximum (some marker) (some output) v = v

pub Update-IsStored :
    (policy : StorePolicy) (idempotency : List (List ℕ × List ℕ)) (map_key : List ℕ)
    (job next : StoredJob) (number : ℕ)
    → 0 < policy.max_events_per_job
    → (u : Update policy.max_events_per_job job next) → Keeps u
    → IsStored policy true idempotency map_key job number
    → IsStored policy true idempotency map_key next number
Update-IsStored policy idempotency map_key job next number some_kept u keeps s =
    let (end, last_one, counter, ending) = s.history.log.ends in
    let (present, short) =
      length-appended (changed job u.state u.result u.error u.marker) u.now u.phase
        policy.max_events_per_job some_kept in
    subst (λ j. IsStored policy true idempotency map_key j number) (sym u.becomes)
      (record {
        keyed = s.keyed;
        owner = s.owner;
        method = s.method;
        threads = s.threads;
        memory = s.memory;
        output = s.output;
        idempotency_key = s.idempotency_key;
        numbered = s.numbered;
        indexed = s.indexed;
        history = record {
          some_events = present;
          retained = within policy.max_events_per_job _ short;
          log =
              appended-IsLog (changed job u.state u.result u.error u.marker) u.now u.phase
                policy.max_events_per_job end some_kept s.history.log.rising last_one counter
                u.room;
        };
        settled =
            (has_valid_result-IsSettled u.state u.result u.error).0 (keeps (IsStored-Suits s)).0;
        marked =
            (validate_marker_at-IsMarked
                (appended (changed job u.state u.result u.error u.marker) u.now u.phase
                  policy.max_events_per_job)
                u.marker).0
              (same_marker job u.state u.result u.error u.marker u.now u.phase
                policy.max_events_per_job u.marker (pack_output job.operation)
                (keeps (IsStored-Suits s)).1);
      })

-- What the index reads of a job.
abbrev pub AreOneKey : StoredJob → StoredJob → Type 0
AreOneKey a b = (a.owner ≡ b.owner) × (a.idempotency_key ≡ b.idempotency_key)

Update-AreOneKey :
    {maximum : ℕ} {job next : StoredJob} → Update maximum job next → AreOneKey job next
Update-AreOneKey {job = job} u = subst (λ j. AreOneKey job j) (sym u.becomes) (refl, refl)

still_leads :
    (jobs : List (List ℕ × StoredJob)) (job_id : List ℕ) (job next : StoredJob)
    → get_key jobs job_id ≡ some job
    → AreOneKey job next
    → (e : List ℕ × List ℕ) → LeadsBack jobs e
    → LeadsBack (set_key jobs job_id next) e
still_leads jobs job_id job next there (one_owner, one_key) e (old, found, key) =
    elim (Bool-cases (same_bytes job_id e.1)) [
      | inl hit ↦
          let same = same_bytes→eq job_id e.1 hit in
          let is_job : job ≡ old = some_inj (sym there ∙ ap (get_key jobs) same ∙ found) in
          (
            next,
            ap (get_key (set_key jobs job_id next)) (sym same)
                ∙ set_key-get_key jobs job_id next there,
            subst (λ j. e.0 ≡ idempotency_map_key j.owner j.idempotency_key) (sym is_job) key
                ∙ ap (λ o. idempotency_map_key o job.idempotency_key) one_owner
                ∙ ap (idempotency_map_key next.owner) one_key,
          )
      | inr miss ↦ (old, set_key-get_key_other jobs job_id e.1 next miss ∙ found, key)
    ]
  where
    some_inj : {a b : StoredJob} → some a ≡ some b → a ≡ b
    some_inj q = cc

-- A state with one job updated.
pub with_job-IsStore :
    (policy : StorePolicy) (state : PersistentState) (job_id : List ℕ) (job next : StoredJob)
    → 0 < policy.max_events_per_job
    → get_key state.jobs job_id ≡ some job
    → (u : Update policy.max_events_per_job job next) → Keeps u
    → IsStore policy true state
    → IsStore policy true (with_job state job_id next)
unfolding with_job
with_job-IsStore policy state job_id job next some_kept there u keeps s =
    let size = length-set_key state.jobs job_id next in
    record {
      schema = s.schema;
      retained = ap (λ n. true && ltb policy.max_retained_jobs n) size ∙ s.retained;
      counter = s.counter;
      counts = s.counts ∙ sym size;
      jobs =
          set_key-All (IsNumbered policy true state.idempotency state.next_job) state.jobs job_id
            next there
            (λ (number, below, stored). (
              number,
              below,
              Update-IsStored policy state.idempotency job_id job next number some_kept u keeps
                  stored,
            ))
            s.jobs;
      index =
          All_imp (LeadsBack state.jobs) (LeadsBack (set_key state.jobs job_id next))
            state.idempotency (still_leads state.jobs job_id job next there (Update-AreOneKey u))
            s.index;
    }
