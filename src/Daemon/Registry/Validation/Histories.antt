-- ===== src/Daemon/Registry/Validation/Histories.antt =====
-- What the registry checks of the event history of a job, as a statement about the job.
use pithos.Prelude.{
  ℕ, ◌+◌, ◌<◌, ◌≡◌, refl, sym, ap, subst, ◌∙◌, Bool, true, false, not, ◌||◌, ◌&&◌, Option, none,
  some, List, [], ◌∷◌, length, ltb, ◌==◌, arith,
}
use pithos.Core.Checked.{u64_end, checked_add, checked_add-some, checked_add_fits}
use pithos.Format.Same.{same_bytes, same_bytes→eq, eq→same_bytes}
use pithos.AgentApi.{ok, ◌>>◌, bail_if, bind-inv, bail_if-ok, both-ok, ok-both, ok_or, ok_or-some}
use pithos.AgentApi.Jobs.{ProgressEvent}
use pithos.Daemon.Registry.{StoredJob, StorePolicy, internal}
use pithos.Daemon.Registry.Events.Appended.{Rising, IsLog}
use pithos.Daemon.Registry.Validation.{same_state, at_most, events_loop, last, validate_job_events}
use pithos.Daemon.Registry.Validation.Equalities.{same_state→eq, same_state_refl}

-- The loop over the events, against the order.
abbrev bound : Option ℕ → ℕ
bound none = 0
bound (some n) = n

event_test :
    (same : Bool) (sequence : ℕ) (previous : Option ℕ)
    → (not same || sequence == 0 || at_most sequence previous) ≡ false
    → (same ≡ true) × (bound previous < sequence)
event_test same sequence none h = ground arith
event_test same sequence (some n) h = ground arith

test_event :
    (same : Bool) (sequence : ℕ) (previous : Option ℕ)
    → same ≡ true
    → bound previous < sequence
    → (not same || sequence == 0 || at_most sequence previous) ≡ false
test_event same sequence none e h = ground arith
test_event same sequence (some n) e h = ground arith

events_loop-Rising :
    (job_id : List ℕ) (previous : Option ℕ) (es : List ProgressEvent)
    → events_loop job_id previous es ≡ ok tt
    → Rising job_id (bound previous) es
unfolding events_loop
events_loop-Rising job_id previous [] h = tt
events_loop-Rising job_id previous (e ∷ es) h =
    let (a, b) = both-ok _ _ h in
    let (same, above) =
      event_test (same_bytes e.job_id job_id) e.sequence previous (bail_if-ok _ _ a) in
    (same_bytes→eq e.job_id job_id same, above, events_loop-Rising job_id (some e.sequence) es b)

Rising-events_loop :
    (job_id : List ℕ) (previous : Option ℕ) (es : List ProgressEvent)
    → Rising job_id (bound previous) es
    → events_loop job_id previous es ≡ ok tt
unfolding events_loop
Rising-events_loop job_id previous [] r = refl
Rising-events_loop job_id previous (e ∷ es) (i, above, rest) =
    ok-both _ _
      (ap (λ t. bail_if t (internal "job store event sequence is corrupt"))
        (test_event (same_bytes e.job_id job_id) e.sequence previous
          (eq→same_bytes e.job_id job_id i) above))
      (Rising-events_loop job_id (some e.sequence) es rest)

-- A history that is there, is short enough where that is enforced, and rises to the present state.
pub record HasHistory (policy : StorePolicy) (enforce_retention : Bool) (job : StoredJob)
    : Type 0 where
  pub some_events : 0 < length job.events
  pub retained : (enforce_retention && ltb policy.max_events_per_job (length job.events)) ≡ false
  pub log : IsLog job

short_history :
    (size most : ℕ) (enforce : Bool)
    → (size == 0 || (enforce && ltb most size)) ≡ false
    → (0 < size) × ((enforce && ltb most size) ≡ false)
short_history size most enforce h = ground arith

history_short :
    (size most : ℕ) (enforce : Bool)
    → 0 < size
    → (enforce && ltb most size) ≡ false
    → (size == 0 || (enforce && ltb most size)) ≡ false
history_short size most enforce h k = ground arith

counter_test :
    (next expected : ℕ) (same : Bool)
    → (not (next == expected) || not same) ≡ false
    → (next ≡ expected) × (same ≡ true)
counter_test next expected same h = ground arith

test_counter :
    (next expected : ℕ) (same : Bool)
    → next ≡ expected
    → same ≡ true
    → (not (next == expected) || not same) ≡ false
test_counter next expected same h k = ground arith

pub validate_job_events-HasHistory :
    (job : StoredJob) (policy : StorePolicy) (enforce_retention : Bool)
    → validate_job_events job policy enforce_retention ≡ ok tt
    → HasHistory policy enforce_retention job
unfolding validate_job_events
validate_job_events-HasHistory job policy enforce q =
    let (tt, ab, q1) =
      bind-inv
        (bail_if
            (length job.events == 0
              || (enforce && ltb policy.max_events_per_job (length job.events)))
            (internal "job store event history is corrupt")
          >> events_loop job.job_id none job.events)
        _ q in
    let (a, b) = both-ok _ _ ab in
    let (end, c, q2) =
      bind-inv (ok_or (last job.events) (internal "job store event history is corrupt")) _ q1 in
    let (expected, d, f) =
      bind-inv
        (ok_or (checked_add end.sequence 1) (internal "job store event sequence is exhausted")) _
        q2 in
    let (some_events, retained) =
      short_history (length job.events) policy.max_events_per_job enforce (bail_if-ok _ _ a) in
    let (number, below) = checked_add-some end.sequence 1 (ok_or-some _ _ d) in
    let (counter, same) =
      counter_test job.next_sequence expected (same_state end.state job.state) (bail_if-ok _ _ f) in
    record {
      some_events = some_events;
      retained = retained;
      log = record {
        rising = events_loop-Rising job.job_id none job.events b;
        ends = (end, ok_or-some _ _ c, counter ∙ number, same_state→eq end.state job.state same);
        room = subst (λ n. n < u64_end) (sym counter) below;
      };
    }

pub HasHistory-validate_job_events :
    (job : StoredJob) (policy : StorePolicy) (enforce_retention : Bool)
    → HasHistory policy enforce_retention job
    → validate_job_events job policy enforce_retention ≡ ok tt
unfolding validate_job_events
HasHistory-validate_job_events job policy enforce h =
    let (end, c, counter, same) = h.log.ends in
    let fits : checked_add end.sequence 1 ≡ some (end.sequence + 1) =
      checked_add_fits end.sequence 1 (subst (λ n. n < u64_end) counter h.log.room) in
    ok-both _ _
      (ok-both _ _
        (ap (λ t. bail_if t (internal "job store event history is corrupt"))
          (history_short (length job.events) policy.max_events_per_job enforce h.some_events
            h.retained))
        (Rising-events_loop job.job_id none job.events h.log.rising))
      (rw (c, fits)
        (ap (λ t. bail_if t (internal "job store event counter is corrupt"))
          (test_counter job.next_sequence (end.sequence + 1) (same_state end.state job.state)
            counter (same_state_refl end.state job.state same))))
