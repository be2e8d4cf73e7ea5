-- ===== src/Daemon/Registry/Queries/Later.antt =====
-- A poll for events, and the history of the job.
use pithos.Prelude.{
  ℕ, ◌≤◌, ◌<◌, ◌≡◌, refl, sym, ap, subst, ltb→lt, inl, inr, true, false, Bool-cases, List, [], ◌∷◌,
  ◌++◌, All, ltb, arith,
}
use pithos.AgentApi.{ok, ◌>>=◌}
use pithos.AgentApi.Jobs.{ProgressEvent}
use pithos.Daemon.Registry.{StoredJob}
use pithos.Daemon.Registry.Events.Appended.{Rising, IsLog}
use pithos.Daemon.Registry.Storage.{JobRegistry}
use pithos.Daemon.Registry.Calls.{owned_job}
use pithos.Daemon.Registry.Queries.{events_after, events}

abbrev pub IsUpTo : ℕ → ProgressEvent → Type 0
IsUpTo n e = e.sequence ≤ n

abbrev pub IsAfter : ℕ → ProgressEvent → Type 0
IsAfter n e = n < e.sequence

-- The history is what the client has seen, followed by the answer.
pub record IsRest (after_sequence : ℕ) (history answer : List ProgressEvent) : Type 0 where
  pub seen : List ProgressEvent
  pub whole : history ≡ seen ++ answer
  pub before : All (IsUpTo after_sequence) seen
  pub later : All (IsAfter after_sequence) answer

all_later :
    (job_id : List ℕ) (n below : ℕ) (es : List ProgressEvent)
    → n ≤ below
    → Rising job_id below es
    → (events_after n es ≡ es) × All (IsAfter n) es
unfolding events_after
all_later job_id n below [] h r = (refl, tt)
all_later job_id n below (e ∷ es) h r =
    let (same, later) = all_later job_id n e.sequence es (omega arith) r.2 in
    let above : ltb n e.sequence ≡ true = ground arith in
    (rw above (ap (◌∷◌ e) same), (omega arith, later))

not_above : (n m : ℕ) → ltb n m ≡ false → m ≤ n
not_above n m h = ground arith

pub events_after-IsRest :
    (job_id : List ℕ) (n below : ℕ) (es : List ProgressEvent)
    → Rising job_id below es
    → IsRest n es (events_after n es)
unfolding events_after
events_after-IsRest job_id n below [] r = record {
  seen = [];
  whole = refl;
  before = tt;
  later = tt;
}
events_after-IsRest job_id n below (e ∷ es) r = elim (Bool-cases (ltb n e.sequence)) [
  | inl above ↦
      let h = ltb→lt n e.sequence above in
      let (same, later) = all_later job_id n e.sequence es (omega arith) r.2 in
      rw above (
        subst (IsRest n (e ∷ es)) (ap (◌∷◌ e) (sym same)) (record {
          seen = [];
          whole = refl;
          before = tt;
          later = (ltb→lt n e.sequence above, later);
        }))
  | inr below ↦
      let rest = events_after-IsRest job_id n e.sequence es r.2 in
      rw below (record {
        seen = e ∷ rest.seen;
        whole = ap (◌∷◌ e) rest.whole;
        before = (not_above n e.sequence below, rest.before);
        later = rest.later;
      })
]

-- A poll on a job with a rising history returns exactly the events that the client has not seen: the
-- history is events of numbers up to the given one, followed by the answer, whose numbers are above
-- it.
pub events-IsRest :
    (registry : JobRegistry) (owner job_id : List ℕ) (after_sequence : ℕ) (job : StoredJob)
    → owned_job registry.state owner job_id ≡ ok job
    → IsLog job
    → (answer : List ProgressEvent) × (events registry owner job_id after_sequence ≡ ok answer)
      × IsRest after_sequence job.events answer
unfolding events
events-IsRest registry owner job_id n job found log = (
  events_after n job.events,
  ap (λ r. r >>= λ j. ok (events_after n j.events)) found,
  events_after-IsRest job.job_id n 0 job.events log.rising,
)
