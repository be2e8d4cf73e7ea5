-- ===== src/Daemon/Registry/Events/Appended.antt =====
-- The event history of a job: what an append leaves, and the order of the sequence numbers.
use pithos.Prelude.{
  ℕ, zero, suc, ◌+◌, ◌-◌, ◌≤◌, ◌<◌, ◌≡◌, refl, sym, ap, subst, ◌∙◌, inl, inr, Bool-cases, some,
  List, [], ◌∷◌, ◌++◌, String, arith, length, drop, length-append, length-drop, ◌==◌, ==→eq,
}
use pithos.Core.Checked.{u64_end, checked_add, checked_add-some, checked_add_fits}
use pithos.AgentApi.{ok, ok_or, bind-inv, ok_or-some, ok-injective, resource_limit_error}
use pithos.AgentApi.Jobs.{ApiJobState, ProgressEvent}
use pithos.Daemon.Registry.{StoredJob}
use pithos.Daemon.Registry.Events.{trim_event_history, event_of, append_event}
use pithos.Daemon.Registry.Validation.{last}

-- The job with its history cut to its newest events.
abbrev pub newest : StoredJob → ℕ → StoredJob
newest job maximum = record job { events = drop (length job.events - maximum) job.events }

abbrev numbered : StoredJob → ℕ → String → ℕ → StoredJob
numbered job now phase next_sequence = record job {
  next_sequence = next_sequence;
  updated_at_unix_ms = now;
  events = job.events ++ (event_of job now phase ∷ []);
}

-- The job behind an append.
abbrev pub appended : StoredJob → ℕ → String → ℕ → StoredJob
appended job now phase maximum = newest (numbered job now phase (job.next_sequence + 1)) maximum

pub trim_event_history-newest :
    (job : StoredJob) (maximum : ℕ) → (trim_event_history job maximum).0 ≡ newest job maximum
unfolding trim_event_history
trim_event_history-newest job maximum = elim (Bool-cases (length job.events - maximum == 0)) [
  | inl short ↦
      let none_over : length job.events - maximum ≡ 0 =
        ==→eq (length job.events - maximum) 0 short in
      rw short (ap (λ n. record job { events = drop n job.events }) (sym none_over))
  | inr long ↦ rw long refl
]

pub append_event-appended :
    (job : StoredJob) (now : ℕ) (phase : String) (maximum : ℕ) {next : StoredJob}
    → append_event job now phase maximum ≡ ok next
    → (next ≡ appended job now phase maximum) × (job.next_sequence + 1 < u64_end)
unfolding append_event
append_event-appended job now phase maximum q =
    let (n, h, k) =
      bind-inv
        (ok_or (checked_add job.next_sequence 1)
          (resource_limit_error "job event sequence exhausted"))
        _ q in
    let (e, below) =
      checked_add-some job.next_sequence 1 (ok_or-some (checked_add job.next_sequence 1) _ h) in
    (
      sym (ok-injective k)
          ∙ trim_event_history-newest (numbered job now phase n) maximum
          ∙ ap (λ m. newest (numbered job now phase m) maximum) e,
      subst (λ m. m < u64_end) e below,
    )

pub appended-append_event :
    (job : StoredJob) (now : ℕ) (phase : String) (maximum : ℕ)
    → job.next_sequence + 1 < u64_end
    → append_event job now phase maximum ≡ ok (appended job now phase maximum)
unfolding append_event
appended-append_event job now phase maximum room =
    rw (checked_add_fits job.next_sequence 1 room) (ap ok (trim_event_history-newest _ maximum))

-- The sequence numbers rise, from above a number, and all events are the job's.
abbrev pub Rising : List ℕ → ℕ → List ProgressEvent → Type 0
Rising job_id below [] = Unit
Rising job_id below (e ∷ es) =
    (e.job_id ≡ job_id) × (below < e.sequence) × Rising job_id e.sequence es

-- The last event is of the present state, and its number comes before the next one.
abbrev pub EndsAt : ApiJobState → ℕ → List ProgressEvent → Type 0
EndsAt state next_sequence es =
    (e : ProgressEvent) × (last es ≡ some e) × (next_sequence ≡ e.sequence + 1) × (e.state ≡ state)

pub record IsLog (job : StoredJob) : Type 0 where
  pub rising : Rising job.job_id 0 job.events
  pub ends : EndsAt job.state job.next_sequence job.events
  pub room : job.next_sequence < u64_end

pub last-append {ℓ} : {A : Type ℓ} (xs : List A) (x : A) → last (xs ++ (x ∷ [])) ≡ some x
unfolding last
last-append [] x = refl
last-append (y ∷ []) x = refl
last-append (y ∷ z ∷ xs) x = last-append (z ∷ xs) x

pub last-drop {ℓ} : {A : Type ℓ} (n : ℕ) (xs : List A) → n < length xs → last (drop n xs) ≡ last xs
unfolding last
last-drop zero xs h = refl
last-drop (suc n) [] h = absurd (omega arith)
last-drop (suc n) (x ∷ []) h = absurd (omega arith)
last-drop (suc n) (x ∷ y ∷ xs) h = last-drop n (y ∷ xs) (omega arith)

Rising-weaken :
    (job_id : List ℕ) (a b : ℕ) (es : List ProgressEvent)
    → a ≤ b
    → Rising job_id b es
    → Rising job_id a es
Rising-weaken job_id a b [] h r = tt
Rising-weaken job_id a b (e ∷ es) h r = (r.0, omega arith, r.2)

pub Rising-drop :
    (job_id : List ℕ) (below n : ℕ) (es : List ProgressEvent)
    → Rising job_id below es
    → Rising job_id below (drop n es)
Rising-drop job_id below zero es r = r
Rising-drop job_id below (suc n) [] r = tt
Rising-drop job_id below (suc n) (e ∷ es) r =
    Rising-weaken job_id below e.sequence (drop n es) (omega arith)
      (Rising-drop job_id e.sequence n es r.2)

-- An event behind the last one.
Rising-append :
    (job_id : List ℕ) (below : ℕ) (es : List ProgressEvent) (end new : ProgressEvent)
    → Rising job_id below es
    → last es ≡ some end
    → new.job_id ≡ job_id
    → end.sequence < new.sequence
    → Rising job_id below (es ++ (new ∷ []))
unfolding last
Rising-append job_id below [] end new r q i h = cc
Rising-append job_id below (e ∷ []) end new r q i h =
    let same : e.sequence ≡ end.sequence = ap sequence_of (some_inj q) in
    (r.0, r.1, (i, omega arith, tt))
  where
    sequence_of : ProgressEvent → ℕ
    sequence_of e = e.sequence

    some_inj : {a b : ProgressEvent} → some a ≡ some b → a ≡ b
    some_inj q = cc
Rising-append job_id below (e ∷ f ∷ es) end new r q i h =
    (r.0, r.1, Rising-append job_id e.sequence (f ∷ es) end new r.2 q i h)

-- The newest events end with the last one.
last-newest :
    (es : List ProgressEvent) (e : ProgressEvent) (maximum : ℕ)
    → 0 < maximum
    → last (drop (length (es ++ (e ∷ [])) - maximum) (es ++ (e ∷ []))) ≡ some e
last-newest es e maximum h =
    let size = length-append es (e ∷ []) in
    last-drop (length (es ++ (e ∷ [])) - maximum) (es ++ (e ∷ [])) (omega arith) ∙ last-append es e

pub appended-IsLog :
    (job : StoredJob) (now : ℕ) (phase : String) (maximum : ℕ) (end : ProgressEvent)
    → 0 < maximum
    → Rising job.job_id 0 job.events
    → last job.events ≡ some end
    → job.next_sequence ≡ end.sequence + 1
    → job.next_sequence + 1 < u64_end
    → IsLog (appended job now phase maximum)
unfolding event_of
appended-IsLog job now phase maximum end h r q n room =
    let e = event_of job now phase in
    record {
      rising =
          Rising-drop job.job_id 0 (length (job.events ++ (e ∷ [])) - maximum)
            (job.events ++ (e ∷ []))
            (Rising-append job.job_id 0 job.events end e r q refl (omega arith));
      ends = (e, last-newest job.events e maximum h, refl, refl);
      room = room;
    }

-- A first event.
pub first-IsLog :
    (job : StoredJob) (now : ℕ) (phase : String) (maximum : ℕ)
    → 0 < maximum
    → job.events ≡ []
    → job.next_sequence ≡ 1
    → IsLog (appended job now phase maximum)
unfolding event_of
first-IsLog job now phase maximum h none_yet first =
    let e = event_of job now phase in
    record {
      rising =
          Rising-drop job.job_id 0 (length (job.events ++ (e ∷ [])) - maximum)
            (job.events ++ (e ∷ []))
            (subst (λ es. Rising job.job_id 0 (es ++ (e ∷ []))) (sym none_yet)
              (refl, omega arith, tt));
      ends = (e, last-newest job.events e maximum h, refl, refl);
      room = omega arith;
    }

-- A history holds at most so many events, and the newest at least.
pub length-appended :
    (job : StoredJob) (now : ℕ) (phase : String) (maximum : ℕ)
    → 0 < maximum
    → (0 < length (appended job now phase maximum).events)
      × (length (appended job now phase maximum).events ≤ maximum)
length-appended job now phase maximum h =
    let all = job.events ++ (event_of job now phase ∷ []) in
    let size = length-append job.events (event_of job now phase ∷ []) in
    let left = length-drop (length all - maximum) all in (omega arith, omega arith)
