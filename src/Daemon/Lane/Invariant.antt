-- ===== src/Daemon/Lane/Invariant.antt =====
-- The invariant of a lane, which `push` and `pop` keep.
use pithos.Prelude.{
  ℕ, ◌<◌, ◌≡◌, refl, sym, ap, subst, ◌∙◌, inl, inr, Bool, true, false, not, ◌||◌, ◌&&◌, Option,
  some, List, [], ◌∷◌, ◌++◌, arith, All, length, length-append, Bool-cases,
}
use pithos.Format.Same.{same_bytes, same_bytes→eq, eq→same_bytes}
use pithos.Daemon.Lane.{
  ScheduledJob, Session, PriorityLane, contains_key, get_queue, set_queue, remove_session, push_job,
  push_lane, serve, pop_loop, pop_lane,
}
use pithos.Daemon.Lane.Owners.{
  in_order, or_false, AreDistinct, HaveDistinctOwners, HasJob, found_queue, in_order-tail,
  contains_key-remove_session, set_queue-contains_key, push_job-contains_key, in_order-append,
  AreDistinct-append, neither, not_swapped,
}

-- The order holds the owners that have jobs, each once.
pub record IsLane (lane : PriorityLane) : Type 0 where
  pub have_jobs : All HasJob lane.sessions
  pub owners : HaveDistinctOwners lane.sessions
  pub once : AreDistinct lane.order
  pub agree : (owner : List ℕ) → in_order lane.order owner ≡ contains_key lane.sessions owner

or_comm : (a b : Bool) → (a || b) ≡ (b || a)
or_comm true true = refl
or_comm true false = refl
or_comm false true = refl
or_comm false false = refl

abbrev pub lane_of : List Session → List (List ℕ) → PriorityLane
lane_of sessions order = record { sessions = sessions; order = order }

push_job-HasJob :
    (ss : List Session) (o : List ℕ) (job : ScheduledJob)
    → All HasJob ss
    → All HasJob (push_job ss o job)
unfolding push_job
push_job-HasJob [] o job h = (omega arith, tt)
push_job-HasJob (s ∷ ss) o job h = elim (Bool-cases (same_bytes s.owner o)) [
  | inl hit ↦ let len = length-append s.queue (job ∷ []) in rw hit (omega arith, h.1)
  | inr miss ↦ rw miss (h.0, push_job-HasJob ss o job h.1)
]

push_job-HaveDistinctOwners :
    (ss : List Session) (o : List ℕ) (job : ScheduledJob)
    → HaveDistinctOwners ss
    → HaveDistinctOwners (push_job ss o job)
unfolding push_job
push_job-HaveDistinctOwners [] o job d = (unfold contains_key in refl, tt)
push_job-HaveDistinctOwners (s ∷ ss) o job d = elim (Bool-cases (same_bytes s.owner o)) [
  | inl hit ↦ rw hit d
  | inr miss ↦ rw miss (
    push_job-contains_key ss o s.owner job
        ∙ neither (contains_key ss s.owner) (same_bytes o s.owner) d.0 (not_swapped s.owner o miss),
    push_job-HaveDistinctOwners ss o job d.1,
  )
]

set_queue-HasJob :
    (ss : List Session) (o : List ℕ) (queue : List ScheduledJob)
    → 0 < length queue
    → All HasJob ss
    → All HasJob (set_queue ss o queue)
unfolding set_queue
set_queue-HasJob [] o queue some_left h = tt
set_queue-HasJob (s ∷ ss) o queue some_left h = elim (Bool-cases (same_bytes s.owner o)) [
  | inl hit ↦ rw hit (some_left, h.1)
  | inr miss ↦ rw miss (h.0, set_queue-HasJob ss o queue some_left h.1)
]

set_queue-HaveDistinctOwners :
    (ss : List Session) (o : List ℕ) (queue : List ScheduledJob)
    → HaveDistinctOwners ss
    → HaveDistinctOwners (set_queue ss o queue)
unfolding set_queue
set_queue-HaveDistinctOwners [] o queue d = tt
set_queue-HaveDistinctOwners (s ∷ ss) o queue d = elim (Bool-cases (same_bytes s.owner o)) [
  | inl hit ↦ rw hit d
  | inr miss ↦
      rw miss (
        set_queue-contains_key ss o s.owner queue ∙ d.0,
        set_queue-HaveDistinctOwners ss o queue d.1,
      )
]

remove_session-HasJob :
    (ss : List Session) (o : List ℕ) → All HasJob ss → All HasJob (remove_session ss o)
unfolding remove_session
remove_session-HasJob [] o h = tt
remove_session-HasJob (s ∷ ss) o h = elim (Bool-cases (same_bytes s.owner o)) [
  | inl hit ↦ rw hit h.1
  | inr miss ↦ rw miss (h.0, remove_session-HasJob ss o h.1)
]

remove_session-HaveDistinctOwners :
    (ss : List Session) (o : List ℕ)
    → HaveDistinctOwners ss
    → HaveDistinctOwners (remove_session ss o)
unfolding remove_session
remove_session-HaveDistinctOwners [] o d = tt
remove_session-HaveDistinctOwners (s ∷ ss) o d = elim (Bool-cases (same_bytes s.owner o)) [
  | inl hit ↦ rw hit d.1
  | inr miss ↦
      let gone : contains_key (remove_session ss o) s.owner ≡ false =
        contains_key-remove_session ss o s.owner d.1
        ∙ ap (λ b. b && not (same_bytes o s.owner)) d.0 in
      rw miss (gone, remove_session-HaveDistinctOwners ss o d.1)
]

serve-IsLane :
    (sessions : List Session) (o : List ℕ) (order : List (List ℕ)) (job : ScheduledJob)
    (queue : List ScheduledJob) (continued removed : Option ScheduledJob × PriorityLane)
    → IsLane (lane_of sessions (o ∷ order))
    → IsLane (serve continued removed sessions o order (some (job ∷ queue))).1
unfolding serve
serve-IsLane sessions o order job [] continued removed l = record {
  have_jobs = remove_session-HasJob sessions o l.have_jobs;
  owners = remove_session-HaveDistinctOwners sessions o l.owners;
  once = l.once.1;
  agree = λ x.
      in_order-tail o order x l.once.0
      ∙ ap (λ b. b && not (same_bytes o x)) (l.agree x)
      ∙ sym (contains_key-remove_session sessions o x l.owners);
}
serve-IsLane sessions o order job (next ∷ queue) continued removed l = record {
  have_jobs = set_queue-HasJob sessions o (next ∷ queue) (omega arith) l.have_jobs;
  owners = set_queue-HaveDistinctOwners sessions o (next ∷ queue) l.owners;
  once = AreDistinct-append order o l.once.1 l.once.0;
  agree = λ x.
      in_order-append order o x
      ∙ or_comm (in_order order x) (same_bytes o x)
      ∙ l.agree x
      ∙ sym (set_queue-contains_key sessions o x (next ∷ queue));
}

pub first_found :
    (sessions : List Session) (o : List ℕ) (order : List (List ℕ))
    → IsLane (lane_of sessions (o ∷ order))
    → (job : ScheduledJob) × (queue : List ScheduledJob) × (get_queue sessions o
        ≡ some (job ∷ queue))
first_found sessions o order l =
    let hit = eq→same_bytes o o refl in
    let first : in_order (o ∷ order) o ≡ true = rw hit refl in
    found_queue sessions o l.have_jobs (sym (l.agree o) ∙ first)

pop_loop-IsLane :
    (sessions : List Session) (order : List (List ℕ))
    → IsLane (lane_of sessions order)
    → IsLane (pop_loop sessions order).1
unfolding pop_loop
pop_loop-IsLane sessions [] l = l
pop_loop-IsLane sessions (o ∷ order) l =
    let (job, queue, q) = first_found sessions o order l in
    rw q (
      serve-IsLane sessions o order job queue (pop_loop sessions order)
        (pop_loop (remove_session sessions o) order) l)

-- A pop from a lane whose order holds the owners that have jobs, each once, leaves such a lane.
pub pop_lane-IsLane : (lane : PriorityLane) → IsLane lane → IsLane (pop_lane lane).1
unfolding pop_lane
pop_lane-IsLane lane l = pop_loop-IsLane lane.sessions lane.order l

known_absorbs :
    (ss : List Session) (o x : List ℕ)
    → contains_key ss o ≡ true
    → contains_key ss x ≡ (contains_key ss x || same_bytes o x)
known_absorbs ss o x known = elim (Bool-cases (same_bytes o x)) [
  | inl hit ↦
      let too : contains_key ss x ≡ true =
        subst (λ y. contains_key ss y ≡ true) (same_bytes→eq o x hit) known in
      rw (hit, too) refl
  | inr miss ↦ rw miss (sym (or_false (contains_key ss x)))
]

-- A push onto a lane whose order holds the owners that have jobs, each once, leaves such a lane.
pub push_lane-IsLane :
    (lane : PriorityLane) (job : ScheduledJob) → IsLane lane → IsLane (push_lane lane job)
unfolding push_lane
push_lane-IsLane lane job l =
    let o = job.owner in
    let pushed = push_job lane.sessions o job in
    let have_jobs = push_job-HasJob lane.sessions o job l.have_jobs in
    let owners = push_job-HaveDistinctOwners lane.sessions o job l.owners in
    elim (Bool-cases (contains_key lane.sessions o)) [
      | inl known ↦
          let kept : IsLane (lane_of pushed lane.order) = record {
            have_jobs = have_jobs;
            owners = owners;
            once = l.once;
            agree = λ x.
                l.agree x
                ∙ known_absorbs lane.sessions o x known
                ∙ sym (push_job-contains_key lane.sessions o x job);
          } in
          rw known kept
      | inr new ↦
          let kept : IsLane (lane_of pushed (lane.order ++ (o ∷ []))) = record {
            have_jobs = have_jobs;
            owners = owners;
            once = AreDistinct-append lane.order o l.once (l.agree o ∙ new);
            agree = λ x.
                in_order-append lane.order o x
                ∙ ap (λ b. b || same_bytes o x) (l.agree x)
                ∙ sym (push_job-contains_key lane.sessions o x job);
          } in
          rw new kept
    ]
