-- ===== src/Daemon/Lane/Kept.antt =====
-- A lane neither loses a job nor doubles one: for every test of jobs, the number of the jobs in the lane
-- that pass it changes by the job that is put in or taken out.
use pithos.Prelude.{
  ℕ, ◌+◌, ◌≡◌, refl, sym, inl, inr, Bool, true, false, Option, none, some, List, [], ◌∷◌, ◌++◌,
  arith, Bool-cases,
}
use pithos.Format.Same.{same_bytes}
use pithos.Daemon.Lane.{
  ScheduledJob, Session, PriorityLane, get_queue, set_queue, remove_session, push_job, push_lane,
  serve, pop_loop, pop_lane,
}

abbrev pub one : Bool → ℕ
one true = 1
one false = 0

abbrev pub count_jobs : (ScheduledJob → Bool) → List ScheduledJob → ℕ
count_jobs test [] = 0
count_jobs test (j ∷ js) = one (test j) + count_jobs test js

-- The jobs of all queues that pass the test.
abbrev pub load : (ScheduledJob → Bool) → List Session → ℕ
load test [] = 0
load test (s ∷ ss) = count_jobs test s.queue + load test ss

abbrev pub taken : (ScheduledJob → Bool) → Option ScheduledJob → ℕ
taken test none = 0
taken test (some j) = one (test j)

module _ (test : ScheduledJob → Bool) where
  count_jobs-append :
      (js ks : List ScheduledJob)
      → count_jobs test (js ++ ks) ≡ count_jobs test js + count_jobs test ks
  count_jobs-append [] ks = omega arith
  count_jobs-append (j ∷ js) ks = let ih = count_jobs-append js ks in omega arith

  load-push_job :
      (ss : List Session) (owner : List ℕ) (job : ScheduledJob)
      → load test (push_job ss owner job) ≡ one (test job) + load test ss
  unfolding push_job
  load-push_job [] owner job = omega arith
  load-push_job (s ∷ ss) owner job = elim (Bool-cases (same_bytes s.owner owner)) [
    | inl hit ↦ let more = count_jobs-append s.queue (job ∷ []) in rw hit (omega arith)
    | inr miss ↦ let ih = load-push_job ss owner job in rw miss (omega arith)
  ]

  load-remove_session :
      (ss : List Session) (owner : List ℕ) (queue : List ScheduledJob)
      → get_queue ss owner ≡ some queue
      → load test ss ≡ count_jobs test queue + load test (remove_session ss owner)
  unfolding get_queue remove_session
  load-remove_session [] owner queue g = cc
  load-remove_session (s ∷ ss) owner queue g = elim (Bool-cases (same_bytes s.owner owner)) [
    | inl hit ↦
        let here : some s.queue ≡ some queue = rw hit at g in
        let same : s.queue ≡ queue = cc in rw (hit, sym same) refl
    | inr miss ↦
        let later : get_queue ss owner ≡ some queue = rw miss at g in
        let ih = load-remove_session ss owner queue later in rw miss (omega arith)
  ]

  load-set_queue :
      (ss : List Session) (owner : List ℕ) (queue new : List ScheduledJob)
      → get_queue ss owner ≡ some queue
      → load test ss + count_jobs test new
        ≡ count_jobs test queue + load test (set_queue ss owner new)
  unfolding get_queue set_queue
  load-set_queue [] owner queue new g = cc
  load-set_queue (s ∷ ss) owner queue new g = elim (Bool-cases (same_bytes s.owner owner)) [
    | inl hit ↦
        let here : some s.queue ≡ some queue = rw hit at g in
        let same : s.queue ≡ queue = cc in rw (hit, sym same) (omega arith)
    | inr miss ↦
        let later : get_queue ss owner ≡ some queue = rw miss at g in
        let ih = load-set_queue ss owner queue new later in rw miss (omega arith)
  ]

  serve-load :
      (sessions : List Session) (owner : List ℕ) (order : List (List ℕ))
      (continued removed : Option ScheduledJob × PriorityLane) (found : Option (List ScheduledJob))
      → get_queue sessions owner ≡ found
      → load test sessions ≡ taken test continued.0 + load test continued.1.sessions
      → load test (remove_session sessions owner)
        ≡ taken test removed.0 + load test removed.1.sessions
      → (let r = serve continued removed sessions owner order found in
          load test sessions ≡ taken test r.0 + load test r.1.sessions)
  unfolding serve
  serve-load sessions owner order continued removed none g c r = c
  serve-load sessions owner order continued removed (some []) g c r =
      let kept = load-remove_session sessions owner [] g in omega arith
  serve-load sessions owner order continued removed (some (job ∷ [])) g c r =
      let kept = load-remove_session sessions owner (job ∷ []) g in omega arith
  serve-load sessions owner order continued removed (some (job ∷ next ∷ queue)) g c r =
      let kept = load-set_queue sessions owner (job ∷ next ∷ queue) (next ∷ queue) g in omega arith

  pop_loop-load :
      (sessions : List Session) (order : List (List ℕ))
      → load test sessions
        ≡ taken test (pop_loop sessions order).0 + load test (pop_loop sessions order).1.sessions
  unfolding pop_loop
  pop_loop-load sessions [] = omega arith
  pop_loop-load sessions (owner ∷ order) =
      serve-load sessions owner order (pop_loop sessions order)
        (pop_loop (remove_session sessions owner) order) (get_queue sessions owner) refl
        (pop_loop-load sessions order) (pop_loop-load (remove_session sessions owner) order)

-- For every test, the jobs in the lane that pass it are one more after the push of a job that does.
pub push_lane-load :
    (test : ScheduledJob → Bool) (lane : PriorityLane) (job : ScheduledJob)
    → load test (push_lane lane job).sessions ≡ one (test job) + load test lane.sessions
unfolding push_lane
push_lane-load test lane job = load-push_job test lane.sessions job.owner job

-- For every test, the jobs in the lane that pass it before a pop are those that pass it after, and the
-- job that was popped, if it does.
pub pop_lane-load :
    (test : ScheduledJob → Bool) (lane : PriorityLane)
    → load test lane.sessions ≡ taken test (pop_lane lane).0 + load test (pop_lane lane).1.sessions
unfolding pop_lane
pop_lane-load test lane = pop_loop-load test lane.sessions lane.order
