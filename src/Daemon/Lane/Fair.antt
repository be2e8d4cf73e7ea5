-- ===== src/Daemon/Lane/Fair.antt =====
-- Under the invariant, `pop` serves the first owner of the order.
use pithos.Prelude.{ℕ, ◌≡◌, refl, sym, Option, some, List, [], ◌∷◌, ◌++◌, append_nil}
use pithos.Daemon.Lane.{
  ScheduledJob, Session, PriorityLane, get_queue, remove_session, serve, pop_loop, pop_lane,
}
use pithos.Daemon.Lane.Invariant.{IsLane, first_found}

-- The place of an owner whose jobs left are these.
abbrev pub turn : List ℕ → List ScheduledJob → List (List ℕ)
turn o [] = []
turn o (job ∷ queue) = o ∷ []

serve_first :
    (sessions : List Session) (o : List ℕ) (order : List (List ℕ)) (job : ScheduledJob)
    (queue : List ScheduledJob) (continued removed : Option ScheduledJob × PriorityLane)
    → (let r = serve continued removed sessions o order (some (job ∷ queue)) in
        (r.0 ≡ some job) × (r.1.order ≡ order ++ turn o queue))
unfolding serve
serve_first sessions o order job [] continued removed = (refl, sym (append_nil order))
serve_first sessions o order job (next ∷ queue) continued removed = (refl, refl)

-- Under the invariant, a pop from a lane whose order is not empty returns the oldest job of the first
-- owner, who goes to the end of the order exactly when jobs of theirs are left.
pub pop_lane_first :
    (sessions : List Session) (o : List ℕ) (order : List (List ℕ))
    → IsLane (record { sessions = sessions; order = o ∷ order })
    → (job : ScheduledJob) × (queue : List ScheduledJob) × (get_queue sessions o
        ≡ some (job ∷ queue))
      × ((pop_lane (record { sessions = sessions; order = o ∷ order })).0 ≡ some job)
      × ((pop_lane (record { sessions = sessions; order = o ∷ order })).1.order
          ≡ order ++ turn o queue)
unfolding pop_lane pop_loop
pop_lane_first sessions o order l =
    let (job, queue, q) = first_found sessions o order l in
    let served =
      serve_first sessions o order job queue (pop_loop sessions order)
        (pop_loop (remove_session sessions o) order) in
    (job, queue, q, rw q served.0, rw q served.1)
