-- ===== src/Daemon/Registry/Operations/Moves.antt =====
-- The life of a job, and an update as one move of it with one event.
use pithos.Prelude.{
  ℕ, ◌+◌, ◌<◌, ◌≡◌, refl, sym, subst, true, false, not, ◌&&◌, Option, none, some, List, String,
  arith,
}
use pithos.Core.Checked.{u64_end}
use pithos.AgentApi.{Value, JsonRpcError, ok}
use pithos.AgentApi.Jobs.{ApiJobState, queued, running, cancelling, completed, failed, cancelled}
use pithos.Daemon.Registry.{StoredJob, PackPublicationMarker}
use pithos.Daemon.Registry.Events.{append_event}
use pithos.Daemon.Registry.Events.Appended.{appended, append_event-appended}
use pithos.Daemon.Registry.Markers.{pack_output}
use pithos.Daemon.Registry.Validation.{has_valid_result, validate_marker_at, same_state, is_some}

-- The life of a job.
pub data Moves : ApiJobState → ApiJobState → Type 0 where
  queued_starts : Moves queued running
  queued_completes : Moves queued completed
  queued_fails : Moves queued failed
  queued_is_cancelled : Moves queued cancelled
  running_publishes : Moves running running
  running_stops : Moves running cancelling
  running_completes : Moves running completed
  running_fails : Moves running failed
  running_is_cancelled : Moves running cancelled
  stopping_publishes : Moves cancelling cancelling
  stopping_completes : Moves cancelling completed
  stopping_fails : Moves cancelling failed
  stopping_is_cancelled : Moves cancelling cancelled

-- What an update may change of a job before its event is appended.
abbrev pub changed :
    StoredJob
    → ApiJobState
    → Option Value
    → Option JsonRpcError
    → Option PackPublicationMarker
    → StoredJob
changed job state result error marker = record job {
  state = state;
  result = result;
  error = error;
  pack_publication = marker;
}

pub record Update (maximum : ℕ) (job next : StoredJob) : Type 0 where
  pub state : ApiJobState
  pub result : Option Value
  pub error : Option JsonRpcError
  pub marker : Option PackPublicationMarker
  pub now : ℕ
  pub phase : String
  pub moves : Moves job.state state
  pub becomes : next ≡ appended (changed job state result error marker) now phase maximum
  pub room : job.next_sequence + 1 < u64_end

-- The result and the marker of a job suit a state.
abbrev pub Suits :
    StoredJob
    → ApiJobState
    → Option Value
    → Option JsonRpcError
    → Option PackPublicationMarker
    → Type 0
Suits job state result error marker =
    (has_valid_result state result error ≡ true)
    × (validate_marker_at (record job { state = state }) marker (pack_output job.operation) ≡ ok tt)

abbrev pub Keeps : {maximum : ℕ} {job next : StoredJob} → Update maximum job next → Type 0
Keeps {job = job} u =
    Suits job job.state job.result job.error job.pack_publication
    → Suits job u.state u.result u.error u.marker

-- A marker suits every later state.
pub later_state :
    (job : StoredJob) (before after : ApiJobState) (marker : Option PackPublicationMarker)
    (output : Option (List ℕ))
    → same_state after queued ≡ false
    → validate_marker_at (record job { state = before }) marker output ≡ ok tt
    → validate_marker_at (record job { state = after }) marker output ≡ ok tt
unfolding validate_marker_at
later_state job before after none output started h = refl
later_state job before after (some marker) none started h = cc
later_state job before after (some marker) (some output) started h = ground arith

-- No move leads back to a queued job.
pub Moves-started : {a b : ApiJobState} → Moves a b → same_state b queued ≡ false
unfolding same_state
Moves-started queued_starts = refl
Moves-started queued_completes = refl
Moves-started queued_fails = refl
Moves-started queued_is_cancelled = refl
Moves-started running_publishes = refl
Moves-started running_stops = refl
Moves-started running_completes = refl
Moves-started running_fails = refl
Moves-started running_is_cancelled = refl
Moves-started stopping_publishes = refl
Moves-started stopping_completes = refl
Moves-started stopping_fails = refl
Moves-started stopping_is_cancelled = refl

-- From the append that ends a closure.
pub by_event :
    (job : StoredJob) (state : ApiJobState) (result : Option Value) (error : Option JsonRpcError)
    (marker : Option PackPublicationMarker) (now : ℕ) (phase : String) (maximum : ℕ)
    {next : StoredJob}
    → Moves job.state state
    → append_event (changed job state result error marker) now phase maximum ≡ ok next
    → Update maximum job next
by_event job state result error marker now phase maximum moves q =
    let (becomes, room) =
      append_event-appended (changed job state result error marker) now phase maximum q in
    record {
      state = state;
      result = result;
      error = error;
      marker = marker;
      now = now;
      phase = phase;
      moves = moves;
      becomes = becomes;
      room = room;
    }

-- The same with what it keeps, under a condition.
pub by_event_if :
    {P : Type 0} (job : StoredJob) (state : ApiJobState) (result : Option Value)
    (error : Option JsonRpcError) (marker : Option PackPublicationMarker) (now : ℕ) (phase : String)
    (maximum : ℕ) {next : StoredJob}
    → Moves job.state state
    → (P
        → Suits job job.state job.result job.error job.pack_publication
        → Suits job state result error marker)
    → append_event (changed job state result error marker) now phase maximum ≡ ok next
    → (u : Update maximum job next) × (P → Keeps u)
unfolding by_event
by_event_if job state result error marker now phase maximum moves keeps q =
    (by_event job state result error marker now phase maximum moves q, keeps)

-- The same where the marker stays, for a job in a known state.
pub by_marked_event :
    (job : StoredJob) (before state : ApiJobState) (result : Option Value)
    (error : Option JsonRpcError) (now : ℕ) (phase : String) (maximum : ℕ) {next : StoredJob}
    → job.state ≡ before
    → Moves before state
    → (has_valid_result before job.result job.error ≡ true
        → has_valid_result state result error ≡ true)
    → append_event (changed job state result error job.pack_publication) now phase maximum ≡ ok next
    → (u : Update maximum job next) × Keeps u
unfolding by_event
by_marked_event job before state result error now phase maximum at moves settles q = (
  by_event job state result error job.pack_publication now phase maximum
      (subst (λ s. Moves s state) (sym at) moves) q,
  λ valid. (
    settles (subst (λ s. has_valid_result s job.result job.error ≡ true) at valid.0),
    later_state job job.state state job.pack_publication (pack_output job.operation)
        (Moves-started moves) valid.1,
  ),
)

-- A live job has no result, as a cancelled one has none.
pub no_result :
    (result : Option Value) (error : Option JsonRpcError)
    → (not (is_some result) && not (is_some error)) ≡ true
    → not (is_some result) ≡ true
no_result none error h = refl
no_result (some r) error h = cc
