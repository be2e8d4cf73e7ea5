-- ===== src/AgentApi/Jobs.antt =====
-- crates/pithos-agent-api/src/lib.rs: the states of a job, and what a client sees of one.
use pithos.Prelude.{ℕ, Bool, true, false, Option, String, List}
use pithos.AgentApi.{JsonRpcError, Value}
use pithos.AgentApi.Methods.{RpcMethod}

pub data ApiJobState : Type 0 where
  queued running cancelling completed failed cancelled : ApiJobState

unfoldable pub is_terminal : ApiJobState → Bool
is_terminal completed = true
is_terminal failed = true
is_terminal cancelled = true
is_terminal _ = false

pub record JobAccepted : Type 0 where
  pub job_id : List ℕ
  pub state : ApiJobState
  pub idempotent_replay : Bool

pub record JobSnapshot : Type 0 where
  pub job_id : List ℕ
  pub state : ApiJobState
  pub operation : RpcMethod
  pub created_at_unix_ms : ℕ
  pub updated_at_unix_ms : ℕ
  pub result : Option Value
  pub error : Option JsonRpcError

pub record ProgressEvent : Type 0 where
  pub job_id : List ℕ
  pub sequence : ℕ
  pub state : ApiJobState
  pub phase : String
  pub completed_units : ℕ
  pub total_units : Option ℕ
  pub occurred_at_unix_ms : ℕ
