-- ===== src/Daemon/Registry.antt =====
-- crates/pithos-daemon/src/store.rs: the job registry, a map of jobs in memory that every change
-- replaces as a whole, on disk first. Here are its types; a path, a key and an identifier are lists of
-- bytes, a hash is the list of its bytes.
pub mod Maps
pub mod Identifiers
pub mod Events
pub mod Validation
pub mod Markers
pub mod Storage
pub mod Operations
pub mod Calls
pub mod Queries
pub mod Submission
pub mod Lifetime
pub mod Runs
use pithos.Prelude.{ℕ, ◌*◌, Bool, true, false, ◌||◌, Option, List, [], ◌==◌, if◌then◌else◌, String}
use pithos.AgentApi.{
  Value, JsonRpcError, RpcResult, ok, err, domain, internal_kind, job_not_found_kind,
}
use pithos.AgentApi.Methods.{RpcMethod, pack, unpack, list, inspect, extract, read_range, verify}
use pithos.AgentApi.Jobs.{ApiJobState, ProgressEvent}
use pithos.Daemon.Limits.{JobLimits}
use pithos.Daemon.Lane.{JobPriority}

abbrev pub store_schema_version : ℕ
store_schema_version = 1

abbrev pub max_idempotency_key_bytes : ℕ
max_idempotency_key_bytes = 256

abbrev pub pack_publication_marker_version : ℕ
pack_publication_marker_version = 1

pub record StorePolicy : Type 0 where
  pub max_store_bytes : ℕ
  pub max_events_per_job : ℕ
  pub max_retained_jobs : ℕ

abbrev pub default_store_policy : StorePolicy
default_store_policy = record {
  max_store_bytes = 64 * 1024 * 1024;
  max_events_per_job = 4096;
  max_retained_jobs = 4096;
}

unfoldable pub internal : String → JsonRpcError
internal message = domain internal_kind message

unfoldable pub job_not_found : JsonRpcError
job_not_found = domain job_not_found_kind "job not found"

unfoldable pub validate_policy : StorePolicy → RpcResult StorePolicy
validate_policy policy =
    if policy.max_store_bytes == 0
      || policy.max_events_per_job == 0
      || policy.max_retained_jobs == 0
    then err (internal "invalid job store policy")
    else ok policy

-- crates/pithos-agent-api/src/lib.rs: `ApiProfile`.
pub data ApiProfile : Type 0 where
  raw stream random balanced archive_max : ApiProfile

-- The constructors are the source's `Pack`, `Unpack` and so on; a path is a list of bytes.
pub data StoredOperation : Type 0 where
  pack_of : (inputs : List (List ℕ)) (output : List ℕ) (profile : ApiProfile) → StoredOperation
  unpack_of : (archive output : List ℕ) → StoredOperation
  list_of : (archive : List ℕ) → StoredOperation
  inspect_of : (archive : List ℕ) → StoredOperation
  extract_of : (archive entry output : List ℕ) → StoredOperation
  read_range_of : (archive entry : List ℕ) (offset length : ℕ) → StoredOperation
  verify_of : (archive : List ℕ) → StoredOperation

unfoldable pub operation_method : StoredOperation → RpcMethod
operation_method (pack_of inputs output profile) = pack
operation_method (unpack_of archive output) = unpack
operation_method (list_of archive) = list
operation_method (inspect_of archive) = inspect
operation_method (extract_of archive entry output) = extract
operation_method (read_range_of archive entry offset length) = read_range
operation_method (verify_of archive) = verify

pub record JobSubmission : Type 0 where
  pub owner : List ℕ
  pub method : RpcMethod
  pub priority : JobPriority
  pub idempotency_key : List ℕ
  pub params_hash : List ℕ
  pub limits : JobLimits
  pub operation : StoredOperation

pub record ArchiveIdentity : Type 0 where
  pub length : ℕ
  pub blake3 : List ℕ

pub record PackPublicationMarker : Type 0 where
  pub marker_version : ℕ
  pub job_id : List ℕ
  pub params_hash : List ℕ
  pub output : List ℕ
  pub output_was_absent : Bool
  pub published_archive : Option ArchiveIdentity

pub record StoredJob : Type 0 where
  pub job_id : List ℕ
  pub owner : List ℕ
  pub method : RpcMethod
  pub priority : JobPriority
  pub idempotency_key : List ℕ
  pub params_hash : List ℕ
  pub limits : JobLimits
  pub operation : StoredOperation
  pub state : ApiJobState
  pub created_at_unix_ms : ℕ
  pub updated_at_unix_ms : ℕ
  pub result : Option Value
  pub error : Option JsonRpcError
  pub events : List ProgressEvent
  pub next_sequence : ℕ
  pub pack_publication : Option PackPublicationMarker

-- A `BTreeMap` is the list of its entries, in the order of the keys.
pub record PersistentState : Type 0 where
  pub schema_version : ℕ
  pub next_job : ℕ
  pub jobs : List (List ℕ × StoredJob)
  pub idempotency : List (List ℕ × List ℕ)

abbrev pub default_state : PersistentState
default_state = record {
  schema_version = store_schema_version;
  next_job = 1;
  jobs = [];
  idempotency = [];
}
