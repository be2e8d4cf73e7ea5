-- ===== src/Daemon/Registry/Validation.antt =====
-- crates/pithos-daemon/src/store.rs: what the registry checks of a whole state before it writes it and
-- after it has read one.
pub mod Facts
pub mod Settled
pub mod Equalities
pub mod Histories
pub mod States
pub mod Jobs
use pithos.Prelude.{
  ℕ, max, Bool, true, false, not, ◌||◌, ◌&&◌, Option, none, some, List, [], ◌∷◌, length, ltb, leb,
  ◌==◌, if◌then◌else◌,
}
use pithos.Core.Checked.{checked_add}
use pithos.Format.Same.{same_bytes}
use pithos.StdPath.{same_path}
use pithos.AgentApi.{
  RpcResult, ok, err, ◌>>◌, ◌>>=◌, bail_if, ok_or, resource_limit_error, Value, JsonRpcError,
}
use pithos.AgentApi.Ids.{session_prefix}
use pithos.AgentApi.Methods.{
  RpcMethod, capabilities, estimate, pack, unpack, list, inspect, extract, read_range, verify,
  cancel, job_status, subscribe_events,
}
use pithos.AgentApi.Jobs.{
  ApiJobState, queued, running, cancelling, completed, failed, cancelled, ProgressEvent,
}
use pithos.Daemon.Registry.{
  StoredJob, StorePolicy, PersistentState, PackPublicationMarker, operation_method, internal,
  store_schema_version, pack_publication_marker_version,
}
use pithos.Daemon.Registry.Maps.{get_key}
use pithos.Daemon.Registry.Identifiers.{
  valid_identifier, parse_job_number, idempotency_map_key, validate_idempotency_key,
}
use pithos.Daemon.Registry.Markers.{pack_output}

-- `==` of states and of methods, by the numbers of the constructors.
abbrev pub state_number : ApiJobState → ℕ
state_number queued = 0
state_number running = 1
state_number cancelling = 2
state_number completed = 3
state_number failed = 4
state_number cancelled = 5

unfoldable pub same_state : ApiJobState → ApiJobState → Bool
same_state a b = state_number a == state_number b

abbrev pub method_number : RpcMethod → ℕ
method_number capabilities = 0
method_number estimate = 1
method_number pack = 2
method_number unpack = 3
method_number list = 4
method_number inspect = 5
method_number extract = 6
method_number read_range = 7
method_number verify = 8
method_number cancel = 9
method_number job_status = 10
method_number subscribe_events = 11

unfoldable pub same_method : RpcMethod → RpcMethod → Bool
same_method a b = method_number a == method_number b

abbrev pub is_some {ℓ} : {A : Type ℓ} → Option A → Bool
is_some none = false
is_some (some a) = true

-- `previous.is_some_and(|sequence| event.sequence <= sequence)`
abbrev pub at_most : ℕ → Option ℕ → Bool
at_most sequence none = false
at_most sequence (some previous) = leb sequence previous

-- The loop over the events; its local is the sequence number of the event before.
unfoldable pub events_loop : List ℕ → Option ℕ → List ProgressEvent → RpcResult (Unit {0})
events_loop job_id previous [] = ok tt
events_loop job_id previous (e ∷ es) =
    bail_if (not (same_bytes e.job_id job_id) || e.sequence == 0 || at_most e.sequence previous)
      (internal "job store event sequence is corrupt")
    >> events_loop job_id (some e.sequence) es

-- `events.last()`
unfoldable pub last {ℓ} : {A : Type ℓ} → List A → Option A
last [] = none
last (a ∷ []) = some a
last (a ∷ b ∷ as') = last (b ∷ as')

unfoldable pub validate_job_events : StoredJob → StorePolicy → Bool → RpcResult (Unit {0})
validate_job_events job policy enforce_retention =
    bail_if
      (length job.events == 0
        || (enforce_retention && ltb policy.max_events_per_job (length job.events)))
      (internal "job store event history is corrupt")
    >> events_loop job.job_id none job.events
    >> (ok_or (last job.events) (internal "job store event history is corrupt") >>= λ end.
        ok_or (checked_add end.sequence 1) (internal "job store event sequence is exhausted")
        >>= λ expected_next.
            bail_if
              (not (job.next_sequence == expected_next) || not (same_state end.state job.state))
              (internal "job store event counter is corrupt"))

unfoldable pub has_valid_result : ApiJobState → Option Value → Option JsonRpcError → Bool
has_valid_result completed result error = is_some result && not (is_some error)
has_valid_result failed result error = not (is_some result) && is_some error
has_valid_result cancelled result error = not (is_some result)
has_valid_result _ result error = not (is_some result) && not (is_some error)

unfoldable pub validate_job_result : StoredJob → RpcResult (Unit {0})
validate_job_result job =
    if has_valid_result job.state job.result job.error
    then ok tt
    else err (internal "job store result invariant is corrupt")

unfoldable pub validate_marker_at :
    StoredJob → Option PackPublicationMarker → Option (List ℕ) → RpcResult (Unit {0})
validate_marker_at job none output = ok tt
validate_marker_at job (some marker) none = err (internal "non-pack job has a publication marker")
validate_marker_at job (some marker) (some output) =
    bail_if
      (not (marker.marker_version == pack_publication_marker_version)
        || not (same_bytes marker.job_id job.job_id)
        || not (same_bytes marker.params_hash job.params_hash)
        || not (same_path marker.output output)
        || same_state job.state queued
        || (is_some marker.published_archive && not marker.output_was_absent))
      (internal "pack publication marker is corrupt")

unfoldable pub validate_pack_publication_marker : StoredJob → RpcResult (Unit {0})
validate_pack_publication_marker job =
    validate_marker_at job job.pack_publication (pack_output job.operation)

-- `result.map_err(|_| error)`
abbrev pub map_err : RpcResult (Unit {0}) → JsonRpcError → RpcResult (Unit {0})
map_err (ok done) error = ok done
map_err (err e) error = err error

-- `found.map(String::as_str) != Some(job_id)`
abbrev pub leads_elsewhere : Option (List ℕ) → List ℕ → Bool
leads_elsewhere none job_id = true
leads_elsewhere (some found) job_id = not (same_bytes found job_id)

-- One round of the loop over the jobs, which yields the number of the job.
unfoldable pub validate_job :
    StorePolicy → Bool → List (List ℕ × List ℕ) → List ℕ → StoredJob → RpcResult ℕ
validate_job policy enforce_retention idempotency map_key job =
    bail_if
      (not (same_bytes map_key job.job_id)
        || not (valid_identifier job.owner session_prefix)
        || not (same_method job.method (operation_method job.operation))
        || job.limits.max_threads == 0
        || job.limits.max_memory == 0
        || job.limits.max_output == 0)
      (internal "job store schema invariants are corrupt")
    >> map_err (validate_idempotency_key job.idempotency_key)
        (internal "job store idempotency key is corrupt")
    >> (parse_job_number job.job_id >>= λ job_number.
        bail_if
          (leads_elsewhere (get_key idempotency (idempotency_map_key job.owner job.idempotency_key))
            job.job_id)
          (internal "job store idempotency index is corrupt")
        >> validate_job_events job policy enforce_retention
        >> validate_job_result job
        >> validate_pack_publication_marker job
        >> ok job_number)

-- The loop yields the largest number.
unfoldable pub validate_jobs :
    StorePolicy → Bool → List (List ℕ × List ℕ) → List (List ℕ × StoredJob) → ℕ → RpcResult ℕ
validate_jobs policy enforce_retention idempotency [] maximum_job_number = ok maximum_job_number
validate_jobs policy enforce_retention idempotency (e ∷ es) maximum_job_number =
    validate_job policy enforce_retention idempotency e.0 e.1 >>= λ job_number.
    validate_jobs policy enforce_retention idempotency es (max maximum_job_number job_number)

unfoldable pub validate_index :
    List (List ℕ × StoredJob) → List (List ℕ × List ℕ) → RpcResult (Unit {0})
validate_index jobs [] = ok tt
validate_index jobs (e ∷ es) =
    ok_or (get_key jobs e.1) (internal "job store idempotency index is corrupt") >>= λ job.
    bail_if (not (same_bytes e.0 (idempotency_map_key job.owner job.idempotency_key)))
      (internal "job store idempotency index is corrupt")
    >> validate_index jobs es

unfoldable pub validate_state : PersistentState → StorePolicy → Bool → RpcResult (Unit {0})
validate_state state policy enforce_retention =
    bail_if (not (state.schema_version == store_schema_version))
      (internal "unsupported job store schema")
    >> bail_if (enforce_retention && ltb policy.max_retained_jobs (length state.jobs))
        (resource_limit_error "job store retention capacity exceeded")
    >> bail_if (state.next_job == 0 || not (length state.idempotency == length state.jobs))
        (internal "job store counters or indices are corrupt")
    >> (validate_jobs policy enforce_retention state.idempotency state.jobs 0
        >>= λ maximum_job_number.
            bail_if (not (length state.jobs == 0) && leb state.next_job maximum_job_number)
              (internal "job store next-job counter is corrupt")
            >> validate_index state.jobs state.idempotency)
