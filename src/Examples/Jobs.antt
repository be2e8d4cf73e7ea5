-- ===== src/Examples/Jobs.antt =====
-- The job registry of the daemon at concrete inputs.
use pithos.Prelude.{ℕ, refl, true, false, none, some, List, [], ◌∷◌, ◌++◌}
use pithos.AgentApi.{null}
use pithos.AgentApi.Jobs.{ApiJobState, queued, running, completed, ProgressEvent}
use pithos.AgentApi.Methods.{list, pack}
use pithos.Daemon.Limits.{JobLimits}
use pithos.Daemon.Lane.{pack_foreground}
use pithos.Daemon.Registry.{
  list_of, pack_of, raw, operation_method, JobSubmission, ArchiveIdentity, PackPublicationMarker,
  StoredJob, StorePolicy, PersistentState,
}
use pithos.Format.Same.{same_bytes}
use pithos.AgentApi.Ids.{starts_with, all_bytes}
use pithos.Daemon.Registry.Maps.{get_key}
use pithos.Daemon.Registry.Identifiers.{
  validate_idempotency_key, valid_identifier, parse_job_number, strip_prefix, hex_suffix,
  from_str_radix, from_digits, idempotency_map_key,
}
use pithos.Daemon.Registry.Markers.{absent, pack_output}
use pithos.Daemon.Registry.Validation.{
  validate_state, validate_jobs, validate_job, validate_index, same_method, validate_job_events,
  events_loop, last, same_state, validate_job_result, has_valid_result,
  validate_pack_publication_marker, validate_marker_at,
}
use pithos.Daemon.Registry.Validation.States.{IsStore, validate_state-IsStore}
use pithos.Daemon.Registry.Storage.{World, JobRegistry, of_length}

abbrev pub sample_policy : StorePolicy
sample_policy = record { max_store_bytes = 100; max_events_per_job = 2; max_retained_jobs = 3 }

-- "session-00000001" and "job-0000000000000001"
abbrev pub owner_id : List ℕ
owner_id = 115 ∷ 101 ∷ 115 ∷ 115 ∷ 105 ∷ 111 ∷ 110 ∷ 45 ∷ 48 ∷ 48 ∷ 48 ∷ 48 ∷ 48 ∷ 48 ∷ 48 ∷ 49 ∷ []

abbrev pub first_id : List ℕ
first_id =
    106 ∷ 111 ∷ 98 ∷ 45 ∷ 48 ∷ 48 ∷ 48 ∷ 48 ∷ 48 ∷ 48 ∷ 48 ∷ 48 ∷ 48 ∷ 48 ∷ 48 ∷ 48 ∷ 48 ∷ 48 ∷ 48
    ∷ 49 ∷ []

abbrev pub sample_limits : JobLimits
sample_limits = record {
  max_threads = 1;
  max_memory = 1;
  max_temp = 0;
  max_output = 1;
  deadline_unix_ms = none;
}

abbrev pub sample_identity : ArchiveIdentity
sample_identity = record { length = 9; blake3 = 1 ∷ 2 ∷ [] }

-- Storage works, and the archive verifies.
abbrev pub sample_world : PersistentState → World
sample_world stored = record {
  now = 5;
  stamp = λ id. 6;
  store_file = of_length 1 (some (7 ∷ []));
  from_slice = λ bytes. some stored;
  to_vec = λ state. some (7 ∷ 8 ∷ []);
  create_dir_all = true;
  new_temporary = true;
  write_all = true;
  flush_and_sync = true;
  persist = true;
  sync_directory = true;
  symlink_metadata = λ path. absent;
  is_file = λ path. true;
  verify = λ path. some sample_identity;
}

abbrev pub event : ℕ → ApiJobState → ProgressEvent
event sequence state = record {
  job_id = first_id;
  sequence = sequence;
  state = state;
  phase = "event";
  completed_units = 0;
  total_units = some 1;
  occurred_at_unix_ms = 4;
}

abbrev pub sample_submission : JobSubmission
sample_submission = record {
  owner = owner_id;
  method = list;
  priority = pack_foreground;
  idempotency_key = 107 ∷ [];
  params_hash = 3 ∷ [];
  limits = sample_limits;
  operation = list_of (97 ∷ []);
}

-- A job that lists an archive.
abbrev pub list_job : ApiJobState → List ProgressEvent → StoredJob
list_job state events = record {
  job_id = first_id;
  owner = owner_id;
  method = list;
  priority = pack_foreground;
  idempotency_key = 107 ∷ [];
  params_hash = 3 ∷ [];
  limits = sample_limits;
  operation = list_of (97 ∷ []);
  state = state;
  created_at_unix_ms = 1;
  updated_at_unix_ms = 4;
  result = none;
  error = none;
  events = events;
  next_sequence = 3;
  pack_publication = none;
}

abbrev pub running_job : StoredJob
running_job = list_job running (event 1 queued ∷ event 2 running ∷ [])

abbrev pub completed_one : StoredJob
completed_one = record (list_job completed (event 1 running ∷ event 2 completed ∷ [])) {
  result = some null;
}

abbrev pub state_of : StoredJob → PersistentState
state_of job = record {
  schema_version = 1;
  next_job = 2;
  jobs = (first_id, job) ∷ [];
  idempotency = (owner_id ++ (58 ∷ 107 ∷ []), first_id) ∷ [];
}

abbrev pub registry_of : PersistentState → JobRegistry
registry_of state = record {
  state = state;
  policy = sample_policy;
  closed = false;
  healthy = true;
  file = none;
}

abbrev pub running_registry : JobRegistry
running_registry = registry_of (state_of running_job)

pub samples-IsStore :
    IsStore sample_policy true (state_of running_job)
    × IsStore sample_policy true (state_of completed_one)
unfolding validate_state validate_jobs validate_job validate_index validate_idempotency_key
    valid_identifier starts_with all_bytes parse_job_number strip_prefix hex_suffix from_str_radix
    from_digits idempotency_map_key get_key same_bytes same_method operation_method
    validate_job_events events_loop last same_state validate_job_result has_valid_result
    validate_pack_publication_marker validate_marker_at pack_output
samples-IsStore = (
  validate_state-IsStore (state_of running_job) sample_policy true refl,
  validate_state-IsStore (state_of completed_one) sample_policy true refl,
)

abbrev pub pack_marker : PackPublicationMarker
pack_marker = record {
  marker_version = 1;
  job_id = first_id;
  params_hash = 3 ∷ [];
  output = 98 ∷ [];
  output_was_absent = true;
  published_archive = some sample_identity;
}

-- A pack job that was interrupted behind its publication.
abbrev pub pack_job : StoredJob
pack_job = record running_job {
  method = pack;
  operation = pack_of ((97 ∷ []) ∷ []) (98 ∷ []) raw;
  pack_publication = some pack_marker;
}
