-- ===== src/Daemon/Registry/Validation/Jobs.antt =====
-- What the registry checks of one job, as statements about the job.
use pithos.Prelude.{
  ℕ, ◌<◌, ◌≡◌, refl, ap, ◌∙◌, Bool, true, false, not, ◌||◌, Option, none, some, List, ◌==◌,
  if◌then◌else◌, arith,
}
use pithos.Format.Same.{same_bytes, same_bytes→eq, eq→same_bytes}
use pithos.AgentApi.{JsonRpcError, RpcResult, ok, err, ◌>>◌, bail_if, bind-inv, bail_if-ok, both-ok}
use pithos.AgentApi.Ids.{session_prefix}
use pithos.Daemon.Registry.{StoredJob, StorePolicy, operation_method, internal}
use pithos.Daemon.Registry.Maps.{get_key}
use pithos.Daemon.Registry.Identifiers.{
  valid_identifier, parse_job_number, idempotency_map_key, validate_idempotency_key,
}
use pithos.Daemon.Registry.Validation.{
  same_method, validate_job_events, validate_job_result, validate_pack_publication_marker, map_err,
  leads_elsewhere, validate_job, has_valid_result,
}
use pithos.Daemon.Registry.Operations.Moves.{Suits}
use pithos.Daemon.Registry.Validation.Equalities.{same_method→eq, same_method_refl}
use pithos.Daemon.Registry.Validation.Facts.{
  IsIdentifier, IsKey, HasNumber, valid_identifier-IsIdentifier, validate_idempotency_key-IsKey,
  parse_job_number-HasNumber,
}
use pithos.Daemon.Registry.Validation.Settled.{
  IsSettled, IsMarked, has_valid_result-IsSettled, validate_marker_at-IsMarked,
}
use pithos.Daemon.Registry.Validation.Histories.{
  HasHistory, validate_job_events-HasHistory, HasHistory-validate_job_events,
}

-- A job that stands in the map under a key, with an index of the idempotency keys. Its number is `number`.
pub record IsStored (policy : StorePolicy) (enforce_retention : Bool)
    (idempotency : List (List ℕ × List ℕ)) (map_key : List ℕ) (job : StoredJob) (number : ℕ)
    : Type 0 where
  pub keyed : map_key ≡ job.job_id
  pub owner : IsIdentifier session_prefix job.owner
  pub method : job.method ≡ operation_method job.operation
  pub threads : 0 < job.limits.max_threads
  pub memory : 0 < job.limits.max_memory
  pub output : 0 < job.limits.max_output
  pub idempotency_key : IsKey job.idempotency_key
  pub numbered : HasNumber job.job_id number
  pub indexed :
      get_key idempotency (idempotency_map_key job.owner job.idempotency_key) ≡ some job.job_id
  pub history : HasHistory policy enforce_retention job
  pub settled : IsSettled job.state job.result job.error
  pub marked : IsMarked job job.pack_publication

-- The same of the result and the marker, as the checks say it.
pub IsStored-Suits :
    {policy : StorePolicy} {enforce_retention : Bool} {idempotency : List (List ℕ × List ℕ)}
    {map_key : List ℕ} {job : StoredJob} {number : ℕ}
    → IsStored policy enforce_retention idempotency map_key job number
    → Suits job job.state job.result job.error job.pack_publication
IsStored-Suits {job = job} s = (
  (has_valid_result-IsSettled job.state job.result job.error).1 s.settled,
  (validate_marker_at-IsMarked job job.pack_publication).1 s.marked,
)

schema_test :
    (key owner method : Bool) (threads memory output : ℕ)
    → (not key || not owner || not method || threads == 0 || memory == 0 || output == 0) ≡ false
    → (key ≡ true) × (owner ≡ true) × (method ≡ true) × (0 < threads) × (0 < memory) × (0 < output)
schema_test key owner method threads memory output h = ground arith

test_schema :
    (key owner method : Bool) (threads memory output : ℕ)
    → key ≡ true
    → owner ≡ true
    → method ≡ true
    → 0 < threads
    → 0 < memory
    → 0 < output
    → (not key || not owner || not method || threads == 0 || memory == 0 || output == 0) ≡ false
test_schema key owner method threads memory output a b c d e f = ground arith

map_err-ok : (r : RpcResult (Unit {0})) (e : JsonRpcError) → map_err r e ≡ ok tt → r ≡ ok tt
map_err-ok (ok tt) e h = refl
map_err-ok (err d) e h = cc

leads_elsewhere-some :
    (found : Option (List ℕ)) (job_id : List ℕ)
    → leads_elsewhere found job_id ≡ false
    → found ≡ some job_id
leads_elsewhere-some none job_id h = cc
leads_elsewhere-some (some found) job_id h = ap some (same_bytes→eq found job_id (ground arith))

passed :
    (test : Bool) (e : JsonRpcError)
    → ◌≡◌ {A = RpcResult (Unit {0})} (if test then ok tt else err e) (ok tt)
    → test ≡ true
passed true e h = refl
passed false e h = cc

valid_result :
    (job : StoredJob)
    → validate_job_result job ≡ ok tt
    → has_valid_result job.state job.result job.error ≡ true
unfolding validate_job_result
valid_result job h = passed (has_valid_result job.state job.result job.error) _ h

pub validate_job-IsStored :
    (policy : StorePolicy) (enforce_retention : Bool) (idempotency : List (List ℕ × List ℕ))
    (map_key : List ℕ) (job : StoredJob) {number : ℕ}
    → validate_job policy enforce_retention idempotency map_key job ≡ ok number
    → IsStored policy enforce_retention idempotency map_key job number
unfolding validate_job validate_pack_publication_marker
validate_job-IsStored policy enforce idempotency map_key job {number} q =
    let (tt, ab, q1) =
      bind-inv
        (bail_if
            (not (same_bytes map_key job.job_id)
              || not (valid_identifier job.owner session_prefix)
              || not (same_method job.method (operation_method job.operation))
              || job.limits.max_threads == 0
              || job.limits.max_memory == 0
              || job.limits.max_output == 0)
            (internal "job store schema invariants are corrupt")
          >> map_err (validate_idempotency_key job.idempotency_key)
              (internal "job store idempotency key is corrupt"))
        _ q in
    let (a, b) = both-ok _ _ ab in
    let (n, c, q2) = bind-inv (parse_job_number job.job_id) _ q1 in
    let (tt, defg, last_step) =
      bind-inv
        (bail_if
            (leads_elsewhere
              (get_key idempotency (idempotency_map_key job.owner job.idempotency_key)) job.job_id)
            (internal "job store idempotency index is corrupt")
          >> validate_job_events job policy enforce
          >> validate_job_result job
          >> validate_pack_publication_marker job)
        _ q2 in
    let (def, g) = both-ok _ _ defg in
    let (de, f) = both-ok _ _ def in
    let (d, e) = both-ok _ _ de in
    let (key, owner, method, threads, memory, output) =
      schema_test (same_bytes map_key job.job_id) (valid_identifier job.owner session_prefix)
        (same_method job.method (operation_method job.operation)) job.limits.max_threads
        job.limits.max_memory job.limits.max_output (bail_if-ok _ _ a) in
    record {
      keyed = same_bytes→eq map_key job.job_id key;
      owner = (valid_identifier-IsIdentifier job.owner session_prefix).0 owner;
      method = same_method→eq job.method (operation_method job.operation) method;
      threads = threads;
      memory = memory;
      output = output;
      idempotency_key = (validate_idempotency_key-IsKey job.idempotency_key).0 (map_err-ok _ _ b);
      numbered = (parse_job_number-HasNumber job.job_id number).0 (c ∙ last_step);
      indexed = leads_elsewhere-some _ job.job_id (bail_if-ok _ _ d);
      history = validate_job_events-HasHistory job policy enforce e;
      settled = (has_valid_result-IsSettled job.state job.result job.error).0 (valid_result job f);
      marked = (validate_marker_at-IsMarked job job.pack_publication).0 g;
    }

pub IsStored-validate_job :
    (policy : StorePolicy) (enforce_retention : Bool) (idempotency : List (List ℕ × List ℕ))
    (map_key : List ℕ) (job : StoredJob) (number : ℕ)
    → IsStored policy enforce_retention idempotency map_key job number
    → validate_job policy enforce_retention idempotency map_key job ≡ ok number
unfolding validate_job validate_pack_publication_marker validate_job_result
IsStored-validate_job policy enforce idempotency map_key job number s =
    let tested =
      test_schema (same_bytes map_key job.job_id) (valid_identifier job.owner session_prefix)
        (same_method job.method (operation_method job.operation)) job.limits.max_threads
        job.limits.max_memory job.limits.max_output (eq→same_bytes map_key job.job_id s.keyed)
        ((valid_identifier-IsIdentifier job.owner session_prefix).1 s.owner)
        (same_method_refl job.method (operation_method job.operation) s.method) s.threads s.memory
        s.output in
    let there : not (same_bytes job.job_id job.job_id) ≡ false =
      rw (eq→same_bytes job.job_id job.job_id refl) refl in
    rw
      (
        tested,
        (validate_idempotency_key-IsKey job.idempotency_key).1 s.idempotency_key,
        (parse_job_number-HasNumber job.job_id number).1 s.numbered,
        s.indexed,
        there,
        HasHistory-validate_job_events job policy enforce s.history,
        (IsStored-Suits s).0,
        (IsStored-Suits s).1,
      )
      refl
