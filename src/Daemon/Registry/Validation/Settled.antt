-- ===== src/Daemon/Registry/Validation/Settled.antt =====
-- What the checks of one job say of its result, its error and its publication marker, as statements about
-- the data.
use pithos.Prelude.{
  ℕ, ◌≡◌, ◌≢◌, ◌↔◌, ◌⊎◌, inl, inr, refl, sym, ap, ◌∙◌, Bool, true, false, not, ◌||◌, ◌&&◌, Option,
  none, some, List, ◌==◌, &&-left, &&-right, Bool-cases, arith,
}
use pithos.Format.Same.{same_bytes, same_bytes→eq, eq→same_bytes}
use pithos.StdPath.{path_components, same_path}
use pithos.StdPath.Plain.{same_path→eq, eq→same_path}
use pithos.AgentApi.{Value, JsonRpcError, ok, bail_if, bail_if-ok}
use pithos.AgentApi.Jobs.{ApiJobState, queued, running, cancelling, completed, failed, cancelled}
use pithos.Daemon.Registry.{
  StoredJob, StoredOperation, pack_of, unpack_of, list_of, inspect_of, extract_of, read_range_of,
  verify_of, ApiProfile, PackPublicationMarker, internal,
}
use pithos.Daemon.Registry.Markers.{pack_output}
use pithos.Daemon.Registry.Validation.{is_some, has_valid_result, validate_marker_at, same_state}
use pithos.Daemon.Registry.Validation.Equalities.{same_state→eq, same_state_refl, some-injective}

-- A completed job has a result and no error, a failed one an error and no result, a cancelled one no
-- result, and a live one neither.
abbrev pub IsSettled : ApiJobState → Option Value → Option JsonRpcError → Type 0
IsSettled completed result error = ((v : Value) × (result ≡ some v)) × (error ≡ none)
IsSettled failed result error = (result ≡ none) × ((e : JsonRpcError) × (error ≡ some e))
IsSettled cancelled result error = result ≡ none
IsSettled queued result error = (result ≡ none) × (error ≡ none)
IsSettled running result error = (result ≡ none) × (error ≡ none)
IsSettled cancelling result error = (result ≡ none) × (error ≡ none)

module _ {ℓ} {A : Type ℓ} where
  present : (o : Option A) → (is_some o ≡ true) ↔ ((a : A) × (o ≡ some a))
  present none = (λ h. cc, λ h. cc h.1)
  present (some a) = (λ h. (a, refl), λ h. refl)

  missing : (o : Option A) → (not (is_some o) ≡ true) ↔ (o ≡ none)
  missing none = (λ h. refl, λ h. refl)
  missing (some a) = (λ h. cc, λ h. cc)

neither :
    (result : Option Value) (error : Option JsonRpcError)
    → ((not (is_some result) && not (is_some error)) ≡ true) ↔ ((result ≡ none) × (error ≡ none))
neither result error = (
  λ h. (
    (missing result).0 (&&-left (not (is_some result)) _ h),
    (missing error).0 (&&-right (not (is_some result)) _ h),
  ),
  λ h. rw ((missing result).1 h.0, (missing error).1 h.1) refl,
)

pub has_valid_result-IsSettled :
    (state : ApiJobState) (result : Option Value) (error : Option JsonRpcError)
    → (has_valid_result state result error ≡ true) ↔ IsSettled state result error
unfolding has_valid_result
has_valid_result-IsSettled completed result error = (
  λ h. (
    (present result).0 (&&-left (is_some result) _ h),
    (missing error).0 (&&-right (is_some result) _ h),
  ),
  λ h. rw ((present result).1 h.0, (missing error).1 h.1) refl,
)
has_valid_result-IsSettled failed result error = (
  λ h. (
    (missing result).0 (&&-left (not (is_some result)) _ h),
    (present error).0 (&&-right (not (is_some result)) _ h),
  ),
  λ h. rw ((missing result).1 h.0, (present error).1 h.1) refl,
)
has_valid_result-IsSettled cancelled result error = missing result
has_valid_result-IsSettled queued result error = neither result error
has_valid_result-IsSettled running result error = neither result error
has_valid_result-IsSettled cancelling result error = neither result error

-- A marker of the version, of the job and of its output, of a pack job that has started; an archive is
-- published only where the output was absent. Paths are compared by their components.
pub record IsMarkerOf (job : StoredJob) (marker : PackPublicationMarker) : Type 0 where
  pub version : marker.marker_version ≡ 1
  pub job_id : marker.job_id ≡ job.job_id
  pub params_hash : marker.params_hash ≡ job.params_hash
  pub output :
      (inputs : List (List ℕ)) × (output : List ℕ) × (profile : ApiProfile) × (job.operation
        ≡ pack_of inputs output profile)
      × (path_components marker.output ≡ path_components output)
  pub started : job.state ≢ queued
  pub own : (marker.published_archive ≡ none) ⊎ (marker.output_was_absent ≡ true)

abbrev pub IsMarked : StoredJob → Option PackPublicationMarker → Type 0
IsMarked job none = Unit
IsMarked job (some marker) = IsMarkerOf job marker

pack_output-pack_of :
    (operation : StoredOperation) (output : List ℕ)
    → pack_output operation ≡ some output
    → (inputs : List (List ℕ)) × (profile : ApiProfile) × (operation
        ≡ pack_of inputs output profile)
unfolding pack_output
pack_output-pack_of (pack_of inputs o profile) output h =
    (inputs, profile, ap (λ p. pack_of inputs p profile) (cc h))
pack_output-pack_of (unpack_of archive o) output h = cc
pack_output-pack_of (list_of archive) output h = cc
pack_output-pack_of (inspect_of archive) output h = cc
pack_output-pack_of (extract_of archive entry o) output h = cc
pack_output-pack_of (read_range_of archive entry offset length) output h = cc
pack_output-pack_of (verify_of archive) output h = cc

pack_of-pack_output :
    {inputs : List (List ℕ)} {output : List ℕ} {profile : ApiProfile} (operation : StoredOperation)
    → operation ≡ pack_of inputs output profile
    → pack_output operation ≡ some output
unfolding pack_output
pack_of-pack_output operation e = ap pack_output e

marker_test :
    (version : ℕ) (job_id params_hash output is_queued published absent : Bool)
    → (not (version == 1)
        || not job_id
        || not params_hash
        || not output
        || is_queued
        || (published && not absent))
      ≡ false
    → (version ≡ 1)
      × (job_id ≡ true)
      × (params_hash ≡ true)
      × (output ≡ true)
      × (is_queued ≡ false)
      × ((not published ≡ true) ⊎ (absent ≡ true))
marker_test version job_id params_hash output is_queued published absent h = ground arith

test_marker :
    (version : ℕ) (job_id params_hash output is_queued published absent : Bool)
    → version ≡ 1
    → job_id ≡ true
    → params_hash ≡ true
    → output ≡ true
    → is_queued ≡ false
    → (not published ≡ true) ⊎ (absent ≡ true)
    → (not (version == 1)
        || not job_id
        || not params_hash
        || not output
        || is_queued
        || (published && not absent))
      ≡ false
test_marker version job_id params_hash output is_queued published absent a b c d e f = ground arith

not_queued : (state : ApiJobState) → (same_state state queued ≡ false) ↔ (state ≢ queued)
not_queued state = (
  λ h q. ground (arith, same_state_refl state queued q),
  λ n. elim (Bool-cases (same_state state queued)) [
    | inl same ↦ absurd (n (same_state→eq state queued same))
    | inr other ↦ other
  ],
)

validate_marker_at-IsMarkerOf :
    (job : StoredJob) (marker : PackPublicationMarker) (output : Option (List ℕ))
    → pack_output job.operation ≡ output
    → (validate_marker_at job (some marker) output ≡ ok tt) ↔ IsMarkerOf job marker
unfolding validate_marker_at
validate_marker_at-IsMarkerOf job marker none e = (
  λ h. cc,
  λ m.
      let (inputs, found, profile, operation, same) = m.output in
      let bad = sym e ∙ pack_of-pack_output job.operation operation in cc bad,
)
validate_marker_at-IsMarkerOf job marker (some output) e = (
  λ h.
      let (version, job_id, params_hash, same, started, own) =
        marker_test marker.marker_version (same_bytes marker.job_id job.job_id)
          (same_bytes marker.params_hash job.params_hash) (same_path marker.output output)
          (same_state job.state queued) (is_some marker.published_archive) marker.output_was_absent
          (bail_if-ok _ _ h) in
      let (inputs, profile, operation) = pack_output-pack_of job.operation output e in
      record {
        version = version;
        job_id = same_bytes→eq marker.job_id job.job_id job_id;
        params_hash = same_bytes→eq marker.params_hash job.params_hash params_hash;
        output = (inputs, output, profile, operation, same_path→eq marker.output output same);
        started = (not_queued job.state).0 started;
        own = elim own [
          | inl nothing ↦ inl ((missing marker.published_archive).0 nothing)
          | inr absent ↦ inr absent
        ];
      },
  λ m.
      let (inputs, found, profile, operation, same) = m.output in
      let is_output : found ≡ output =
        some-injective (sym (pack_of-pack_output job.operation operation) ∙ e) in
      ap (λ test. bail_if test (internal "pack publication marker is corrupt"))
        (test_marker marker.marker_version (same_bytes marker.job_id job.job_id)
          (same_bytes marker.params_hash job.params_hash) (same_path marker.output output)
          (same_state job.state queued) (is_some marker.published_archive) marker.output_was_absent
          m.version (eq→same_bytes marker.job_id job.job_id m.job_id)
          (eq→same_bytes marker.params_hash job.params_hash m.params_hash)
          (eq→same_path marker.output output (same ∙ ap path_components is_output))
          ((not_queued job.state).1 m.started)
          (elim m.own [
            | inl nothing ↦ inl ((missing marker.published_archive).1 nothing)
            | inr absent ↦ inr absent
          ])),
)

pub validate_marker_at-IsMarked :
    (job : StoredJob) (marker : Option PackPublicationMarker)
    → (validate_marker_at job marker (pack_output job.operation) ≡ ok tt) ↔ IsMarked job marker
unfolding validate_marker_at
validate_marker_at-IsMarked job none = (λ h. tt, λ h. refl)
validate_marker_at-IsMarked job (some marker) =
    validate_marker_at-IsMarkerOf job marker (pack_output job.operation) refl
