-- ===== src/Daemon/Registry/Markers.antt =====
-- crates/pithos-daemon/src/store.rs: the publication marker of a pack job, which says whether the archive
-- at the job's output is the job's own. The file system and the verification of an archive are parameters.
pub mod Own
use pithos.Prelude.{
  ℕ, Bool, true, false, not, ◌||◌, ◌&&◌, Option, none, some, List, ◌==◌, if◌then◌else◌,
}
use pithos.Format.Same.{same_bytes}
use pithos.AgentApi.{RpcResult, ok, err, ◌>>=◌, ok_or, bail_if}
use pithos.Daemon.Registry.{
  StoredJob, StoredOperation, pack_of, PackPublicationMarker, ArchiveIdentity, internal,
  pack_publication_marker_version,
}

-- What `fs::symlink_metadata` says of a path.
pub data Presence : Type 0 where
  present absent unreadable : Presence

-- The output of a pack operation.
unfoldable pub pack_output : StoredOperation → Option (List ℕ)
pack_output (pack_of inputs output profile) = some output
pack_output _ = none

unfoldable pub was_absent : Presence → RpcResult Bool
was_absent present = ok false
was_absent absent = ok true
was_absent unreadable = err (internal "cannot inspect pack output before execution")

unfoldable pub new_marker : StoredJob → List ℕ → Bool → PackPublicationMarker
new_marker job output output_was_absent = record {
  marker_version = pack_publication_marker_version;
  job_id = job.job_id;
  params_hash = job.params_hash;
  output = output;
  output_was_absent = output_was_absent;
  published_archive = none;
}

unfoldable pub prepare_marker_at :
    (List ℕ → Presence) → StoredJob → Option (List ℕ) → RpcResult (Option PackPublicationMarker)
prepare_marker_at metadata job none = ok none
prepare_marker_at metadata job (some output) = was_absent (metadata output) >>= λ output_was_absent.
    ok (some (new_marker job output output_was_absent))

unfoldable pub prepare_pack_publication_marker :
    (List ℕ → Presence) → StoredJob → RpcResult (Option PackPublicationMarker)
prepare_pack_publication_marker metadata job =
    prepare_marker_at metadata job (pack_output job.operation)

-- `==` of archive identities
unfoldable pub same_archive : ArchiveIdentity → ArchiveIdentity → Bool
same_archive a b = a.length == b.length && same_bytes a.blake3 b.blake3

-- Whether a marker states that the job has published an archive of its own.
unfoldable pub is_recorded : Option PackPublicationMarker → Bool
is_recorded none = false
is_recorded (some marker) = marker.output_was_absent && is_some marker.published_archive
  where
    is_some : Option ArchiveIdentity → Bool
    is_some none = false
    is_some (some a) = true

unfoldable pub require_recorded_pack_publication : StoredJob → RpcResult (Unit {0})
require_recorded_pack_publication job = require (pack_output job.operation)
  where
    require : Option (List ℕ) → RpcResult (Unit {0})
    require none = ok tt
    require (some output) =
        bail_if (not (is_recorded job.pack_publication))
          (internal "pack publication identity is not recorded")

-- `pithos_engine::verify` is the parameter: the length and the hash of a good archive.
unfoldable pub verified_archive_identity :
    (List ℕ → Option ArchiveIdentity) → List ℕ → RpcResult ArchiveIdentity
verified_archive_identity verify path =
    ok_or (verify path) (internal "pack output verification failed")

-- `identity.ok()?`, and the comparison with the identity of the marker.
unfoldable pub recover_as :
    List ℕ → ArchiveIdentity → RpcResult ArchiveIdentity → Option (List ℕ × ArchiveIdentity)
recover_as output expected (err error) = none
recover_as output expected (ok identity) =
    if not (same_archive identity expected) then none else some (output, identity)

unfoldable pub recover_with :
    (List ℕ → Bool)
    → (List ℕ → Option ArchiveIdentity)
    → List ℕ
    → PackPublicationMarker
    → Option ArchiveIdentity
    → Option (List ℕ × ArchiveIdentity)
recover_with is_file verify output marker none = none
recover_with is_file verify output marker (some expected) =
    if not marker.output_was_absent || not (is_file output)
    then none
    else recover_as output expected (verified_archive_identity verify output)

unfoldable pub recover_marked :
    (List ℕ → Bool)
    → (List ℕ → Option ArchiveIdentity)
    → Option (List ℕ)
    → Option PackPublicationMarker
    → Option (List ℕ × ArchiveIdentity)
recover_marked is_file verify none marker = none
recover_marked is_file verify (some output) none = none
recover_marked is_file verify (some output) (some marker) =
    recover_with is_file verify output marker marker.published_archive

unfoldable pub recover_pack_archive :
    (List ℕ → Bool)
    → (List ℕ → Option ArchiveIdentity)
    → StoredJob
    → Option (List ℕ × ArchiveIdentity)
recover_pack_archive is_file verify job =
    recover_marked is_file verify (pack_output job.operation) job.pack_publication
