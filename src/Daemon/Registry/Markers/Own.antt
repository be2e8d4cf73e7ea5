-- ===== src/Daemon/Registry/Markers/Own.antt =====
-- The checks in the recovery of an archive.
use pithos.Prelude.{
  ℕ, ◌≡◌, refl, sym, ap, ◌∙◌, Bool, true, false, not, ◌||◌, Option, none, some, List, arith,
  if_either,
}
use pithos.Format.Same.{same_bytes, same_bytes→eq}
use pithos.AgentApi.{RpcResult, ok, err, ok_or-some}
use pithos.Daemon.Registry.{StoredJob, PackPublicationMarker, ArchiveIdentity}
use pithos.Daemon.Registry.Markers.{
  pack_output, same_archive, verified_archive_identity, recover_as, recover_with, recover_marked,
  recover_pack_archive,
}

-- The archive is the output of the pack job, which was not there when the job began, and is now a file that verifies to the
-- identity that the marker has recorded.
pub record IsOwnArchive (is_file : List ℕ → Bool) (verify : List ℕ → Option ArchiveIdentity)
    (job : StoredJob) (archive : List ℕ) (identity : ArchiveIdentity) : Type 0 where
  pub marker : PackPublicationMarker
  pub output : pack_output job.operation ≡ some archive
  pub marked : job.pack_publication ≡ some marker
  pub was_absent : marker.output_was_absent ≡ true
  pub recorded : marker.published_archive ≡ some identity
  pub there : is_file archive ≡ true
  pub verified : verify archive ≡ some identity

same_archive→eq : (a b : ArchiveIdentity) → same_archive a b ≡ true → a ≡ b
unfolding same_archive
same_archive→eq a b h =
    let lengths : a.length ≡ b.length = ground arith in
    let hashes : same_bytes a.blake3 b.blake3 ≡ true = ground arith in
    let bytes = same_bytes→eq a.blake3 b.blake3 hashes in cc

recover_as-some :
    (output : List ℕ) (expected : ArchiveIdentity) (found : RpcResult ArchiveIdentity)
    {archive : List ℕ} {identity : ArchiveIdentity}
    → recover_as output expected found ≡ some (archive, identity)
    → (output ≡ archive) × (expected ≡ identity) × (found ≡ ok identity)
unfolding recover_as
recover_as-some output expected (err e) q = cc
recover_as-some output expected (ok got) {archive} {identity} q =
    if_either
      (λ (r : Option (List ℕ × ArchiveIdentity)).
        r ≡ some (archive, identity)
        → (output ≡ archive)
          × (expected ≡ identity)
          × (◌≡◌ {A = RpcResult ArchiveIdentity} (ok got) (ok identity)))
      (not (same_archive got expected)) none (some (output, got)) (λ t h. cc)
      (λ t h.
        let same = same_archive→eq got expected (not_not (same_archive got expected) t) in
        let (o, g) = both h in (o, sym same ∙ g, ap ok g))
      q
  where
    not_not : (b : Bool) → not b ≡ false → b ≡ true
    not_not true h = refl
    not_not false h = cc

    both :
        {a b : List ℕ} {i j : ArchiveIdentity}
        → ◌≡◌ {A = Option (List ℕ × ArchiveIdentity)} (some (a, i)) (some (b, j))
        → (a ≡ b) × (i ≡ j)
    both q = (cc, cc)

module _ (is_file : List ℕ → Bool) (verify : List ℕ → Option ArchiveIdentity) where
  recover_with-own :
      (job : StoredJob) (output : List ℕ) (marker : PackPublicationMarker)
      (published : Option ArchiveIdentity) {archive : List ℕ} {identity : ArchiveIdentity}
      → pack_output job.operation ≡ some output
      → job.pack_publication ≡ some marker
      → marker.published_archive ≡ published
      → recover_with is_file verify output marker published ≡ some (archive, identity)
      → IsOwnArchive is_file verify job archive identity
  unfolding recover_with verified_archive_identity
  recover_with-own job output marker none packs marked recorded q = cc
  recover_with-own job output marker (some expected) {archive} {identity} packs marked recorded q =
      if_either
        (λ (r : Option (List ℕ × ArchiveIdentity)).
          r ≡ some (archive, identity) → IsOwnArchive is_file verify job archive identity)
        (not marker.output_was_absent || not (is_file output)) none
        (recover_as output expected (verified_archive_identity verify output)) (λ t h. cc)
        (λ t h.
          let (o, e, v) = recover_as-some output expected _ h in
          let (absent, file) = neither marker.output_was_absent (is_file output) t in
          record {
            marker = marker;
            output = packs ∙ ap some o;
            marked = marked;
            was_absent = absent;
            recorded = recorded ∙ ap some e;
            there = ap is_file (sym o) ∙ file;
            verified = ap verify (sym o) ∙ ok_or-some _ _ v;
          })
        q
    where
      neither : (a b : Bool) → (not a || not b) ≡ false → (a ≡ true) × (b ≡ true)
      neither true true h = (refl, refl)
      neither true false h = cc
      neither false b h = cc

  recover_marked-own :
      (job : StoredJob) (output : Option (List ℕ)) (marker : Option PackPublicationMarker)
      {archive : List ℕ} {identity : ArchiveIdentity}
      → pack_output job.operation ≡ output
      → job.pack_publication ≡ marker
      → recover_marked is_file verify output marker ≡ some (archive, identity)
      → IsOwnArchive is_file verify job archive identity
  unfolding recover_marked
  recover_marked-own job none marker packs marked q = cc
  recover_marked-own job (some output) none packs marked q = cc
  recover_marked-own job (some output) (some marker) packs marked q =
      recover_with-own job output marker marker.published_archive packs marked refl q

-- An archive that the recovery takes for that of a job is the output of the pack job; that was
-- absent when the job began, and is now a file that verifies to the identity that the marker of the
-- job has recorded.
pub recover_pack_archive-IsOwnArchive :
    (is_file : List ℕ → Bool) (verify : List ℕ → Option ArchiveIdentity) (job : StoredJob)
    {archive : List ℕ} {identity : ArchiveIdentity}
    → recover_pack_archive is_file verify job ≡ some (archive, identity)
    → IsOwnArchive is_file verify job archive identity
unfolding recover_pack_archive
recover_pack_archive-IsOwnArchive is_file verify job q =
    recover_marked-own is_file verify job (pack_output job.operation) job.pack_publication refl refl
      q
