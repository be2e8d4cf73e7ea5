-- ===== src/Daemon/Registry/Operations/Publication.antt =====
-- The record of a publication, as a move.
use pithos.Prelude.{
  ℕ, ◌≡◌, refl, sym, ap, subst, ◌⊎◌, inl, inr, Bool, true, false, not, Option, none, some, List,
  arith, if◌then◌else◌,
}
use pithos.AgentApi.{
  JsonRpcError, ok, err, ◌>>◌, bail_if, bind-inv, bail_unless-ok, ok-injective, ok_or, ok_or-some,
}
use pithos.AgentApi.Jobs.{ApiJobState, queued, running, cancelling, completed, failed, cancelled}
use pithos.Daemon.Registry.{StoredJob, PackPublicationMarker, ArchiveIdentity, internal}
use pithos.Daemon.Registry.Markers.{same_archive, pack_output}
use pithos.Daemon.Registry.Validation.{validate_marker_at}
use pithos.Daemon.Registry.Storage.{World}
use pithos.Daemon.Registry.Operations.{
  conflict, can_publish, publish_in, publication_job, own_marker, packs_to,
}
use pithos.Daemon.Registry.Operations.Moves.{
  Moves, running_publishes, stopping_publishes, Update, Keeps, by_event_if,
}

publishes : (s : ApiJobState) → can_publish s ≡ true → Moves s s
publishes running h = running_publishes
publishes cancelling h = stopping_publishes
publishes queued h = cc
publishes completed h = cc
publishes failed h = cc
publishes cancelled h = cc

kept_if :
    (test : Bool) (a : PackPublicationMarker) {b : PackPublicationMarker}
    → (if test then some a else none) ≡ some b
    → (a ≡ b) × (test ≡ true)
kept_if true a q = (some_inj q, refl)
  where
    some_inj : {a b : PackPublicationMarker} → some a ≡ some b → a ≡ b
    some_inj q = cc
kept_if false a q = cc

own :
    (marker : Option PackPublicationMarker) {m : PackPublicationMarker}
    → own_marker marker ≡ some m
    → (marker ≡ some m) × (m.output_was_absent ≡ true)
own none q = cc
own (some marker) q =
    let (e, absent) = kept_if marker.output_was_absent marker q in
    (ap some e, subst (λ x. x.output_was_absent ≡ true) e absent)

-- An own marker suits the job with the identity of the archive as well.
named-fits :
    (job : StoredJob) (marker : PackPublicationMarker) (identity : ArchiveIdentity)
    (output : Option (List ℕ))
    → marker.output_was_absent ≡ true
    → validate_marker_at job (some marker) output ≡ ok tt
    → validate_marker_at job (some (record marker { published_archive = some identity })) output
      ≡ ok tt
unfolding validate_marker_at
named-fits job marker identity none absent v = cc
named-fits job marker identity (some output) absent v = ground arith

publish_in-update :
    (world : World) (identity : ArchiveIdentity) (maximum : ℕ) (job : StoredJob)
    (marker : PackPublicationMarker) (published : Option ArchiveIdentity) {next : StoredJob}
    → can_publish job.state ≡ true
    → job.pack_publication ≡ some marker
    → marker.output_was_absent ≡ true
    → publish_in world identity maximum job marker published ≡ ok next
    → (next ≡ job) ⊎ ((u : Update maximum job next) × Keeps u)
unfolding publish_in
publish_in-update world identity maximum job marker (some expected) live mine absent q =
    inl (same (same_archive expected identity) _ q)
  where
    same :
        {job next : StoredJob} (test : Bool) (e : JsonRpcError)
        → (if test then ok job else err e) ≡ ok next
        → next ≡ job
    same true e q = sym (ok-injective q)
    same false e q = cc
publish_in-update world identity maximum job marker none live mine absent q =
    let (u, keeps) =
      by_event_if {P = Unit {0}} job job.state job.result job.error
        (some (record marker { published_archive = some identity })) (world.stamp job.job_id)
        "pack_published" maximum (publishes job.state live)
        (λ go v. (
          v.0,
          named-fits job marker identity (pack_output job.operation) absent
              (subst (λ m. validate_marker_at job m (pack_output job.operation) ≡ ok tt) mine v.1),
        ))
        q in
    inr (u, keeps tt)

pub publication_job-update :
    (world : World) (output : List ℕ) (identity : ArchiveIdentity) (maximum : ℕ) (job : StoredJob)
    {next : StoredJob}
    → publication_job world output identity maximum job ≡ ok next
    → (next ≡ job) ⊎ ((u : Update maximum job next) × Keeps u)
unfolding publication_job
publication_job-update world output identity maximum job q =
    let (tt, checks, q1) =
      bind-inv
        (bail_if (not (can_publish job.state))
            (conflict "pack publication cannot be recorded from current state")
          >> bail_if (not (packs_to (pack_output job.operation) output))
              (conflict "pack operation changed while publication was verified"))
        _ q in
    let (tt, live, packs) =
      bind-inv
        (bail_if (not (can_publish job.state))
          (conflict "pack publication cannot be recorded from current state"))
        _ checks in
    let (marker, h, q2) =
      bind-inv
        (ok_or (own_marker job.pack_publication) (internal "pack publication marker is missing")) _
        q1 in
    let (mine, absent) = own job.pack_publication (ok_or-some _ _ h) in
    publish_in-update world identity maximum job marker marker.published_archive
      (bail_unless-ok _ _ live) mine absent q2
