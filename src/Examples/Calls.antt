-- ===== src/Examples/Calls.antt =====
-- The theorems on the job registry, at concrete inputs.
use pithos.Prelude.{◌≡◌, ◌↔◌, refl, true, false, some, List, [], ◌∷◌, arith}
use pithos.Format.Same.{same_bytes}
use pithos.AgentApi.{null, ok}
use pithos.AgentApi.Ids.{starts_with, all_bytes, job_prefix, new_id}
use pithos.AgentApi.Jobs.{running, failed, is_terminal, ProgressEvent}
use pithos.Daemon.Registry.{StoredJob, default_state, operation_method}
use pithos.Daemon.Registry.Maps.{get_key}
use pithos.Daemon.Registry.Identifiers.{
  format_job_id, parse_job_number, validate_idempotency_key, valid_identifier,
}
use pithos.Daemon.Registry.Identifiers.Numbers.{parse_job_number-format_job_id}
use pithos.Daemon.Registry.Markers.{
  pack_output, same_archive, verified_archive_identity, recover_as, recover_with, recover_marked,
  recover_pack_archive, require_recorded_pack_publication,
}
use pithos.Daemon.Registry.Markers.Own.{IsOwnArchive, recover_pack_archive-IsOwnArchive}
use pithos.Daemon.Registry.Validation.{validate_state, validate_jobs, validate_index, last}
use pithos.Daemon.Registry.Validation.States.{IsStore, validate_state-IsStore, validate_state_iff}
use pithos.Daemon.Registry.Storage.{World, JobRegistry, commit}
use pithos.Daemon.Registry.Storage.Commit.{Works, trimmed, Committed, commit-Committed}
use pithos.Daemon.Registry.Operations.{can_complete, valid_transition}
use pithos.Daemon.Registry.Calls.{owned_by, owned_job, with_job, complete, transition}
use pithos.Daemon.Registry.Calls.Unsettled.{Refuses, transition-Refuses}
use pithos.Daemon.Registry.Calls.Completed.{completed_job, complete-completed_job}
use pithos.Daemon.Registry.Queries.{events}
use pithos.Daemon.Registry.Queries.Later.{IsRest, events-IsRest}
use pithos.Daemon.Registry.Submission.{nonterminal_of, submit_with_limit}
use pithos.Daemon.Registry.Submission.Admitted.{IsSubmission, admitted}
use pithos.Daemon.Registry.Submission.Replayed.{
  IsOpen, accepted, after_submission, submit_with_limit-submit_with_limit,
}
use pithos.Daemon.Registry.Runs.{call, completes, closes, cancels, Run, here, after}
use pithos.Daemon.Registry.Runs.Lives.{Lives, Run-IsStore, Run-Lives, Run-final}
use pithos.Examples.Jobs.{
  event, sample_policy, owner_id, first_id, sample_identity, sample_world, sample_submission,
  running_job, completed_one, state_of, registry_of, running_registry, samples-IsStore, pack_job,
}

abbrev the_world : World
the_world = sample_world (state_of running_job)

validate_state_iff_example :
    (validate_state (state_of running_job) sample_policy true ≡ ok tt)
    ↔ IsStore sample_policy true (state_of running_job)
validate_state_iff_example = validate_state_iff (state_of running_job) sample_policy true

parse_job_number-format_job_id_example :
    (new_id job_prefix (format_job_id 27) ≡ ok (format_job_id 27))
    × (parse_job_number (format_job_id 27) ≡ ok 27)
parse_job_number-format_job_id_example = parse_job_number-format_job_id 27 (omega arith)

recovered :
    recover_pack_archive the_world.is_file the_world.verify pack_job
    ≡ some (98 ∷ [], sample_identity)
unfolding recover_pack_archive recover_marked recover_with recover_as pack_output
    verified_archive_identity same_archive same_bytes
recovered = refl

recover_pack_archive-IsOwnArchive_example :
    IsOwnArchive the_world.is_file the_world.verify pack_job (98 ∷ []) sample_identity
recover_pack_archive-IsOwnArchive_example =
    recover_pack_archive-IsOwnArchive the_world.is_file the_world.verify pack_job recovered

commit-Committed_example :
    Committed the_world
      (trimmed running_registry (state_of completed_one))
      running_registry
      (commit the_world running_registry (state_of completed_one)).0
      (commit the_world running_registry (state_of completed_one)).1
commit-Committed_example = commit-Committed the_world running_registry (state_of completed_one)

works : Works the_world sample_policy (
    with_job
      (state_of running_job)
      first_id
      (completed_job the_world sample_policy null running_job))
works = record {
  bytes = 7 ∷ 8 ∷ [];
  encoded = refl;
  short = omega arith;
  created = refl;
  temporary = refl;
  written = refl;
  flushed = refl;
  renamed = refl;
  synced = refl;
}

owned : owned_job (state_of running_job) owner_id first_id ≡ ok running_job
unfolding owned_job owned_by get_key same_bytes
owned = refl

complete-completed_job_example : complete the_world running_registry owner_id first_id null ≡ (
  ok tt,
  record running_registry {
    state =
        with_job
          (state_of running_job)
          first_id
          (completed_job the_world sample_policy null running_job);
    file = some works.bytes;
  },
)
complete-completed_job_example =
    complete-completed_job the_world running_registry owner_id first_id null running_job refl
      (omega arith) samples-IsStore.0 owned (unfold can_complete in refl)
      (unfold require_recorded_pack_publication pack_output in refl) (omega arith) works

transition-Refuses_example :
    Refuses running_registry
      (transition the_world running_registry owner_id first_id failed "failed")
transition-Refuses_example =
    transition-Refuses the_world running_registry owner_id first_id failed "failed" running_job refl
      (omega arith) samples-IsStore.0 owned (unfold valid_transition in refl) refl (omega arith)

abbrev new_registry : JobRegistry
new_registry = registry_of default_state

empty-IsStore : IsStore sample_policy true default_state
empty-IsStore =
    validate_state-IsStore default_state sample_policy true
      (unfold validate_state validate_jobs validate_index in refl)

sample-IsSubmission : IsSubmission sample_submission
unfolding valid_identifier starts_with all_bytes operation_method validate_idempotency_key
sample-IsSubmission = record {
  owner = refl;
  method = refl;
  threads = omega arith;
  memory = omega arith;
  output = omega arith;
  key = refl;
}

new-IsOpen : IsOpen new_registry owner_id 2
unfolding nonterminal_of
new-IsOpen = record {
  not_closed = refl;
  is_healthy = refl;
  some_kept = omega arith;
  retained = omega arith;
  quota = omega arith;
  room = omega arith;
}

admitted_works : Works the_world sample_policy (admitted the_world new_registry sample_submission)
admitted_works = record {
  bytes = 7 ∷ 8 ∷ [];
  encoded = refl;
  short = omega arith;
  created = refl;
  temporary = refl;
  written = refl;
  flushed = refl;
  renamed = refl;
  synced = refl;
}

submit_with_limit-submit_with_limit_example :
    (submit_with_limit the_world new_registry sample_submission 2 ≡ (
      ok (accepted new_registry false),
      after_submission the_world new_registry sample_submission admitted_works.bytes,
    ))
    × (submit_with_limit the_world
          (after_submission the_world new_registry sample_submission admitted_works.bytes)
          sample_submission
          1
        ≡ (
          ok (accepted new_registry true),
          after_submission the_world new_registry sample_submission admitted_works.bytes,
        ))
submit_with_limit-submit_with_limit_example =
    submit_with_limit-submit_with_limit the_world the_world new_registry sample_submission 2 1
      new-IsOpen sample-IsSubmission empty-IsStore (unfold get_key in refl) admitted_works

events-IsRest_example :
    (answer : List ProgressEvent) × (events running_registry owner_id first_id 1 ≡ ok answer)
    × IsRest 1 running_job.events answer
events-IsRest_example =
    events-IsRest running_registry owner_id first_id 1 running_job owned (record {
      rising = (refl, omega arith, (refl, omega arith, tt));
      ends = (event 2 running, unfold last in refl, refl, refl);
      room = omega arith;
    })

-- A run that completes the job and closes the registry.
abbrev completed_registry : JobRegistry
completed_registry = call the_world running_registry (completes owner_id first_id null)

sample-Run : Run running_registry (call the_world completed_registry closes)
sample-Run = after (after here the_world (completes owner_id first_id null)) the_world closes

found : get_key (state_of running_job).jobs first_id ≡ some running_job
unfolding get_key same_bytes
found = refl

Run-IsStore_example :
    ((call the_world completed_registry closes).policy ≡ sample_policy)
    × IsStore
        (call the_world completed_registry closes).policy
        true
        (call the_world completed_registry closes).state
Run-IsStore_example = Run-IsStore (omega arith) samples-IsStore.0 sample-Run

Run-Lives_example :
    (next : StoredJob) × (get_key (call the_world completed_registry closes).state.jobs first_id
      ≡ some next)
    × Lives 2 running_job next
Run-Lives_example = Run-Lives first_id running_job (omega arith) samples-IsStore.0 found sample-Run

abbrev final_registry : JobRegistry
final_registry = registry_of (state_of completed_one)

final-Run : Run final_registry (call the_world final_registry (cancels owner_id first_id))
final-Run = after here the_world (cancels owner_id first_id)

found_final : get_key (state_of completed_one).jobs first_id ≡ some completed_one
unfolding get_key same_bytes
found_final = refl

Run-final_example :
    get_key (call the_world final_registry (cancels owner_id first_id)).state.jobs first_id
    ≡ some completed_one
Run-final_example =
    Run-final first_id completed_one (omega arith) samples-IsStore.1 found_final
      (unfold is_terminal in refl) final-Run
