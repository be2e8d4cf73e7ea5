-- ===== src/Examples/Restarts.antt =====
-- The shutdown and the recovery of the job registry, at concrete inputs.
use pithos.Prelude.{◌≡◌, refl, [], ◌∷◌, arith}
use pithos.Format.Same.{same_bytes}
use pithos.AgentApi.{RpcResult, ok, err}
use pithos.AgentApi.Ids.{starts_with, all_bytes}
use pithos.AgentApi.Jobs.{is_terminal}
use pithos.Daemon.Registry.{operation_method, validate_policy}
use pithos.Daemon.Registry.Maps.{get_key}
use pithos.Daemon.Registry.Identifiers.{
  validate_idempotency_key, valid_identifier, parse_job_number, strip_prefix, hex_suffix,
  from_str_radix, from_digits, idempotency_map_key,
}
use pithos.Daemon.Registry.Events.{
  trim_event_history, units_of, event_of, append_event, trim_jobs, trim_retained_events,
}
use pithos.Daemon.Registry.Markers.{pack_output, recover_marked, recover_pack_archive}
use pithos.Daemon.Registry.Validation.{
  validate_state, validate_jobs, validate_job, validate_index, same_method, validate_job_events,
  events_loop, last, same_state, validate_job_result, has_valid_result,
  validate_pack_publication_marker, validate_marker_at,
}
use pithos.Daemon.Registry.Storage.{
  World, JobRegistry, load_state_with_policy, encode_state, publish_state, sync_parent,
  publish_valid, after_sync, after_publish, commit_with_sync, commit, persist_state_with_policy,
}
use pithos.Daemon.Registry.Lifetime.{
  shut_down_job, add_shut_down, shut_down_jobs, apply_shutdown, close_and_cancel_all,
  recover_interrupted, recover_job, recover_jobs, persist_changed, open_recovered, open_trimmed,
  open_with_policy,
}
use pithos.Daemon.Registry.Lifetime.Closed.{IsClosed, close_and_cancel_all-IsClosed}
use pithos.Daemon.Registry.Lifetime.Recovered.{IsRecovered, open_with_policy-IsRecovered}
use pithos.Examples.Jobs.{
  sample_policy, owner_id, first_id, sample_world, running_job, state_of, running_registry,
  samples-IsStore,
}

abbrev the_world : World
the_world = sample_world (state_of running_job)

closed : (close_and_cancel_all the_world running_registry).0 ≡ ok ((owner_id, first_id) ∷ [])
unfolding close_and_cancel_all apply_shutdown shut_down_jobs add_shut_down shut_down_job is_terminal
    append_event trim_event_history event_of units_of commit trim_retained_events trim_jobs
    commit_with_sync after_publish publish_valid after_sync sync_parent encode_state publish_state
    validate_state validate_jobs validate_job validate_index validate_idempotency_key
    valid_identifier starts_with all_bytes parse_job_number strip_prefix hex_suffix from_str_radix
    from_digits idempotency_map_key get_key same_bytes same_method operation_method
    validate_job_events events_loop last same_state validate_job_result has_valid_result
    validate_pack_publication_marker validate_marker_at pack_output
closed = refl

close_and_cancel_all-IsClosed_example :
    IsClosed running_registry
      ((owner_id, first_id) ∷ [])
      (close_and_cancel_all the_world running_registry).1
close_and_cancel_all-IsClosed_example =
    close_and_cancel_all-IsClosed the_world running_registry (omega arith) samples-IsStore.0 closed

-- The registry of a result that is one.
abbrev registry_in : RpcResult JobRegistry → JobRegistry
registry_in (ok registry) = registry
registry_in (err error) = running_registry

opened :
    open_with_policy the_world sample_policy
    ≡ ok (registry_in (open_with_policy the_world sample_policy))
unfolding open_with_policy open_trimmed open_recovered validate_policy load_state_with_policy
    recover_jobs recover_job recover_interrupted recover_pack_archive recover_marked persist_changed
    persist_state_with_policy is_terminal append_event trim_event_history event_of units_of
    trim_retained_events trim_jobs publish_valid sync_parent encode_state publish_state
    validate_state validate_jobs validate_job validate_index validate_idempotency_key
    valid_identifier starts_with all_bytes parse_job_number strip_prefix hex_suffix from_str_radix
    from_digits idempotency_map_key get_key same_bytes same_method operation_method
    validate_job_events events_loop last same_state validate_job_result has_valid_result
    validate_pack_publication_marker validate_marker_at pack_output
opened = refl

open_with_policy-IsRecovered_example :
    IsRecovered sample_policy (registry_in (open_with_policy the_world sample_policy))
open_with_policy-IsRecovered_example = open_with_policy-IsRecovered the_world sample_policy opened
