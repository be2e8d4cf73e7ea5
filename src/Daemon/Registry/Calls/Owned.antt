-- ===== src/Daemon/Registry/Calls/Owned.antt =====
-- The calls on one job, by the closure that they apply.
use pithos.Prelude.{
  ℕ, ◌<◌, ◌≡◌, refl, ap, ◌∙◌, Bool, true, false, not, Option, none, some, List, if◌then◌else◌,
}
use pithos.Format.Same.{same_bytes}
use pithos.AgentApi.{JsonRpcError, RpcResult, ok, err, ok_or-some, bind-inv}
use pithos.Daemon.Registry.{StoredJob, PersistentState}
use pithos.Daemon.Registry.Maps.{get_key}
use pithos.Daemon.Registry.Validation.States.{IsStore}
use pithos.Daemon.Registry.Storage.{World, JobRegistry}
use pithos.Daemon.Registry.Calls.{
  owned_by, owned_job, apply_update, update_found, update_owned, quietly,
}
use pithos.Daemon.Registry.Calls.Stepped.{
  JobStep, IsStepped, same-IsStepped, commit-with_job-IsStepped,
}

owned_by-some :
    (owner : List ℕ) (found : Option StoredJob) {job : StoredJob}
    → owned_by owner found ≡ some job
    → found ≡ some job
unfolding owned_by
owned_by-some owner none q = cc
owned_by-some owner (some j) q = kept (same_bytes j.owner owner) j q
  where
    kept :
        (test : Bool) (j : StoredJob) {job : StoredJob}
        → (if test then some j else none) ≡ some job
        → some j ≡ some job
    kept true j q = q
    kept false j q = cc

pub owned_job-get_key :
    (state : PersistentState) (owner job_id : List ℕ) {job : StoredJob}
    → owned_job state owner job_id ≡ ok job
    → get_key state.jobs job_id ≡ some job
unfolding owned_job
owned_job-get_key state owner job_id q =
    owned_by-some owner (get_key state.jobs job_id) (ok_or-some _ _ q)

pub healthy {ℓ} :
    {R : Type ℓ} {before : JobRegistry} (is_healthy : Bool) (error : JsonRpcError)
    (call : RpcResult R × JobRegistry)
    → IsStepped before call.1
    → IsStepped before (if not is_healthy then (err error, before) else call).1
healthy true error call h = h
healthy {before = before} false error call h = same-IsStepped before before refl refl

module _ {ℓ} {R : Type ℓ} (world : World) (registry : JobRegistry) (job_id : List ℕ)
    (some_kept : 0 < registry.policy.max_events_per_job)
    (s : IsStore registry.policy true registry.state) where
  apply_update-IsStepped :
      (job : StoredJob) (updated : RpcResult (StoredJob × R))
      → get_key registry.state.jobs job_id ≡ some job
      → ((next : StoredJob) (answer : R)
          → updated ≡ ok (next, answer)
          → JobStep registry.policy.max_events_per_job job next)
      → IsStepped registry (apply_update world registry job_id updated).1
  unfolding apply_update
  apply_update-IsStepped job (err error) there steps = same-IsStepped registry registry refl refl
  apply_update-IsStepped job (ok (next, answer)) there steps =
      commit-with_job-IsStepped world registry job_id job next some_kept s there
        (steps next answer refl)

  update_found-IsStepped :
      (update : StoredJob → RpcResult (StoredJob × R)) (found : RpcResult StoredJob)
      → ((job : StoredJob) → found ≡ ok job → get_key registry.state.jobs job_id ≡ some job)
      → ((job next : StoredJob) (answer : R)
          → update job ≡ ok (next, answer)
          → JobStep registry.policy.max_events_per_job job next)
      → IsStepped registry (update_found world registry job_id update found).1
  unfolding update_found
  update_found-IsStepped update (err error) there steps = same-IsStepped registry registry refl refl
  update_found-IsStepped update (ok job) there steps =
      apply_update-IsStepped job (update job) (there job refl) (steps job)

  pub update_owned-IsStepped :
      (owner : List ℕ) (update : StoredJob → RpcResult (StoredJob × R))
      → ((job next : StoredJob) (answer : R)
          → update job ≡ ok (next, answer)
          → JobStep registry.policy.max_events_per_job job next)
      → IsStepped registry (update_owned world registry owner job_id update).1
  unfolding update_owned
  update_owned-IsStepped owner update steps = healthy registry.healthy _ _ (
      update_found-IsStepped update (owned_job registry.state owner job_id)
        (λ job q. owned_job-get_key registry.state owner job_id q) steps)

-- A closure without an answer.
pub quietly-JobStep :
    (maximum : ℕ) (update : StoredJob → RpcResult StoredJob)
    → ((job next : StoredJob) → update job ≡ ok next → JobStep maximum job next)
    → (job next : StoredJob) (answer : Unit {0}) → quietly update job ≡ ok (next, answer)
    → JobStep maximum job next
unfolding quietly
quietly-JobStep maximum update steps job next answer q =
    let (j, h, k) = bind-inv (update job) _ q in steps job next (h ∙ ap ok (first k))
  where
    first :
        {a b : StoredJob} {u v : Unit {0}}
        → ◌≡◌ {A = RpcResult (StoredJob × Unit {0})} (ok (a, u)) (ok (b, v))
        → a ≡ b
    first q = cc
