-- ===== src/Daemon/Registry/Runs.antt =====
-- Runs of the registry: any calls in any order, each in a world of its own.
pub mod Lives
use pithos.Prelude.{ℕ, String, List}
use pithos.AgentApi.{Value, JsonRpcError}
use pithos.AgentApi.Jobs.{ApiJobState}
use pithos.Daemon.Registry.{JobSubmission}
use pithos.Daemon.Registry.Storage.{World, JobRegistry}
use pithos.Daemon.Registry.Calls.{
  transition, request_cancel, finish_cancelled, complete, fail, record_pack_publication,
}
use pithos.Daemon.Registry.Submission.{submit_with_limit}
use pithos.Daemon.Registry.Lifetime.{expire_deadline, close_and_cancel_all}

-- The calls that change the registry. A publication looks at the registry twice, first at `earlier`.
pub data Call : Type 0 where
  submits : (submission : JobSubmission) (most : ℕ) → Call
  transits : (owner job_id : List ℕ) (state : ApiJobState) (phase : String) → Call
  cancels : (owner job_id : List ℕ) → Call
  finishes : (owner job_id : List ℕ) → Call
  completes : (owner job_id : List ℕ) (result : Value) → Call
  fails : (owner job_id : List ℕ) (error : JsonRpcError) → Call
  publishes : (earlier : JobRegistry) (owner job_id : List ℕ) → Call
  expires : (owner job_id : List ℕ) → Call
  closes : Call

unfoldable pub call : World → JobRegistry → Call → JobRegistry
call world registry (submits submission most) = (submit_with_limit world registry submission most).1
call world registry (transits owner job_id state phase) =
    (transition world registry owner job_id state phase).1
call world registry (cancels owner job_id) = (request_cancel world registry owner job_id).1
call world registry (finishes owner job_id) = (finish_cancelled world registry owner job_id).1
call world registry (completes owner job_id result) =
    (complete world registry owner job_id result).1
call world registry (fails owner job_id error) = (fail world registry owner job_id error).1
call world registry (publishes earlier owner job_id) =
    (record_pack_publication world earlier registry owner job_id).1
call world registry (expires owner job_id) = (expire_deadline world registry owner job_id).1
call world registry closes = (close_and_cancel_all world registry).1

-- The registries that calls lead to.
pub data Run (start : JobRegistry) : JobRegistry → Type 0 where
  here : Run start start
  after :
      {registry : JobRegistry}
      → Run start registry
      → (world : World) (c : Call) → Run start (call world registry c)
