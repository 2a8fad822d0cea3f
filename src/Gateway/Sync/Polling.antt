-- ===== src/Gateway/Sync/Polling.antt =====
-- novo_chat/gateway/sync.py: `_wait_for_job`. The number of status requests before the timeout of
-- `prepare_documents_for_rebuild` is a parameter; running out of them is that timeout.
pub mod Done
use novo_chat.Base.{ℕ, zero, suc, String, Bool, not, ◌||◌, ◌==◌, ◌!=◌, string_eq, if◌then◌else◌}
use novo_chat.Base.Result.{Result}
use novo_chat.Base.Action.{Action, ◌>>=◌, return, throw}
use novo_chat.Gateway.Sync.{SyncError, worker_rejected, job_failed, synchronization_timeout}

-- The texts of an unwrapped job; `state` is in lower case.
pub record Job : Type 0 where
  pub job_id : String
  pub operation : String
  pub state : String

abbrev pub is_success : String → Bool
is_success state = state == "succeeded" || state == "success" || state == "completed"

abbrev pub is_failure : String → Bool
is_failure state = state == "failed" || state == "canceled" || state == "cancelled"

abbrev pub is_pending : String → Bool
is_pending state = state == "queued" || state == "running"

module _ {World : Type 0} (job_status : String → World → Result SyncError Job × World) where
  abbrev pub by_state : Job → Action World SyncError Job → Action World SyncError Job
  by_state job rest =
      if is_success job.state
      then return job
      else if is_failure job.state
      then throw job_failed
      else if not (is_pending job.state)
      then throw worker_rejected
      else rest

  unfoldable pub poll : ℕ → String → String → Job → Action World SyncError Job
  poll zero job_id expected job = by_state job (throw synchronization_timeout)
  poll (suc polls) job_id expected job = by_state job (do
    next ← job_status job_id
    if next.job_id != job_id || next.operation != expected
        then throw worker_rejected
        else poll polls job_id expected next)

  unfoldable pub wait_for_job : ℕ → Job → String → Action World SyncError Job
  unfolding poll
  wait_for_job polls submitted expected =
      if submitted.job_id == "" || submitted.operation != expected
      then throw worker_rejected
      else poll polls submitted.job_id expected submitted
