-- ===== src/Executor/Loop.antt =====
-- novo_chat/executor.py: `run_once` and `run_until_idle`.
use novo_chat.Base.{
  ℕ, zero, suc, String, Bool, true, false, Option, none, some, List, if◌then◌else◌,
}
use novo_chat.Base.Result.{Result, ok, err}
use novo_chat.Base.Action.{◌>>=◌, ◌>>◌, return}
use novo_chat.Jobs.{Library, JobStoreError, Store}
use novo_chat.Jobs.Claim.{StoredOperation, claim_next_operation}
use novo_chat.Jobs.Transition.{succeed, fail}
use novo_chat.Documents.{Pages}
use novo_chat.Executor.{Services, Raised, service, controller, invalid_payload, unexpected}
use novo_chat.Executor.Tasks.{Frame, Task, raised_by, on_jobs, read_clock, try_except}
use novo_chat.Executor.Handlers.{execute}

-- The arguments of `fail` in the three `except` clauses.
abbrev pub error_code : Raised → String
error_code (service code message retryable) = code
error_code (controller code message retryable) = code
error_code invalid_payload = "INVALID_OPERATION_PAYLOAD"
error_code unexpected = "OPERATION_FAILED"

abbrev pub error_message : Raised → String
error_message (service code message retryable) = message
error_message (controller code message retryable) = message
error_message invalid_payload = "Stored operation payload is invalid."
error_message unexpected = "Worker operation failed."

abbrev pub is_retryable : Raised → Bool
is_retryable (service code message retryable) = retryable
is_retryable (controller code message retryable) = retryable
is_retryable invalid_payload = false
is_retryable unexpected = true

module _ (lib : Library) (pages : Pages) (services : Services lib pages) (environment : String)
    (approved_models : List String) where
  abbrev pub WorkerTask : Type 0 → Type 0
  WorkerTask = Task lib pages services (Unit {0})

  abbrev pub WorkerFrame : Type 0
  WorkerFrame = Frame lib pages services (Unit {0})

  abbrev pub settle_claim :
      WorkerFrame
      → Result JobStoreError (Option (StoredOperation lib) × Store lib)
      → Result Raised (Option (StoredOperation lib)) × WorkerFrame
  settle_claim f (err e) = (err (raised_by e), f)
  settle_claim f (ok (job, db)) = (ok job, record f { jobs = db })

  unfoldable pub claim_operation : WorkerTask (Option (StoredOperation lib))
  claim_operation = do
    now ← read_clock lib pages services
    λ f. settle_claim f (claim_next_operation lib environment now f.jobs)

  unfoldable pub execute_and_succeed : StoredOperation lib → WorkerTask (Unit {0})
  execute_and_succeed job = do
    result ← execute lib pages services (Unit {0}) environment approved_models job
    now ← read_clock lib pages services
    on_jobs lib pages services (succeed lib job.operation_id result now)

  unfoldable pub fail_with : StoredOperation lib → Raised → WorkerTask (Unit {0})
  fail_with job raised = do
    now ← read_clock lib pages services
    on_jobs lib pages services (
        fail lib job.operation_id (error_code raised) (error_message raised) (is_retryable raised)
          now)

  unfoldable pub run_claimed : Option (StoredOperation lib) → WorkerTask Bool
  unfolding execute_and_succeed fail_with
  run_claimed none = return false
  run_claimed (some job) =
      try_except lib pages services (execute_and_succeed job) (fail_with job) >> return true

  unfoldable pub run_once : WorkerTask Bool
  unfolding claim_operation run_claimed
  run_once = do job ← claim_operation; run_claimed job

  -- The number of operations done, of at most `max_operations`.
  unfoldable pub run_until_idle : (max_operations : ℕ) → WorkerTask ℕ
  unfolding run_once
  run_until_idle zero = return 0
  run_until_idle (suc max_operations) = do
    ran ← run_once
    if ran then (do completed ← run_until_idle max_operations; return (suc completed)) else return 0
