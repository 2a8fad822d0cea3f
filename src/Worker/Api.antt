-- ===== src/Worker/Api.antt =====
-- novo_chat/worker.py: `bind_request`, `validate_scope`, `require_approved_model`, `submit_job` and
-- `_job_view`. An exception that no handler maps is answered as INTERNAL_ERROR.
use novo_chat.Base.{
  ℕ, String, Bool, true, false, not, Option, none, some, List, ◌==◌, string_eq, ltb, length, any,
  contains, if◌then◌else◌,
}
use novo_chat.Base.Result.{Result, ok, err}
use novo_chat.Base.Action.{Action, ◌>>=◌, ◌>>◌, return, throw}
use novo_chat.Protocol.Types.{NotebookScope, JobOperation, JobState}
use novo_chat.Jobs.{Library, JobStoreError, idempotency_conflict, queue_full, Store}
use novo_chat.Jobs.Submit.{SubmitRequest, StoredJob, submit}
use novo_chat.Jobs.Retention.{purge_terminal_operations}
use novo_chat.Worker.{WorkerApiError, WorkerConfig, Body, Draws}

abbrev pub api_error : ℕ → String → WorkerApiError
api_error status_code code = record { status_code = status_code; code = code; retryable = false }

abbrev pub authentication_required : WorkerApiError
authentication_required = api_error 401 "AUTHENTICATION_REQUIRED"

abbrev pub internal_error : WorkerApiError
internal_error = record { status_code = 500; code = "INTERNAL_ERROR"; retryable = true }

abbrev pub request_id_mismatch : WorkerApiError
request_id_mismatch = api_error 400 "REQUEST_ID_MISMATCH"

abbrev pub scope_too_large : WorkerApiError
scope_too_large = api_error 400 "SCOPE_TOO_LARGE"

abbrev pub schema_not_supported : WorkerApiError
schema_not_supported = api_error 400 "INDEX_SCHEMA_NOT_SUPPORTED"

abbrev pub model_not_approved : WorkerApiError
model_not_approved = api_error 404 "MODEL_NOT_APPROVED"

-- The `except` clauses of `submit_job`.
abbrev pub submit_error : JobStoreError → WorkerApiError
submit_error idempotency_conflict = api_error 409 "IDEMPOTENCY_CONFLICT"
submit_error queue_full = record { status_code = 429; code = "QUEUE_FULL"; retryable = true }
submit_error _ = internal_error

pub record JobError : Type 0 where
  pub code : String
  pub message : String
  pub retryable : Bool

-- `job.error_message or …`
abbrev pub message_or : Option String → String → String
message_or none text = text
message_or (some message) text = if message == "" then text else message

module _ (lib : Library) where
  open lib use {Real, Json}

  pub record JobView : Type 0 where
    pub job_id : String
    pub operation : JobOperation
    pub state : JobState
    pub created_at : String
    pub updated_at : String
    pub progress : Real
    pub progress_detail : Option Json
    pub result : Option Json
    pub error : Option JobError

module _ (lib : Library) where
  abbrev pub ApiTask : Type 0 → Type 0
  ApiTask = Action (Store lib) WorkerApiError

  abbrev pub view_error : StoredJob lib → Option String → Option JobError
  view_error job none = none
  view_error job (some code) =
      if code == ""
      then none
      else some (record {
        code = code;
        message = message_or job.error_message "The operation failed.";
        retryable = job.retryable;
      })

  unfoldable pub job_view : StoredJob lib → JobView lib
  job_view job = record {
    job_id = job.job_id;
    operation = job.operation;
    state = job.state;
    created_at = job.created_at;
    updated_at = job.updated_at;
    progress = job.progress;
    progress_detail = job.progress_detail;
    result = job.result;
    error = view_error job job.error_code;
  }

  abbrev pub require : Bool → WorkerApiError → ApiTask (Unit {0})
  require b e = if b then return tt else throw e

  abbrev settle :
      {A : Type 0}
      → (JobStoreError → WorkerApiError)
      → Store lib
      → Result JobStoreError (A × Store lib)
      → Result WorkerApiError A × Store lib
  settle mapped db (err e) = (err (mapped e), db)
  settle mapped db (ok (a, db')) = (ok a, db')

  -- A call of the job store; one that raises is rolled back.
  unfoldable pub on_store :
      {A : Type 0}
      → (JobStoreError → WorkerApiError)
      → (Store lib → Result JobStoreError (A × Store lib))
      → ApiTask A
  on_store mapped call db = settle mapped db (call db)

  -- `request_id_from`, and `bind_request`
  unfoldable pub bind_request : Option String → String → ApiTask (Unit {0})
  bind_request none body_request_id = throw authentication_required
  bind_request (some signed) body_request_id =
      require (signed == body_request_id) request_id_mismatch

  unfoldable pub validate_scope : WorkerConfig → List NotebookScope → ApiTask (Unit {0})
  validate_scope config scope = do
    require (not (ltb config.max_scope_entries (length scope))) scope_too_large
    require
        (not (
          any (λ entry. not (contains config.index_schema_versions entry.index_schema_version))
            scope))
        schema_not_supported

  unfoldable pub require_approved_model : WorkerConfig → String → ApiTask (Unit {0})
  require_approved_model config model =
      require (contains config.approved_models model) model_not_approved

  abbrev pub submission :
      WorkerConfig → Draws lib → Body → JobOperation → lib.Json → SubmitRequest lib
  submission config draws body operation payload = record {
    environment = config.environment;
    actor_user_id = body.actor_user_id;
    idempotency_key = body.idempotency_key;
    request_id = body.request_id;
    operation = operation;
    scope = body.scope;
    payload = payload;
    dedupe_key = none;
    max_active_operations = some config.max_active_operations;
    now = draws.now;
    operation_handle = draws.operation_handle;
    job_handle = draws.job_handle;
  }

  -- The answer is `_job_view` of the job; the purge is committed even if the submission raises.
  unfoldable pub submit_job :
      WorkerConfig → Draws lib → Body → JobOperation → lib.Json → ApiTask (JobView lib)
  unfolding on_store validate_scope
  submit_job config draws body operation payload = do
    validate_scope config body.scope
    purged ←
        on_store (λ _. internal_error)
          (purge_terminal_operations lib config.environment draws.updated_before)
    outcome ← on_store submit_error (submit lib (submission config draws body operation payload))
    return (job_view outcome.job)
