-- ===== src/Worker/Endpoints.antt =====
-- novo_chat/worker.py: the endpoints that submit a job, `index_status` and `job_status`.
use novo_chat.Base.{
  ℕ, String, Bool, true, false, not, ◌&&◌, ◌||◌, Option, none, some, List, [], ◌∷◌, map, nat_eq,
  leb, ◌==◌, string_eq, ltb, length, all, if◌then◌else◌,
}
use novo_chat.Base.Result.{Result, ok, err}
use novo_chat.Base.Action.{◌>>=◌, ◌>>◌, return, throw}
use novo_chat.Protocol.Tokens.{codes, is_alphanumeric}
use novo_chat.Protocol.Types.{NotebookScope, JobOperation}
use novo_chat.Jobs.{Library, JobStoreError, job_not_found, Store}
use novo_chat.Jobs.Submit.{get}
use novo_chat.Jobs.Catalog.{active_index}
use novo_chat.Worker.{WorkerApiError, WorkerConfig, Body, Draws, Parts, ArtifactStatus}
use novo_chat.Worker.Api.{
  JobView, ApiTask, api_error, internal_error, bind_request, validate_scope, require_approved_model,
  require, submit_job, on_store, job_view, authentication_required,
}

abbrev pub batch_too_large : WorkerApiError
batch_too_large = api_error 400 "INGEST_BATCH_TOO_LARGE"

abbrev pub checksum_mismatch : WorkerApiError
checksum_mismatch = api_error 400 "CHECKSUM_MISMATCH"

abbrev pub index_not_ready : WorkerApiError
index_not_ready = record { status_code = 409; code = "INDEX_NOT_READY"; retryable = true }

abbrev pub unknown_job : WorkerApiError
unknown_job = api_error 404 "JOB_NOT_FOUND"

-- `except JobNotFound`
abbrev pub get_error : JobStoreError → WorkerApiError
get_error job_not_found = unknown_job
get_error _ = internal_error

-- `_JOB_ID.fullmatch`
abbrev pub after_prefix : List ℕ → List ℕ → Option (List ℕ)
after_prefix [] cs = some cs
after_prefix (p ∷ ps) [] = none
after_prefix (p ∷ ps) (c ∷ cs) = if c == p then after_prefix ps cs else none

abbrev pub is_handle : Option (List ℕ) → Bool
is_handle none = false
is_handle (some cs) =
    all (λ c. is_alphanumeric c || c == b'_' || c == b'-') cs
    && leb 20 (length cs)
    && leb (length cs) 80

unfoldable pub is_job_id : String → Bool
is_job_id s = is_handle (after_prefix (codes "job_") (codes s))

-- A call that only reads.
abbrev pub kept_with : {A S : Type 0} → S → Result JobStoreError A → Result JobStoreError (A × S)
kept_with db (err e) = err e
kept_with db (ok a) = ok (a, db)

module _ (lib : Library) (parts : Parts lib) where
  open parts use {
    PageDocument, Question, ingest_pages_checksum, batch_payload, finalize_payload, rebuild_payload,
    query_payload, model_payload, artifact_ready, artifact_status,
  }

  -- The POST endpoints that submit a job, with what a body adds to the shared fields.
  pub data Submission : Type 0 where
    ingest_batch :
        (batch_number : ℕ) (batch_checksum : String) (pages : List PageDocument) → Submission
    ingest_finalize : (document_checksum : String) (page_count batch_count : ℕ) → Submission
    rebuild : (force : Bool) → Submission
    query : (model : String) (question : Question) → Submission
    start_model stop_model : (model : String) → Submission

module _ (lib : Library) (parts : Parts lib) (config : WorkerConfig) where
  open parts use {
    PageDocument, Question, ingest_pages_checksum, batch_payload, finalize_payload, rebuild_payload,
    query_payload, model_payload, artifact_ready, artifact_status,
  }

  abbrev pub all_ready : Store lib → List NotebookScope → Bool
  all_ready db = all (λ entry. artifact_ready (active_index lib entry config.environment db))

  -- A test of the tables, which they pass unchanged.
  unfoldable pub check : (Store lib → Bool) → WorkerApiError → ApiTask lib (Unit {0})
  check test e db = require lib (test db) e db

  -- `submit_model_job`
  unfoldable pub submit_model_job :
      Draws lib → Option String → Body → String → JobOperation → ApiTask lib (JobView lib)
  submit_model_job draws signed body model operation = do
    bind_request lib signed body.request_id
    require_approved_model lib config model
    submit_job lib config draws body operation (model_payload model)

  unfoldable pub post :
      Draws lib → Option String → Body → Submission lib parts → ApiTask lib (JobView lib)
  unfolding submit_model_job check
  post draws signed body (ingest_batch batch_number batch_checksum pages) = do
    bind_request lib signed body.request_id
    validate_scope lib config body.scope
    require lib (not (ltb config.max_ingest_pages_per_batch (length pages))) batch_too_large
    require lib (batch_checksum == ingest_pages_checksum pages) checksum_mismatch
    submit_job lib config draws body JobOperation.ingest_batch
        (batch_payload batch_number batch_checksum pages)
  post draws signed body (ingest_finalize document_checksum page_count batch_count) = do
    bind_request lib signed body.request_id
    submit_job lib config draws body JobOperation.ingest_finalize
        (finalize_payload document_checksum page_count batch_count)
  post draws signed body (rebuild force) = do
    bind_request lib signed body.request_id
    submit_job lib config draws body JobOperation.index_rebuild (rebuild_payload force)
  post draws signed body (query model question) = do
    bind_request lib signed body.request_id
    validate_scope lib config body.scope
    require_approved_model lib config model
    check (λ db. all_ready db body.scope) index_not_ready
    submit_job lib config draws body JobOperation.query (query_payload model question)
  post draws signed body (start_model model) =
      submit_model_job draws signed body model JobOperation.model_start
  post draws signed body (stop_model model) =
      submit_model_job draws signed body model JobOperation.model_stop

  unfoldable pub index_status :
      Option String
      → String
      → List NotebookScope
      → ApiTask lib (List (NotebookScope × ArtifactStatus))
  index_status signed body_request_id scope = do
    bind_request lib signed body_request_id
    validate_scope lib config scope
    λ db.
        return
          (map (λ entry. (entry, artifact_status (active_index lib entry config.environment db)))
            scope)
          db

  unfoldable pub job_status : Option String → String → ApiTask lib (JobView lib)
  job_status none job_id = throw authentication_required
  job_status (some signed) job_id = do
    require lib (is_job_id job_id) unknown_job
    job ← on_store lib get_error (λ db. kept_with db (get lib job_id config.environment db))
    return (job_view lib job)
