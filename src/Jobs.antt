-- ===== src/Jobs.antt =====
-- novo_chat/jobs.py: the rows of the worker's SQLite tables. A table is the list of its rows in
-- rowid order; a JSON column holds the value that its text encodes.
pub mod Tables
pub mod Submit
pub mod Transition
pub mod Claim
pub mod Recovery
pub mod Retention
pub mod Catalog
pub mod Valid
pub mod Idempotency
pub mod Capacity
pub mod Exclusion
pub mod Terminal
pub mod Restart
pub mod Nonces
pub mod Index
pub mod Calls
use novo_chat.Base.{String, Bool, Option, List}
use novo_chat.Protocol.Types.{JobOperation, JobState, NotebookScope}

-- Code outside the repository that the store calls: Python floats, `datetime`, SQLite's
-- `julianday`, `json` and `hashlib`.
pub record Library : Type 1 where
  pub Real : Type 0
  pub zero_real : Real
  pub one_real : Real
  pub leb_real : Real → Real → Bool
  pub Json : Type 0
  pub utc_timestamp : Real → String
  pub julian_before : String → String → Bool
  pub request_digest : JobOperation → List NotebookScope → Json → String

pub data JobStoreError : Type 0 where
  job_not_found idempotency_conflict invalid_transition queue_full : JobStoreError
  no_submission value_error integrity_error : JobStoreError

pub record SubmissionRow : Type 0 where
  pub submission_id : String
  pub environment : String
  pub actor_user_id : String
  pub idempotency_key : String
  pub request_id : String
  pub request_fingerprint : String
  pub operation_id : String
  pub created_at : String

pub record IndexRow : Type 0 where
  pub environment : String
  pub notebook_id : String
  pub index_schema_version : String
  pub content_revision : String
  pub artifact_id : String
  pub activated_at : String

module _ (lib : Library) where
  open lib use {Real, Json}

  pub record OperationRow : Type 0 where
    pub operation_id : String
    pub environment : String
    pub operation_type : JobOperation
    pub dedupe_key : String
    pub scope : List NotebookScope
    pub payload : Json
    pub state : JobState
    pub progress : Real
    pub progress_detail : Option Json
    pub result : Option Json
    pub error_code : Option String
    pub error_message : Option String
    pub retryable : Bool
    pub created_at : String
    pub updated_at : String

  pub record Store : Type 0 where
    pub operations : List OperationRow
    pub submissions : List SubmissionRow
    pub indexes : List IndexRow
