-- ===== src/Worker.antt =====
-- novo_chat/worker.py: the worker's API. A verified request is its signed request id; a body has
-- passed pydantic's validation.
pub mod Api
pub mod Endpoints
pub mod Accepted
pub mod Posts
pub mod Framing
use novo_chat.Base.{ℕ, String, Bool, Option, List}
use novo_chat.Protocol.Types.{NotebookScope}
use novo_chat.Jobs.{Library}
use novo_chat.Jobs.Catalog.{ActiveIndex}

pub record WorkerApiError : Type 0 where
  pub status_code : ℕ
  pub code : String
  pub retryable : Bool

-- The part of WorkerConfig that the endpoints read.
pub record WorkerConfig : Type 0 where
  pub environment : String
  pub approved_models : List String
  pub index_schema_versions : List String
  pub max_scope_entries : ℕ
  pub max_ingest_pages_per_batch : ℕ
  pub max_active_operations : ℕ

-- The fields that the bodies of submissions share.
pub record Body : Type 0 where
  pub request_id : String
  pub actor_user_id : String
  pub idempotency_key : String
  pub scope : List NotebookScope

-- What the index repository says of an active index.
pub record ArtifactStatus : Type 0 where
  pub exact_ready : Bool
  pub activated_at : Option String
  pub chunk_count : Option ℕ

module _ (lib : Library) where
  open lib use {Real}

  -- What a submission draws: `clock() - config.job_retention_seconds`, the later `clock()`, and the
  -- handles.
  pub record Draws : Type 0 where
    pub updated_before : Real
    pub now : Real
    pub operation_handle : String
    pub job_handle : String

  -- The payloads that the endpoints build, and the other parts that they call.
  pub record Parts : Type 1 where
    pub PageDocument : Type 0
    pub ingest_pages_checksum : List PageDocument → String
    pub batch_payload : ℕ → String → List PageDocument → lib.Json
    pub finalize_payload : String → ℕ → ℕ → lib.Json
    pub rebuild_payload : Bool → lib.Json
    pub Question : Type 0
    pub query_payload : String → Question → lib.Json
    pub model_payload : String → lib.Json
    pub artifact_ready : Option ActiveIndex → Bool
    pub artifact_status : Option ActiveIndex → ArtifactStatus
