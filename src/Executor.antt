-- ===== src/Executor.antt =====
-- novo_chat/executor.py: what WorkerExecutor works on. The index repository, the controller of the
-- models, the readiness probe, the reading of JSON payloads and the clock are parameters. A task is
-- an action on the worker's stores, the world outside, and the variables of the running method.
pub mod Tasks
pub mod Rebuild
pub mod Lifecycle
pub mod Handlers
pub mod Loop
pub mod Keeps
pub mod Parts
pub mod Runs
pub mod Settle
pub mod Drain
use novo_chat.Base.{ℕ, String, Bool, Option, List}
use novo_chat.Base.Result.{Result}
use novo_chat.Protocol.Types.{NotebookScope}
use novo_chat.Jobs.{Library, Store}
use novo_chat.Jobs.Catalog.{ActiveIndex}
use novo_chat.Documents.{Pages, DocumentError, DocumentStore, FinalizedDocument}

-- An exception, as the clauses of the executor tell it apart: DocumentStoreError or ComputeError;
-- ModelControllerError; KeyError, TypeError, ValueError or ValidationError; any other.
pub data Raised : Type 0 where
  service controller : (code message : String) (retryable : Bool) → Raised
  invalid_payload unexpected : Raised

-- A call of other code that takes a progress callback. It answers, or reports a value first and goes
-- on with what the callback did: returned, or raised.
pub data Call (World V A : Type 0) : Type 0 where
  answers : Result Raised A → World → Call World V A
  reports : V → World → (Result Raised (Unit {0}) → World → Call World V A) → Call World V A

-- Python floats; `hundredths 90` is 0.90.
pub record Floats (Real : Type 0) : Type 0 where
  pub hundredths : ℕ → Real
  pub of_nat : ℕ → Real
  pub add : Real → Real → Real
  pub sub : Real → Real → Real
  pub mul : Real → Real → Real
  pub div : Real → Real → Real
  pub less : Real → Real → Bool

-- The answer of the controller: `str(….get("state") or "").lower()`, and `progress` if it is a
-- number.
pub record ControllerStatus (Real : Type 0) : Type 0 where
  pub state : String
  pub progress : Option Real

pub record BatchPayload (Page : Type 0) : Type 0 where
  pub batch_number : ℕ
  pub batch_checksum : String
  pub pages : List Page

pub record FinalizePayload : Type 0 where
  pub document_checksum : String
  pub page_count : ℕ
  pub batch_count : ℕ

pub data QueryProgressStage : Type 0 where
  planning searching answering : QueryProgressStage

pub record JobProgressDetail (Json : Type 0) : Type 0 where
  pub stage : QueryProgressStage
  pub dump : Json

-- The fields of a payload that a handler reads; none where reading them raises.
pub record Payloads (lib : Library) (pages : Pages) (Question : Type 0) : Type 0 where
  pub read_batch : lib.Json → Option (BatchPayload pages.Page)
  pub read_finalize : lib.Json → Option FinalizePayload
  pub read_strategy : lib.Json → Option (Unit {0})
  pub read_model : lib.Json → Option String
  pub read_question : lib.Json → Option Question
  pub ingest_result : NotebookScope → ℕ → lib.Json
  pub index_result : List NotebookScope → ℕ → lib.Json
  pub model_result : String → Bool → lib.Json
  pub stage_detail : QueryProgressStage → lib.Json

pub record Services (lib : Library) (pages : Pages) : Type 1 where
  pub World : Type 0
  pub Candidate : Type 0
  pub Artifact : Type 0
  pub Question : Type 0
  pub floats : Floats lib.Real
  pub payloads : Payloads lib pages Question
  pub document_failure : DocumentError → Raised
  pub clock : World → lib.Real × World
  pub build_candidate : FinalizedDocument pages → String → World → Call World lib.Real Candidate
  pub chunk_count : Candidate → ℕ
  pub commit_candidate : Candidate → World → Result Raised (NotebookScope × String) × World
  pub discard_candidate : Candidate → World → Result Raised (Unit {0}) × World
  pub load_active : ActiveIndex → World → Result Raised Artifact × World
  pub query_index :
      List Artifact → Question → World → Call World (JobProgressDetail lib.Json) lib.Json
  -- of a model, a request id and an actor
  pub status : String → String → String → World → Result Raised (ControllerStatus lib.Real) × World
  pub start_model :
      String → String → String → World → Result Raised (ControllerStatus lib.Real) × World
  pub stop_model :
      String → String → String → World → Result Raised (ControllerStatus lib.Real) × World
  pub is_ready : String → World → Result Raised Bool × World
  pub wait_until_ready : String → World → Call World (Unit {0}) Bool
