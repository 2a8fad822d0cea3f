-- ===== src/Executor/Handlers.antt =====
-- novo_chat/executor.py: `_one_scope`, `_ingest_batch`, `_ingest_finalize`, `_query` and `_execute`.
use novo_chat.Base.{
  ℕ, String, true, false, not, Option, none, some, List, [], ◌∷◌, length, if◌then◌else◌,
}
use novo_chat.Base.Action.{◌>>=◌, ◌>>◌, return, throw}
use novo_chat.Protocol.Types.{
  JobOperation, NotebookScope, ingest_batch, ingest_finalize, index_rebuild, query, model_start,
  model_stop,
}
use novo_chat.Jobs.{Library}
use novo_chat.Jobs.Catalog.{active_index, ActiveIndex}
use novo_chat.Jobs.Claim.{StoredOperation}
use novo_chat.Documents.{Pages, stage_batch, finalize}
use novo_chat.Executor.{
  Services, Raised, service, invalid_payload, QueryProgressStage, planning, searching, answering,
  JobProgressDetail,
}
use novo_chat.Executor.Tasks.{
  Task, on_documents, on_world, read_jobs, record_progress, call_back, fetch_field,
}
use novo_chat.Executor.Rebuild.{rebuild}
use novo_chat.Executor.Lifecycle.{model_lifecycle}

abbrev pub index_not_ready : Raised
index_not_ready = service "INDEX_NOT_READY" "An exact requested notebook index is not ready." true

abbrev pub model_not_ready : Raised
model_not_ready = service "MODEL_NOT_READY" "Requested model is not ready." true

module _ (lib : Library) (pages : Pages) (services : Services lib pages) (L : Type 0) where
  open services use {Artifact, floats, payloads, load_active, query_index, is_ready}

  abbrev pub one_scope : List NotebookScope → Task lib pages services L NotebookScope
  one_scope (scope ∷ []) = return scope
  one_scope _ = throw invalid_payload

  unfoldable pub run_ingest_batch : StoredOperation lib → Task lib pages services L lib.Json
  run_ingest_batch job = do
    scope ← one_scope job.scope
    batch ← fetch_field lib pages services (payloads.read_batch job.payload)
    accepted ←
        on_documents lib pages services
          (stage_batch pages scope batch.batch_number batch.batch_checksum batch.pages)
    return (payloads.ingest_result scope accepted)

  unfoldable pub run_ingest_finalize : StoredOperation lib → Task lib pages services L lib.Json
  run_ingest_finalize job = do
    scope ← one_scope job.scope
    asked ← fetch_field lib pages services (payloads.read_finalize job.payload)
    finalized ←
        on_documents lib pages services
          (finalize pages scope asked.document_checksum asked.page_count asked.batch_count)
    return (payloads.ingest_result scope (length finalized.pages))

  abbrev pub load_found : Option ActiveIndex → Task lib pages services L Artifact
  load_found none = throw index_not_ready
  load_found (some active) = on_world lib pages services (load_active active)

  -- The loop of `_query` over the scopes.
  unfoldable pub load_artifacts :
      String → List NotebookScope → Task lib pages services L (List Artifact)
  load_artifacts environment [] = return []
  load_artifacts environment (scope ∷ scopes) = do
    active ← read_jobs lib pages services (active_index lib scope environment)
    artifact ← load_found active
    artifacts ← load_artifacts environment scopes
    return (artifact ∷ artifacts)

  -- The progress of a stage, in hundredths.
  abbrev pub stage_progress : QueryProgressStage → ℕ
  stage_progress planning = 5
  stage_progress searching = 30
  stage_progress answering = 65

  unfoldable pub report_stage :
      String → JobProgressDetail lib.Json → Task lib pages services L (Unit {0})
  report_stage operation_id detail =
      record_progress lib pages services operation_id
        (floats.hundredths (stage_progress detail.stage)) (some detail.dump)

  unfoldable pub run_query : String → StoredOperation lib → Task lib pages services L lib.Json
  unfolding load_artifacts report_stage
  run_query environment job = do
    artifacts ← load_artifacts environment job.scope
    fetch_field lib pages services (payloads.read_strategy job.payload)
    model ← fetch_field lib pages services (payloads.read_model job.payload)
    ready ← on_world lib pages services (is_ready model)
    if not ready then throw model_not_ready else (do
      record_progress lib pages services job.operation_id (floats.hundredths 5)
          (some (payloads.stage_detail planning))
      question ← fetch_field lib pages services (payloads.read_question job.payload)
      call_back lib pages services (report_stage job.operation_id) (query_index artifacts question))

  abbrev pub dispatch :
      String → List String → JobOperation → StoredOperation lib → Task lib pages services L lib.Json
  dispatch environment approved_models ingest_batch job = run_ingest_batch job
  dispatch environment approved_models ingest_finalize job = run_ingest_finalize job
  dispatch environment approved_models index_rebuild job =
      rebuild lib pages services environment job
  dispatch environment approved_models query job = run_query environment job
  dispatch environment approved_models model_start job =
      model_lifecycle lib pages services approved_models true job
  dispatch environment approved_models model_stop job =
      model_lifecycle lib pages services approved_models false job

  unfoldable pub execute :
      String → List String → StoredOperation lib → Task lib pages services L lib.Json
  unfolding run_ingest_batch run_ingest_finalize run_query
  execute environment approved_models job = dispatch environment approved_models job.operation job
