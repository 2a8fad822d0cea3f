-- ===== src/Executor/Runs.antt =====
-- novo_chat/executor.py: what the tables keep while a handler runs.
use novo_chat.Base.{
  String, Bool, true, false, not, Option, none, some, List, [], ◌∷◌, ◌!=◌, string_eq,
}
use novo_chat.Protocol.Types.{
  JobOperation, NotebookScope, ingest_batch, ingest_finalize, index_rebuild, query, model_start,
  model_stop,
}
use novo_chat.Jobs.{Library}
use novo_chat.Jobs.Catalog.{ActiveIndex}
use novo_chat.Jobs.Claim.{StoredOperation}
use novo_chat.Documents.{Pages}
use novo_chat.Executor.{Services}
use novo_chat.Jobs.Valid.{IsValid}
use novo_chat.Executor.Keeps.Rows.{Moved}
use novo_chat.Executor.Tasks.{Task, Frame}
use novo_chat.Executor.Rebuild.{rebuild}
use novo_chat.Executor.Lifecycle.{
  is_started, report_start_progress, start_lifecycle, model_lifecycle,
}
use novo_chat.Executor.Handlers.{
  one_scope, run_ingest_batch, run_ingest_finalize, load_found, load_artifacts, run_query, dispatch,
  execute,
}
use novo_chat.Executor.Keeps.{
  Keeps, kept_then, on_documents-Keeps, on_world-Keeps, read_clock-Keeps, read_jobs-Keeps,
  read_locals-Keeps, fetch_field-Keeps, on_jobs-Keeps, record_progress-Keeps, call_back-Keeps,
  try_except-Keeps, with_locals-Keeps,
}
use novo_chat.Executor.Parts.{
  return-Keeps, throw-Keeps, if-Keeps, activate_indexes-Kept, report_progress-Keeps,
  build_all-Keeps, commit_all-Keeps, discard_all-Keeps, stop_others-Keeps, no_status-Keeps,
  start_status-Keeps,
}

module _ {lib : Library} {pages : Pages} {services : Services lib pages} where
  module _ (job : StoredOperation lib) where
    abbrev KeepsJob : {L A : Type 0} → Task lib pages services L A → Type 0
    KeepsJob m = Keeps lib pages services job.operation_id m

    rebuild-Keeps :
        {L : Type 0} (env : String) → KeepsJob {L = L} (rebuild lib pages services env job)
    unfolding rebuild
    rebuild-Keeps env = with_locals-Keeps _ (
        kept_then (report_progress-Keeps _) (λ _.
          kept_then
            (try_except-Keeps
              (kept_then (build_all-Keeps _ 0 job.scope) (λ _.
                kept_then read_locals-Keeps (λ locals.
                  kept_then (commit_all-Keeps _ 0 locals.candidates) (λ committed.
                    kept_then read_clock-Keeps
                      (λ now. on_jobs-Keeps _ (activate_indexes-Kept committed env now))))))
              (λ raised. kept_then read_locals-Keeps (λ locals.
                kept_then (discard_all-Keeps locals.candidates) (λ _. throw-Keeps raised))))
            (λ _. kept_then read_locals-Keeps (λ locals. return-Keeps _))))

    report_start_progress-Keeps :
        (model : String) → KeepsJob (report_start_progress lib pages services model job)
    unfolding report_start_progress
    report_start_progress-Keeps model =
        kept_then
          (try_except-Keeps (kept_then (on_world-Keeps _) (λ found. return-Keeps (some found)))
            no_status-Keeps)
          start_status-Keeps

    start_lifecycle-Keeps :
        {L : Type 0} (model : String) (approved : List String)
        → KeepsJob {L = L} (start_lifecycle lib pages services model approved job)
    unfolding start_lifecycle
    start_lifecycle-Keeps model approved = kept_then (stop_others-Keeps model job approved) (λ _.
        kept_then (on_world-Keeps _) (λ response.
          if-Keeps (not (is_started response.state)) (throw-Keeps _) (
            kept_then
              (with_locals-Keeps _ (call_back-Keeps _ (λ _. report_start_progress-Keeps model)))
              (λ ready. if-Keeps (not ready) (throw-Keeps _) (return-Keeps _)))))

    model_lifecycle-Keeps :
        {L : Type 0} (approved : List String) (start : Bool)
        → KeepsJob {L = L} (model_lifecycle lib pages services approved start job)
    unfolding model_lifecycle
    model_lifecycle-Keeps approved start = kept_then (fetch_field-Keeps _) (λ model.
        if-Keeps start (start_lifecycle-Keeps model approved) (
          kept_then (on_world-Keeps _)
            (λ response. if-Keeps (response.state != "stopped") (throw-Keeps _) (return-Keeps _))))

    module _ {L : Type 0} where
      one_scope-Keeps :
          (scopes : List NotebookScope) → KeepsJob (one_scope lib pages services L scopes)
      one_scope-Keeps [] = throw-Keeps _
      one_scope-Keeps (scope ∷ []) = return-Keeps scope
      one_scope-Keeps (scope ∷ other ∷ scopes) = throw-Keeps _

      load_found-Keeps :
          (found : Option ActiveIndex) → KeepsJob (load_found lib pages services L found)
      load_found-Keeps none = throw-Keeps _
      load_found-Keeps (some active) = on_world-Keeps _

      load_artifacts-Keeps :
          (env : String) (scopes : List NotebookScope)
          → KeepsJob (load_artifacts lib pages services L env scopes)
      unfolding load_artifacts
      load_artifacts-Keeps env [] = return-Keeps []
      load_artifacts-Keeps env (scope ∷ scopes) = kept_then (read_jobs-Keeps _) (λ active.
          kept_then (load_found-Keeps active) (λ artifact.
            kept_then (load_artifacts-Keeps env scopes)
              (λ artifacts. return-Keeps (artifact ∷ artifacts))))

      run_query-Keeps : (env : String) → KeepsJob (run_query lib pages services L env job)
      unfolding run_query
      run_query-Keeps env = kept_then (load_artifacts-Keeps env job.scope) (λ artifacts.
          kept_then (fetch_field-Keeps _) (λ _. kept_then (fetch_field-Keeps _) (λ model.
            kept_then (on_world-Keeps _) (λ ready. if-Keeps (not ready) (throw-Keeps _) (
              kept_then (record_progress-Keeps _ _) (λ _.
                kept_then (fetch_field-Keeps _) (λ question.
                  call_back-Keeps _ (λ detail. record_progress-Keeps _ (some detail.dump)))))))))

      dispatch-Keeps :
          (env : String) (approved : List String) (operation : JobOperation)
          → KeepsJob (dispatch lib pages services L env approved operation job)
      unfolding run_ingest_batch run_ingest_finalize
      dispatch-Keeps env approved ingest_batch = kept_then (one_scope-Keeps job.scope) (λ scope.
          kept_then (fetch_field-Keeps _)
            (λ batch. kept_then (on_documents-Keeps _) (λ accepted. return-Keeps _)))
      dispatch-Keeps env approved ingest_finalize = kept_then (one_scope-Keeps job.scope) (λ scope.
          kept_then (fetch_field-Keeps _)
            (λ asked. kept_then (on_documents-Keeps _) (λ finalized. return-Keeps _)))
      dispatch-Keeps env approved index_rebuild = rebuild-Keeps env
      dispatch-Keeps env approved query = run_query-Keeps env
      dispatch-Keeps env approved model_start = model_lifecycle-Keeps approved true
      dispatch-Keeps env approved model_stop = model_lifecycle-Keeps approved false

      pub execute-Keeps :
          (env : String) (approved : List String)
          → KeepsJob (execute lib pages services L env approved job)
      unfolding execute
      execute-Keeps env approved = dispatch-Keeps env approved job.operation

      -- Executing an operation on valid tables leaves them valid, with the same submissions and the
      -- rows of the other operations as they were; its own row keeps its place and its state.
      pub execute-Moved :
          (env : String) (approved : List String) (f : Frame lib pages services L)
          → IsValid lib f.jobs
          → Moved lib job.operation_id f.jobs
              (execute lib pages services L env approved job f).1.jobs
      execute-Moved env approved f valid = ((execute-Keeps env approved).kept f).moved valid
