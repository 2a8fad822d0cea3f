-- ===== src/Executor/Parts.antt =====
-- novo_chat/executor.py: the loops and callbacks of the handlers, and what the tables keep meanwhile.
use novo_chat.Base.{
  ℕ, suc, String, ◌≡◌, refl, Bool, true, false, not, Option, none, some, List, [], ◌∷◌, ◌==◌, ◌!=◌,
  string_eq, if◌then◌else◌,
}
use novo_chat.Base.Result.{Result, ok, ok-injective}
use novo_chat.Base.Action.{return, throw}
use novo_chat.Protocol.Types.{NotebookScope}
use novo_chat.Jobs.Valid.Indexes.{Free-upsert_all}
use novo_chat.Jobs.{Library, JobStoreError, Store}
use novo_chat.Jobs.Catalog.{activate_indexes}
use novo_chat.Jobs.Claim.{StoredOperation}
use novo_chat.Documents.{Pages}
use novo_chat.Executor.{
  Services, Raised, controller, service, invalid_payload, unexpected, ControllerStatus,
}
use novo_chat.Executor.Tasks.{Task}
use novo_chat.Executor.Rebuild.{
  report_progress, add_candidate, build_all, commit_all, discard_all, is_small_step,
  bounded_progress,
}
use novo_chat.Executor.Lifecycle.{
  stop_others, is_started, take_progress, is_stale, no_status, start_status,
}
use novo_chat.Executor.Keeps.{
  Kept, Keeps, same, kept_then, on_documents-Keeps, on_world-Keeps, read_locals-Keeps,
  write_locals-Keeps, record_progress-Keeps, call_back-Keeps,
}
use novo_chat.Executor.Keeps.Rows.{Moved-refl}

module _ {lib : Library} {pages : Pages} {services : Services lib pages} {id : String} where
  open services use {Candidate, World}

  module _ {L : Type 0} where
    pub return-Keeps : {A : Type 0} (a : A) → Keeps lib pages services id {L = L} (return a)
    return-Keeps a = record { kept = λ f. same f.jobs }

    pub throw-Keeps :
        {A : Type 0} (raised : Raised) → Keeps lib pages services id {L = L} {A = A} (throw raised)
    throw-Keeps raised = record { kept = λ f. same f.jobs }

    -- Whichever branch of a test is taken.
    pub if-Keeps :
        {A : Type 0} (b : Bool) {m n : Task lib pages services L A}
        → Keeps lib pages services id m
        → Keeps lib pages services id n
        → Keeps lib pages services id (if b then m else n)
    if-Keeps true h k = h
    if-Keeps false h k = k

  pub activate_indexes-Kept :
      (entries : List (NotebookScope × String)) (env : String) (now : lib.Real) (db db' : Store lib)
      → ◌≡◌ {A = Result JobStoreError (Store lib)}
          (ok (activate_indexes lib entries env now db))
          (ok db')
      → Kept lib pages services id db db'
  unfolding activate_indexes
  activate_indexes-Kept entries env now db db' e = rw (← ok-injective e) (record {
    moved = λ valid. record {
      valid = record {
        ids = valid.ids;
        keys = valid.keys;
        handles = valid.handles;
        linked = valid.linked;
        owned = valid.owned;
        slots = Free-upsert_all _ _ entries db.indexes valid.slots;
      };
      rows = (Moved-refl lib id db valid).rows;
      submissions_kept = refl;
    };
  })

  pub report_progress-Keeps :
      (value : lib.Real) → Keeps lib pages services id (report_progress lib pages services id value)
  unfolding report_progress
  report_progress-Keeps value = kept_then read_locals-Keeps (λ locals.
      if-Keeps
        (is_small_step lib pages services locals.last_progress
          (bounded_progress lib pages services locals.last_progress value))
        (return-Keeps tt) (kept_then (write_locals-Keeps _) (λ _. record_progress-Keeps _ none)))

  pub add_candidate-Keeps :
      (candidate : Candidate)
      → Keeps lib pages services id (add_candidate lib pages services candidate)
  unfolding add_candidate
  add_candidate-Keeps candidate = kept_then read_locals-Keeps (λ locals. write_locals-Keeps _)

  pub build_all-Keeps :
      (count position : ℕ) (scopes : List NotebookScope)
      → Keeps lib pages services id (build_all lib pages services id count position scopes)
  unfolding build_all
  build_all-Keeps count position [] = return-Keeps tt
  build_all-Keeps count position (scope ∷ scopes) = kept_then (on_documents-Keeps _) (λ document.
      kept_then (call_back-Keeps _ (λ value. report_progress-Keeps _)) (λ candidate.
        kept_then (add_candidate-Keeps candidate)
          (λ _. build_all-Keeps count (suc position) scopes)))

  pub commit_all-Keeps :
      (count position : ℕ) (candidates : List Candidate)
      → Keeps lib pages services id (commit_all lib pages services id count position candidates)
  unfolding commit_all
  commit_all-Keeps count position [] = return-Keeps []
  commit_all-Keeps count position (candidate ∷ candidates) = kept_then (on_world-Keeps _) (λ entry.
      kept_then (record_progress-Keeps _ none) (λ _.
        kept_then (commit_all-Keeps count (suc position) candidates)
          (λ committed. return-Keeps (entry ∷ committed))))

  pub discard_all-Keeps :
      (candidates : List Candidate)
      → Keeps lib pages services id (discard_all lib pages services candidates)
  unfolding discard_all
  discard_all-Keeps [] = return-Keeps tt
  discard_all-Keeps (candidate ∷ candidates) =
      kept_then (on_world-Keeps _) (λ _. discard_all-Keeps candidates)

  pub stop_others-Keeps :
      {L : Type 0} (model : String) (job : StoredOperation lib) (others : List String)
      → Keeps lib pages services id {L = L} (stop_others lib pages services model job others)
  unfolding stop_others
  stop_others-Keeps model job [] = return-Keeps tt
  stop_others-Keeps model job (other ∷ others) =
      let rest = stop_others-Keeps model job others in
      if-Keeps (other == model) rest (
        kept_then (on_world-Keeps _) (λ found. if-Keeps (not (is_started found.state)) rest (
          kept_then (on_world-Keeps _)
            (λ stopped. if-Keeps (stopped.state != "stopped") (throw-Keeps _) rest))))

  pub take_progress-Keeps :
      (last : lib.Real) (progress : Option lib.Real)
      → Keeps lib pages services id (take_progress lib pages services id last progress)
  take_progress-Keeps last none = return-Keeps tt
  take_progress-Keeps last (some progress) =
      if-Keeps (is_stale lib pages services last progress) (return-Keeps tt)
        (kept_then (write_locals-Keeps progress) (λ _. record_progress-Keeps progress none))

  pub no_status-Keeps :
      (raised : Raised) → Keeps lib pages services id (no_status lib pages services raised)
  no_status-Keeps (service code message retryable) = throw-Keeps _
  no_status-Keeps (controller code message retryable) = return-Keeps none
  no_status-Keeps invalid_payload = throw-Keeps _
  no_status-Keeps unexpected = throw-Keeps _

  pub start_status-Keeps :
      (found : Option (ControllerStatus lib.Real))
      → Keeps lib pages services id (start_status lib pages services id found)
  start_status-Keeps none = return-Keeps tt
  start_status-Keeps (some found) =
      kept_then read_locals-Keeps (λ last. take_progress-Keeps last found.progress)
