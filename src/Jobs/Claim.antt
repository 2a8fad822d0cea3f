-- ===== src/Jobs/Claim.antt =====
-- novo_chat/jobs.py: `claim_next_operation` and `get_operation`.
use novo_chat.Base.{
  String, Bool, ◌&&◌, Option, none, some, List, ◌==◌, ◌!=◌, string_eq, nat_eq, if◌then◌else◌, any,
  find_first, count_if,
}
use novo_chat.Base.Result.{Result, ok, ◌>>=◌}
use novo_chat.Protocol.Types.{JobOperation, JobState, NotebookScope, queued, running, state_eq}
use novo_chat.Jobs.{
  Library, JobStoreError, job_not_found, no_submission, SubmissionRow, OperationRow, Store,
}
use novo_chat.Jobs.Tables.{fetch_one, update_where}
use novo_chat.Jobs.Submit.{find_operation}

module _ (lib : Library) where
  open lib use {Real, Json}

  pub record StoredOperation : Type 0 where
    pub operation_id : String
    pub environment : String
    pub actor_user_id : String
    pub request_id : String
    pub operation : JobOperation
    pub scope : List NotebookScope
    pub payload : Json
    pub state : JobState
    pub progress : Real
    pub created_at : String
    pub updated_at : String

module _ (lib : Library) where
  open lib use {Real, zero_real, utc_timestamp}

  abbrev pub has_state : String → JobState → OperationRow lib → Bool
  has_state environment state o = o.environment == environment && o.state == state

  unfoldable pub first_submission : String → List SubmissionRow → Option SubmissionRow
  first_submission operation_id = find_first (λ s. s.operation_id == operation_id)

  abbrev pub stored_operation : OperationRow lib → SubmissionRow → StoredOperation lib
  stored_operation o s = record {
    operation_id = o.operation_id;
    environment = o.environment;
    actor_user_id = s.actor_user_id;
    request_id = s.request_id;
    operation = o.operation_type;
    scope = o.scope;
    payload = o.payload;
    state = o.state;
    progress = o.progress;
    created_at = o.created_at;
    updated_at = o.updated_at;
  }

  -- The row after the UPDATE of a claim; its progress, 0.0, passes the CHECK.
  abbrev pub claimed_row : Real → OperationRow lib → OperationRow lib
  claimed_row now o = record o {
    state = running;
    progress = zero_real;
    progress_detail = none;
    updated_at = utc_timestamp now;
  }

  -- WHERE operation_id = ? AND state = queued
  abbrev pub claimable : String → OperationRow lib → Bool
  claimable operation_id o = o.operation_id == operation_id && o.state == queued

  unfoldable pub claim_row :
      Real
      → OperationRow lib
      → Store lib
      → Result JobStoreError (Option (StoredOperation lib) × Store lib)
  unfolding first_submission
  claim_row now o db = do
    s ← fetch_one no_submission (first_submission o.operation_id db.submissions)
    let operations = update_where (claimable o.operation_id) (claimed_row now) db.operations
    if count_if (claimable o.operation_id) db.operations != 1
        then ok (none, db)
        else ok
            (some (stored_operation (claimed_row now o) s), record db { operations = operations })

  unfoldable pub claim_next_operation :
      String → Real → Store lib → Result JobStoreError (Option (StoredOperation lib) × Store lib)
  unfolding claim_row
  claim_next_operation environment now db =
      if any (has_state environment running) db.operations
      then ok (none, db)
      else elim (find_first (has_state environment queued) db.operations) [
        | none ↦ ok (none, db)
        | some o ↦ claim_row now o db
      ]

  unfoldable pub get_operation : String → Store lib → Result JobStoreError (StoredOperation lib)
  unfolding first_submission
  get_operation operation_id db = do
    o ← fetch_one job_not_found (find_operation lib operation_id db.operations)
    s ← fetch_one job_not_found (first_submission operation_id db.submissions)
    ok (stored_operation o s)
