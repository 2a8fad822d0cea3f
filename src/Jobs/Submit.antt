-- ===== src/Jobs/Submit.antt =====
-- novo_chat/jobs.py: `submit`, `_get_with_connection`, `get` and `active_operation_count`.
-- A method that raises has rolled its transaction back: the caller keeps the store that it had.
use novo_chat.Base.{
  ℕ, String, Bool, true, false, ◌&&◌, Option, none, some, List, ◌==◌, ◌!=◌, string_eq,
  if◌then◌else◌, find_first, count_if, leb,
}
use novo_chat.Base.Result.{Result, ok, ◌>>=◌, ◌>>◌, raise_if}
use novo_chat.Protocol.Types.{JobOperation, JobState, NotebookScope, queued, operation_eq}
use novo_chat.Jobs.{
  Library, JobStoreError, job_not_found, idempotency_conflict, queue_full, SubmissionRow,
  OperationRow, Store,
}
use novo_chat.Jobs.Tables.{is_active, fetch_one, insert_operation, insert_submission}

-- `str(text) if text else None`
abbrev pub nonempty : Option String → Option String
nonempty none = none
nonempty (some text) = if text == "" then none else some text

-- `dedupe_key or request_fingerprint`
abbrev pub or_else : Option String → String → String
or_else none d = d
or_else (some text) d = if text == "" then d else text

module _ (lib : Library) where
  open lib use {Real, Json}

  pub record StoredJob : Type 0 where
    pub job_id : String
    pub operation_id : String
    pub environment : String
    pub actor_user_id : String
    pub request_id : String
    pub operation : JobOperation
    pub state : JobState
    pub created_at : String
    pub updated_at : String
    pub progress : Real
    pub progress_detail : Option Json
    pub result : Option Json
    pub error_code : Option String
    pub error_message : Option String
    pub retryable : Bool

  pub record SubmissionOutcome : Type 0 where
    pub job : StoredJob
    pub submission_created : Bool
    pub operation_created : Bool

  -- The arguments of `submit`; the handles are what `_new_handle` draws, if it is called.
  pub record SubmitRequest : Type 0 where
    pub environment : String
    pub actor_user_id : String
    pub idempotency_key : String
    pub request_id : String
    pub operation : JobOperation
    pub scope : List NotebookScope
    pub payload : Json
    pub dedupe_key : Option String
    pub max_active_operations : Option ℕ
    pub now : Real
    pub operation_handle : String
    pub job_handle : String

module _ (lib : Library) where
  open lib use {zero_real, utc_timestamp, request_digest}

  -- One row of the JOIN as a `StoredJob`.
  abbrev pub joined_job : SubmissionRow → OperationRow lib → StoredJob lib
  joined_job s o = record {
    job_id = s.submission_id;
    operation_id = s.operation_id;
    environment = s.environment;
    actor_user_id = s.actor_user_id;
    request_id = s.request_id;
    operation = o.operation_type;
    state = o.state;
    created_at = s.created_at;
    updated_at = o.updated_at;
    progress = o.progress;
    progress_detail = o.progress_detail;
    result = o.result;
    error_code = nonempty o.error_code;
    error_message = nonempty o.error_message;
    retryable = o.retryable;
  }

  unfoldable pub find_operation : String → List (OperationRow lib) → Option (OperationRow lib)
  find_operation operation_id = find_first (λ o. o.operation_id == operation_id)

  unfoldable pub find_submission : String → String → List SubmissionRow → Option SubmissionRow
  find_submission job_id environment =
      find_first (λ s. s.submission_id == job_id && s.environment == environment)

  -- `_get_with_connection`, and `get`
  unfoldable pub get : String → String → Store lib → Result JobStoreError (StoredJob lib)
  unfolding find_operation find_submission
  get job_id environment db = do
    s ← fetch_one job_not_found (find_submission job_id environment db.submissions)
    o ← fetch_one job_not_found (find_operation s.operation_id db.operations)
    ok (joined_job s o)

  unfoldable pub active_operation_count : String → List (OperationRow lib) → ℕ
  active_operation_count environment =
      count_if (λ o. o.environment == environment && is_active o.state)

  abbrev pub fingerprint : SubmitRequest lib → String
  fingerprint r = request_digest r.operation r.scope r.payload

  -- `actual_dedupe_key`
  abbrev pub live_key : SubmitRequest lib → String
  live_key r = or_else r.dedupe_key (fingerprint r)

  abbrev pub same_caller : SubmitRequest lib → SubmissionRow → Bool
  same_caller r s =
      s.environment == r.environment
      && s.actor_user_id == r.actor_user_id
      && s.idempotency_key == r.idempotency_key

  abbrev pub same_work : SubmitRequest lib → OperationRow lib → Bool
  same_work r o =
      o.environment == r.environment
      && o.operation_type == r.operation
      && o.dedupe_key == live_key r

  abbrev pub new_operation : SubmitRequest lib → OperationRow lib
  new_operation r = record {
    operation_id = r.operation_handle;
    environment = r.environment;
    operation_type = r.operation;
    dedupe_key = live_key r;
    scope = r.scope;
    payload = r.payload;
    state = queued;
    progress = zero_real;
    progress_detail = none;
    result = none;
    error_code = none;
    error_message = none;
    retryable = false;
    created_at = utc_timestamp r.now;
    updated_at = utc_timestamp r.now;
  }

  abbrev pub new_submission : SubmitRequest lib → String → SubmissionRow
  new_submission r operation_id = record {
    submission_id = r.job_handle;
    environment = r.environment;
    actor_user_id = r.actor_user_id;
    idempotency_key = r.idempotency_key;
    request_id = r.request_id;
    request_fingerprint = fingerprint r;
    operation_id = operation_id;
    created_at = utc_timestamp r.now;
  }

  -- `active_count >= max_active_operations`, where a maximum is given
  abbrev pub at_capacity : SubmitRequest lib → List (OperationRow lib) → Bool
  at_capacity r operations = elim r.max_active_operations [
    | none ↦ false
    | some limit ↦ leb limit (active_operation_count r.environment operations)
  ]

  -- The operation that the submission joins, or a new row: the operation's id, whether it was
  -- created, and the table.
  unfoldable pub join_or_create :
      SubmitRequest lib
      → Option (OperationRow lib)
      → List (OperationRow lib)
      → Result JobStoreError (String × Bool × List (OperationRow lib))
  join_or_create r (some o) operations = ok (o.operation_id, false, operations)
  join_or_create r none operations = do
    raise_if (at_capacity r operations) queue_full
    created ← insert_operation lib (new_operation r) operations
    ok (r.operation_handle, true, created)

  -- The part of `submit` behind the test for an earlier submission.
  unfoldable pub submit_new :
      SubmitRequest lib → Store lib → Result JobStoreError (SubmissionOutcome lib × Store lib)
  unfolding join_or_create
  submit_new r db = do
    (operation_id, created, operations) ←
        join_or_create r (find_first (same_work r) db.operations) db.operations
    submissions ← insert_submission lib (new_submission r operation_id) operations db.submissions
    let db' : Store lib = record db { operations = operations; submissions = submissions }
    job ← get r.job_handle r.environment db'
    ok (record { job = job; submission_created = true; operation_created = created }, db')

  -- An idempotency key that the caller has used before.
  unfoldable pub resubmit :
      SubmitRequest lib
      → SubmissionRow
      → Store lib
      → Result JobStoreError (SubmissionOutcome lib × Store lib)
  resubmit r s db = do
    raise_if (s.request_fingerprint != fingerprint r) idempotency_conflict
    job ← get s.submission_id r.environment db
    ok (record { job = job; submission_created = false; operation_created = false }, db)

  unfoldable pub submit :
      SubmitRequest lib → Store lib → Result JobStoreError (SubmissionOutcome lib × Store lib)
  unfolding submit_new resubmit
  submit r db = elim (find_first (same_caller r) db.submissions) [
    | none ↦ submit_new r db
    | some s ↦ resubmit r s db
  ]
