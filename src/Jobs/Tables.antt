-- ===== src/Jobs/Tables.antt =====
-- novo_chat/jobs.py: the table schema, as the constraints that SQLite checks on each statement.
pub mod Keys
pub mod Statements
use novo_chat.Base.{
  Bool, true, false, not, ◌&&◌, ◌||◌, Option, none, some, List, [], ◌∷◌, ◌++◌, any, ◌==◌, ◌!=◌,
  string_eq, if◌then◌else◌, keep_if,
}
use novo_chat.Base.Result.{Result, ok, err}
use novo_chat.Protocol.Types.{JobState, queued, running, succeeded, failed, canceled, operation_eq}
use novo_chat.Jobs.{Library, JobStoreError, integrity_error, SubmissionRow, IndexRow, OperationRow}

-- `UPDATE … WHERE p`
module _ {A : Type 0} where
  abbrev pub update_where : (A → Bool) → (A → A) → List A → List A
  update_where p f [] = []
  update_where p f (x ∷ xs) = (if p x then f x else x) ∷ update_where p f xs

  -- `SELECT … WHERE p`, by `fetchone`
  abbrev pub fetch_one : {E : Type 0} → E → Option A → Result E A
  fetch_one e none = err e
  fetch_one e (some a) = ok a

-- `state IN (queued, running)`
abbrev pub is_active : JobState → Bool
is_active queued = true
is_active running = true
is_active _ = false

-- `state IN (succeeded, failed, canceled)`
abbrev pub is_terminal : JobState → Bool
is_terminal succeeded = true
is_terminal failed = true
is_terminal canceled = true
is_terminal _ = false

-- UNIQUE(environment, actor_user_id, idempotency_key)
abbrev pub same_submission : SubmissionRow → SubmissionRow → Bool
same_submission a b =
    a.environment == b.environment
    && a.actor_user_id == b.actor_user_id
    && a.idempotency_key == b.idempotency_key

abbrev pub submission_conflict : SubmissionRow → SubmissionRow → Bool
submission_conflict a b = a.submission_id == b.submission_id || same_submission a b

-- PRIMARY KEY(environment, notebook_id, index_schema_version)
abbrev pub index_conflict : IndexRow → IndexRow → Bool
index_conflict a b =
    a.environment == b.environment
    && a.notebook_id == b.notebook_id
    && a.index_schema_version == b.index_schema_version

module _ (lib : Library) where
  open lib use {leb_real, zero_real, one_real}

  -- CHECK(progress >= 0.0 AND progress <= 1.0)
  unfoldable pub progress_ok : lib.Real → Bool
  progress_ok p = leb_real zero_real p && leb_real p one_real

  -- UNIQUE(environment, operation_type, dedupe_key)
  unfoldable pub same_key : OperationRow lib → OperationRow lib → Bool
  same_key a b =
      a.environment == b.environment
      && a.operation_type == b.operation_type
      && a.dedupe_key == b.dedupe_key

  -- PRIMARY KEY, or the UNIQUE constraint
  abbrev pub operation_conflict : OperationRow lib → OperationRow lib → Bool
  operation_conflict a b = a.operation_id == b.operation_id || same_key a b

  -- INSERT INTO operations
  unfoldable pub insert_operation :
      OperationRow lib → List (OperationRow lib) → Result JobStoreError (List (OperationRow lib))
  unfolding progress_ok
  insert_operation row rows =
      if any (operation_conflict row) rows || not (progress_ok row.progress)
      then err integrity_error
      else ok (rows ++ row ∷ [])

  -- INSERT INTO submissions, whose operation_id REFERENCES operations
  unfoldable pub insert_submission :
      SubmissionRow
      → List (OperationRow lib)
      → List SubmissionRow
      → Result JobStoreError (List SubmissionRow)
  insert_submission row operations rows =
      if any (submission_conflict row) rows
        || not (any (λ o. o.operation_id == row.operation_id) operations)
      then err integrity_error
      else ok (rows ++ row ∷ [])

  -- UPDATE operations … WHERE operation_id = ?, which may change `dedupe_key`
  unfoldable pub update_operation :
      OperationRow lib → List (OperationRow lib) → Result JobStoreError (List (OperationRow lib))
  unfolding progress_ok
  update_operation row rows =
      if any (λ o. o.operation_id != row.operation_id && same_key o row) rows
        || not (progress_ok row.progress)
      then err integrity_error
      else ok (update_where (λ o. o.operation_id == row.operation_id) (λ _. row) rows)

  -- UPDATE operations … WHERE p, row after row: each new key is checked against the rows before it,
  -- already updated, and those behind it.
  unfoldable pub update_checked :
      (OperationRow lib → Bool)
      → (OperationRow lib → OperationRow lib)
      → List (OperationRow lib)
      → List (OperationRow lib)
      → Result JobStoreError (List (OperationRow lib))
  update_checked p f done [] = ok done
  update_checked p f done (o ∷ rest) =
      let o' = if p o then f o else o in
      let checked = update_checked p f (done ++ o' ∷ []) rest in
      if p o && (any (same_key o') done || any (same_key o') rest)
      then err integrity_error
      else checked

  -- DELETE FROM operations WHERE p, which no submission may refer to
  unfoldable pub delete_operations :
      (OperationRow lib → Bool)
      → List SubmissionRow
      → List (OperationRow lib)
      → Result JobStoreError (List (OperationRow lib))
  delete_operations p submissions rows =
      if any (λ o. p o && any (λ s. s.operation_id == o.operation_id) submissions) rows
      then err integrity_error
      else ok (keep_if (λ o. not (p o)) rows)
