-- ===== src/Jobs/Valid.antt =====
-- novo_chat/jobs.py: what holds of the tables between two calls.
pub mod Updates
pub mod Bulk
pub mod Submissions
pub mod Deletions
pub mod Indexes
use novo_chat.Base.{◌≡◌, true, ◌&&◌, Bool, All, any, ◌==◌, string_eq}
use novo_chat.Jobs.{Library, SubmissionRow, OperationRow, Store}
use novo_chat.Jobs.Tables.{same_key, submission_conflict, index_conflict}
use novo_chat.Jobs.Tables.Keys.{Free, same_id}

module _ (lib : Library) where
  -- The operation that a submission refers to, in the submission's environment.
  abbrev pub links : SubmissionRow → OperationRow lib → Bool
  links s o = o.operation_id == s.operation_id && o.environment == s.environment

  abbrev pub owns : OperationRow lib → SubmissionRow → Bool
  owns o s = s.operation_id == o.operation_id

  -- The primary keys and UNIQUE constraints of the three tables hold, every submission has its operation, and every
  -- operation has a submission.
  pub record IsValid (db : Store lib) : Type 0 where
    pub ids : Free (same_id lib) db.operations
    pub keys : Free (same_key lib) db.operations
    pub handles : Free submission_conflict db.submissions
    pub slots : Free index_conflict db.indexes
    pub linked : All (λ s. any (links s) db.operations ≡ true) db.submissions
    pub owned : All (λ o. any (owns o) db.submissions ≡ true) db.operations
