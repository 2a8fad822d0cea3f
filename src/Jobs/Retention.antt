-- ===== src/Jobs/Retention.antt =====
-- novo_chat/jobs.py: `purge_terminal_operations` and `storage_retention_snapshot`.
use novo_chat.Base.{
  ℕ, String, Bool, not, ◌&&◌, List, [], ◌∷◌, map, ◌==◌, ◌!=◌, string_eq, nat_eq, if◌then◌else◌, any,
  keep_if, count_if,
}
use novo_chat.Base.Result.{Result, ok, ◌>>=◌}
use novo_chat.Protocol.Types.{NotebookScope}
use novo_chat.Jobs.{Library, JobStoreError, SubmissionRow, IndexRow, OperationRow, Store}
use novo_chat.Jobs.Tables.{is_terminal, delete_operations}
use novo_chat.Jobs.Submit.{active_operation_count}

pub record StorageRetentionSnapshot : Type 0 where
  pub idle : Bool
  pub expired_indexes : ℕ
  pub active_scopes : List NotebookScope
  pub active_artifact_ids : List String

abbrev pub row_scope : IndexRow → NotebookScope
row_scope row = record {
  notebook_id = row.notebook_id;
  content_revision = row.content_revision;
  index_schema_version = row.index_schema_version;
}

-- ORDER BY notebook_id, index_schema_version, for an order on texts that SQLite supplies.
module _ (row_before : IndexRow → IndexRow → Bool) where
  pub insert_sorted : IndexRow → List IndexRow → List IndexRow
  insert_sorted row [] = row ∷ []
  insert_sorted row (other ∷ rows) =
      let later = insert_sorted row rows in
      if row_before other row then other ∷ later else row ∷ other ∷ rows

  unfoldable pub order_rows : List IndexRow → List IndexRow
  unfolding insert_sorted
  order_rows [] = []
  order_rows (row ∷ rows) = insert_sorted row (order_rows rows)

module _ (lib : Library) where
  open lib use {Real, utc_timestamp, julian_before}

  -- environment = ? AND state IN (terminal) AND julianday(updated_at) < julianday(?)
  abbrev pub purgeable : String → String → OperationRow lib → Bool
  purgeable environment cutoff o =
      o.environment == environment && is_terminal o.state && julian_before o.updated_at cutoff

  -- The number of operations deleted, and the store.
  unfoldable pub purge_terminal_operations :
      String → Real → Store lib → Result JobStoreError (ℕ × Store lib)
  purge_terminal_operations environment updated_before db = do
    let purged : OperationRow lib → Bool = purgeable environment (utc_timestamp updated_before)
    let submissions : List SubmissionRow =
        keep_if (λ s. not (any (λ o. purged o && o.operation_id == s.operation_id) db.operations))
          db.submissions
    operations ← delete_operations lib purged submissions db.operations
    ok (
      count_if purged db.operations,
      record db { operations = operations; submissions = submissions },
    )

  -- environment = ? AND julianday(activated_at) < julianday(?)
  abbrev pub expired_index : String → String → IndexRow → Bool
  expired_index environment cutoff row =
      row.environment == environment && julian_before row.activated_at cutoff

  unfoldable pub storage_retention_snapshot :
      (IndexRow → IndexRow → Bool)
      → String
      → Real
      → Store lib
      → StorageRetentionSnapshot × Store lib
  storage_retention_snapshot row_before environment activated_before db =
      let expired = expired_index environment (utc_timestamp activated_before) in
      let idle = active_operation_count lib environment db.operations == 0 in
      let kept = if idle then keep_if (λ row. not (expired row)) db.indexes else db.indexes in
      let rows = order_rows row_before (keep_if (λ row. row.environment == environment) kept) in
      (
        record {
          idle = idle;
          expired_indexes = if idle then count_if expired db.indexes else 0;
          active_scopes = map row_scope rows;
          active_artifact_ids =
              keep_if (λ artifact. artifact != "") (map (λ row. row.artifact_id) rows);
        },
        record db { indexes = kept },
      )
