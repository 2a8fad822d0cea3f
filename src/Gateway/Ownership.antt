-- ===== src/Gateway/Ownership.antt =====
-- novo_chat/gateway/store.py: JobOwnershipStore. The table `job_owners` is the list of its rows; a JSON
-- column holds the value that its text encodes; a call that raises leaves the table as it was, since
-- the connection rolls back. SQLite's comparison of texts and Python's order of texts are parameters.
pub mod Scope
pub mod Rows
pub mod Keeps
pub mod Owner
use novo_chat.Base.{
  ℕ, String, Bool, true, false, not, ◌&&◌, ◌||◌, Option, none, some, List, [], ◌∷◌, ◌++◌, ◌==◌,
  ◌!=◌, string_eq, any, keep_if, find_first, length, ◌-◌, map, list_beq, if◌then◌else◌,
}
use novo_chat.Base.Result.{Result, ok, err, ◌>>=◌, ◌>>◌, raise_if}
use novo_chat.Protocol.Types.{NotebookScope, JobOperation, scope_eq}
use novo_chat.Gateway.Ownership.Scope.{
  TextOrder, OwnershipError, duplicate_notebook, ownership_collision, normalized_scope,
}

-- A row of `job_owners`; `scope` is none where `scope_json` is NULL.
pub record OwnerRow : Type 0 where
  pub job_id : String
  pub user_id : String
  pub operation : String
  pub notebook_ids : List String
  pub scope : Option (List NotebookScope)
  pub created_at : String

pub record OwnedJob : Type 0 where
  pub job_id : String
  pub user_id : String
  pub operation : String
  pub notebook_ids : List String
  pub scope : Option (List NotebookScope)
  pub created_at : String

-- The times of a call: the ISO text of now, and that of now less the retention.
pub record Clock : Type 0 where
  pub now : String
  pub cutoff : String

-- The arguments of `add`.
pub record AddRequest : Type 0 where
  pub job_id : String
  pub user_id : String
  pub operation : String
  pub scope : List NotebookScope

abbrev pub is_job : String → OwnerRow → Bool
is_job job_id row = row.job_id == job_id

-- `UPDATE job_owners SET scope_json = ? WHERE job_id = ? AND scope_json IS NULL`
abbrev pub fill_row : String → List NotebookScope → OwnerRow → OwnerRow
fill_row job_id scope row = elim row.scope [
  | none ↦ if is_job job_id row then record row { scope = some scope } else row
  | some _ ↦ row
]

-- `INSERT OR IGNORE`: the primary key is `job_id`
abbrev pub insert_or_ignore : OwnerRow → List OwnerRow → List OwnerRow
insert_or_ignore row rows = if any (is_job row.job_id) rows then rows else rows ++ row ∷ []

module _ (order : TextOrder) where
  open order use {before}

  -- `_purge_expired_connection`
  unfoldable pub purge_expired : Clock → List OwnerRow → List OwnerRow
  purge_expired clock = keep_if (λ row. not (before row.created_at clock.cutoff))

  -- `purge_expired`: the number of rows deleted as well
  unfoldable pub purge_expired_sync : Clock → List OwnerRow → ℕ × List OwnerRow
  unfolding purge_expired
  purge_expired_sync clock rows =
      let kept = purge_expired clock rows in (length rows - length kept, kept)

  -- `_scope_from_json`: the text is normalized when it is read
  unfoldable pub scope_from_json :
      Option (List NotebookScope) → Result OwnershipError (Option (List NotebookScope))
  scope_from_json none = ok none
  scope_from_json (some value) = do scope ← normalized_scope order value; ok (some scope)

  abbrev pub owned_job : OwnerRow → Option (List NotebookScope) → OwnedJob
  owned_job row scope = record {
    job_id = row.job_id;
    user_id = row.user_id;
    operation = row.operation;
    notebook_ids = row.notebook_ids;
    scope = scope;
    created_at = row.created_at;
  }

  -- The row that `add` would insert.
  abbrev pub new_row : Clock → AddRequest → List NotebookScope → OwnerRow
  new_row clock request scope = record {
    job_id = request.job_id;
    user_id = request.user_id;
    operation = request.operation;
    notebook_ids = map (λ item. item.notebook_id) scope;
    scope = some scope;
    created_at = clock.now;
  }

  abbrev pub is_other_owner : OwnerRow → OwnerRow → Bool
  is_other_owner existing row =
      existing.user_id != row.user_id
      || existing.operation != row.operation
      || not (list_beq existing.notebook_ids row.notebook_ids)

  -- The tests of `_add_sync` on the row it finds, and what it writes.
  unfoldable pub settle :
      OwnerRow
      → List NotebookScope
      → List OwnerRow
      → Option OwnerRow
      → Result OwnershipError (String × List OwnerRow)
  unfolding scope_from_json
  settle row scope rows none = err ownership_collision
  settle row scope rows (some existing) = do
    raise_if (is_other_owner existing row) ownership_collision
    existing_scope ← scope_from_json existing.scope
    elim existing_scope [
      | none ↦ ok (existing.created_at, map (fill_row row.job_id scope) rows)
      | some s ↦
          if list_beq s scope then ok (existing.created_at, rows) else err ownership_collision
    ]

  -- `_add_sync`
  unfoldable pub add_sync :
      Clock
      → OwnerRow
      → List NotebookScope
      → List OwnerRow
      → Result OwnershipError (String × List OwnerRow)
  unfolding purge_expired settle
  add_sync clock row scope rows =
      let written = insert_or_ignore row (purge_expired clock rows) in
      settle row scope written (find_first (is_job row.job_id) written)

  unfoldable pub add :
      Clock → AddRequest → List OwnerRow → Result OwnershipError OwnedJob × List OwnerRow
  unfolding add_sync
  add clock request rows = elim (normalized_scope order request.scope) [
    | err e ↦ (err e, rows)
    | ok scope ↦
        let row = new_row clock request scope in
        elim (add_sync clock row scope rows) [
          | err e ↦ (err e, rows)
          | ok (created_at, rows') ↦
              (ok (owned_job (record row { created_at = created_at }) (some scope)), rows')
        ]
  ]

  abbrev pub read_row : Option OwnerRow → Result OwnershipError (Option OwnedJob)
  read_row none = ok none
  read_row (some row) = elim (scope_from_json row.scope) [
    | err e ↦ err e
    | ok scope ↦ ok (some (owned_job row scope))
  ]

  unfoldable pub get :
      Clock → String → List OwnerRow → Result OwnershipError (Option OwnedJob) × List OwnerRow
  unfolding purge_expired scope_from_json
  get clock job_id rows =
      let kept = purge_expired clock rows in (read_row (find_first (is_job job_id) kept), kept)
