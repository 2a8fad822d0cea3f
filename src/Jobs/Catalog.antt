-- ===== src/Jobs/Catalog.antt =====
-- novo_chat/jobs.py: the active-index catalog, `activate_index`, `activate_indexes`, `active_index`
-- and `index_status`.
use novo_chat.Base.{
  String, Bool, false, ◌&&◌, Option, none, some, List, [], ◌∷◌, map, ◌==◌, string_eq, if◌then◌else◌,
  find_first,
}
use novo_chat.Protocol.Types.{NotebookScope}
use novo_chat.Jobs.{Library, IndexRow, Store}

pub record ActiveIndex : Type 0 where
  pub scope : NotebookScope
  pub artifact_id : String
  pub activated_at : String

-- PRIMARY KEY(environment, notebook_id, index_schema_version)
abbrev pub index_key : String → NotebookScope → IndexRow → Bool
index_key environment scope row =
    row.environment == environment
    && row.notebook_id == scope.notebook_id
    && row.index_schema_version == scope.index_schema_version

abbrev pub index_row : String → String → NotebookScope → String → IndexRow
index_row environment timestamp scope artifact_id = record {
  environment = environment;
  notebook_id = scope.notebook_id;
  index_schema_version = scope.index_schema_version;
  content_revision = scope.content_revision;
  artifact_id = artifact_id;
  activated_at = timestamp;
}

-- INSERT … ON CONFLICT … DO UPDATE, at one primary key
unfoldable pub upsert_index :
    String → String → NotebookScope → String → List IndexRow → List IndexRow
upsert_index environment timestamp scope artifact_id [] =
    index_row environment timestamp scope artifact_id ∷ []
upsert_index environment timestamp scope artifact_id (row ∷ rows) =
    if index_key environment scope row
    then index_row environment timestamp scope artifact_id ∷ rows
    else row ∷ upsert_index environment timestamp scope artifact_id rows

-- The statement of `activate_indexes`, for one entry: the row in conflict keeps its key.
unfoldable pub upsert_entry :
    String → String → NotebookScope → String → List IndexRow → List IndexRow
upsert_entry environment timestamp scope artifact_id [] =
    record {
      environment = environment;
      notebook_id = scope.notebook_id;
      index_schema_version = scope.index_schema_version;
      content_revision = scope.content_revision;
      artifact_id = artifact_id;
      activated_at = timestamp;
    }
    ∷ []
upsert_entry environment timestamp scope artifact_id (row ∷ rows) =
    let updated : IndexRow = record row {
      content_revision = scope.content_revision;
      artifact_id = artifact_id;
      activated_at = timestamp;
    } in
    let later = upsert_entry environment timestamp scope artifact_id rows in
    if row.environment == environment
      && row.notebook_id == scope.notebook_id
      && row.index_schema_version == scope.index_schema_version
    then updated ∷ rows
    else row ∷ later

-- The loop of `activate_indexes`.
unfoldable pub upsert_all :
    String → String → List (NotebookScope × String) → List IndexRow → List IndexRow
unfolding upsert_entry
upsert_all environment timestamp [] rows = rows
upsert_all environment timestamp ((scope, artifact_id) ∷ entries) rows =
    upsert_all environment timestamp entries
      (upsert_entry environment timestamp scope artifact_id rows)

unfoldable pub find_index : String → NotebookScope → List IndexRow → Option IndexRow
find_index environment scope = find_first (index_key environment scope)

abbrev pub exact_index : NotebookScope → Option IndexRow → Option ActiveIndex
exact_index scope none = none
exact_index scope (some row) =
    if row.content_revision == scope.content_revision
    then some
        (record { scope = scope; artifact_id = row.artifact_id; activated_at = row.activated_at })
    else none

-- The SELECT of `index_status`: the content revision of the row, by `fetchone`.
unfoldable pub find_revision : String → NotebookScope → List IndexRow → Option String
find_revision environment entry [] = none
find_revision environment entry (row ∷ rows) =
    let later = find_revision environment entry rows in
    if row.environment == environment
      && row.notebook_id == entry.notebook_id
      && row.index_schema_version == entry.index_schema_version
    then some row.content_revision
    else later

-- `row is not None and … == entry.content_revision`
abbrev pub exact_ready : NotebookScope → Option String → Bool
exact_ready entry none = false
exact_ready entry (some revision) = revision == entry.content_revision

module _ (lib : Library) where
  open lib use {Real, utc_timestamp}

  unfoldable pub activate_index : NotebookScope → String → String → Real → Store lib → Store lib
  activate_index scope environment artifact_id now db = record db {
    indexes = upsert_index environment (utc_timestamp now) scope artifact_id db.indexes;
  }

  unfoldable pub activate_indexes :
      List (NotebookScope × String) → String → Real → Store lib → Store lib
  activate_indexes entries environment now db = record db {
    indexes = upsert_all environment (utc_timestamp now) entries db.indexes;
  }

  unfoldable pub active_index : NotebookScope → String → Store lib → Option ActiveIndex
  active_index scope environment db = exact_index scope (find_index environment scope db.indexes)

  unfoldable pub index_status : List NotebookScope → String → Store lib → List Bool
  index_status scopes environment db =
      map (λ entry. exact_ready entry (find_revision environment entry db.indexes)) scopes
