-- ===== src/Jobs/Index/Status.antt =====
-- novo_chat/jobs.py: `index_status` and `active_index` on tables with their primary key.
use novo_chat.Base.{
  String, ◌≡◌, refl, ap, Bool, true, false, ◌&&◌, Option, none, some, List, [], ◌∷◌, ◌==◌,
  string_eq, eq_iff, arith, inl, inr, Bool-cases, any, map,
}
use novo_chat.Protocol.Types.{NotebookScope}
use novo_chat.Jobs.{Library, IndexRow, Store}
use novo_chat.Jobs.Tables.{index_conflict}
use novo_chat.Jobs.Tables.Keys.{Free}
use novo_chat.Jobs.Valid.{IsValid}
use novo_chat.Jobs.Valid.Indexes.{index_key-columns}
use novo_chat.Jobs.Catalog.{
  ActiveIndex, index_key, find_index, find_revision, exact_index, exact_ready, active_index,
  index_status,
}

-- The row is of the scope, its content revision included.
abbrev pub is_exact : String → NotebookScope → IndexRow → Bool
is_exact env scope row = index_key env scope row && row.content_revision == scope.content_revision

abbrev pub is_some : Option ActiveIndex → Bool
is_some none = false
is_some (some _) = true

-- No row of another row's key is of the scope.
none_exact :
    (env : String) (scope : NotebookScope) (row : IndexRow) (rows : List IndexRow)
    → index_key env scope row ≡ true
    → any (index_conflict row) rows ≡ false
    → any (is_exact env scope) rows ≡ false
none_exact env scope row [] k h = refl
none_exact env scope row (other ∷ rows) k h = ground (
  arith,
  none_exact env scope row rows k,
  index_key-columns env scope row k,
  eq_iff row.environment other.environment,
  eq_iff row.notebook_id other.notebook_id,
  eq_iff row.index_schema_version other.index_schema_version,
  index_key-columns env scope other,
)

exact_ready-find_revision :
    (env : String) (scope : NotebookScope) (rows : List IndexRow)
    → Free index_conflict rows
    → exact_ready scope (find_revision env scope rows) ≡ any (is_exact env scope) rows
unfolding find_revision
exact_ready-find_revision env scope [] h = refl
exact_ready-find_revision env scope (row ∷ rows) h = elim (Bool-cases (index_key env scope row)) [
  | inl e ↦ rw (e, none_exact env scope row rows e h.0) (ground arith)
  | inr e ↦ rw e (exact_ready-find_revision env scope rows h.1)
]

is_some-exact_index :
    (scope : NotebookScope) (row : IndexRow)
    → is_some (exact_index scope (some row)) ≡ (row.content_revision == scope.content_revision)
is_some-exact_index scope row = ground arith

is_some-find_index :
    (env : String) (scope : NotebookScope) (rows : List IndexRow)
    → Free index_conflict rows
    → is_some (exact_index scope (find_index env scope rows)) ≡ any (is_exact env scope) rows
unfolding find_index
is_some-find_index env scope [] h = refl
is_some-find_index env scope (row ∷ rows) h = elim (Bool-cases (index_key env scope row)) [
  | inl e ↦ rw (e, none_exact env scope row rows e h.0) (ground arith)
  | inr e ↦ rw e (is_some-find_index env scope rows h.1)
]

module _ (lib : Library) where
  -- Whether a row of the table has the environment and all three columns of the scope.
  abbrev pub has_exact : Store lib → String → NotebookScope → Bool
  has_exact db env scope = any (is_exact env scope) db.indexes

  -- On valid tables `index_status` reports of each scope, in order, whether a row has the environment
  -- and the scope's notebook, schema version and content revision, and `active_index` finds an index for
  -- exactly those.
  pub index_status-exact :
      (scopes : List NotebookScope) (env : String) (db : Store lib)
      → IsValid lib db
      → (index_status lib scopes env db ≡ map (has_exact db env) scopes)
        × (map (λ scope. is_some (active_index lib scope env db)) scopes
            ≡ map (has_exact db env) scopes)
  unfolding index_status active_index
  index_status-exact [] env db valid = (refl, refl)
  index_status-exact (scope ∷ scopes) env db valid =
      let (status, active) = index_status-exact scopes env db valid in
      (
        rw (exact_ready-find_revision env scope db.indexes valid.slots)
            (ap (λ rest. has_exact db env scope ∷ rest) status),
        rw (is_some-find_index env scope db.indexes valid.slots)
            (ap (λ rest. has_exact db env scope ∷ rest) active),
      )
