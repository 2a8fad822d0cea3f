-- ===== src/Jobs/Valid/Indexes.antt =====
-- novo_chat/jobs.py: `activate_index`, `activate_indexes` and the retention snapshot keep the primary
-- key of `active_indexes`.
use novo_chat.Base.{
  String, ◌≡◌, refl, ap, Bool, true, false, List, [], ◌∷◌, string_eq, eq_iff, arith, inl, inr,
  Bool-cases, any, keep_if, not, if◌then◌else◌,
}
use novo_chat.Protocol.Types.{NotebookScope}
use novo_chat.Jobs.{IndexRow}
use novo_chat.Jobs.Tables.{index_conflict}
use novo_chat.Jobs.Tables.Keys.{Free, Free-keep_if}
use novo_chat.Jobs.Catalog.{index_key, upsert_index, upsert_entry, upsert_all}

-- The three columns of the key.
pub index_key-columns :
    (env : String) (scope : NotebookScope) (row : IndexRow)
    → index_key env scope row ≡ true
    → (row.environment ≡ env)
      × (row.notebook_id ≡ scope.notebook_id)
      × (row.index_schema_version ≡ scope.index_schema_version)
index_key-columns env scope row h = ground (
  arith,
  eq_iff row.environment env,
  eq_iff row.notebook_id scope.notebook_id,
  eq_iff row.index_schema_version scope.index_schema_version,
)

-- The two statements do the same.
pub upsert_entry-upsert_index :
    (env ts : String) (scope : NotebookScope) (artifact : String) (rows : List IndexRow)
    → upsert_entry env ts scope artifact rows ≡ upsert_index env ts scope artifact rows
unfolding upsert_entry upsert_index
upsert_entry-upsert_index env ts scope artifact [] = refl
upsert_entry-upsert_index env ts scope artifact (row ∷ rows) =
    elim (Bool-cases (index_key env scope row)) [
      | inl e ↦
          let (same_env, same_notebook, same_schema) = index_key-columns env scope row e in
          rw (e, same_env, same_notebook, same_schema) refl
      | inr e ↦
          rw e (ap (λ rest. row ∷ rest) (upsert_entry-upsert_index env ts scope artifact rows))
    ]

any-upsert_index :
    (env ts : String) (scope : NotebookScope) (artifact : String) (x : IndexRow)
    (rows : List IndexRow)
    → index_key env scope x ≡ false
    → any (index_conflict x) rows ≡ false
    → any (index_conflict x) (upsert_index env ts scope artifact rows) ≡ false
unfolding upsert_index
any-upsert_index env ts scope artifact x [] k h = ground (arith, k)
any-upsert_index env ts scope artifact x (row ∷ rows) k h =
    ground (arith, k, any-upsert_index env ts scope artifact x rows k)

pub Free-upsert_index :
    (env ts : String) (scope : NotebookScope) (artifact : String) (rows : List IndexRow)
    → Free index_conflict rows
    → Free index_conflict (upsert_index env ts scope artifact rows)
unfolding upsert_index
Free-upsert_index env ts scope artifact [] h = (refl, tt)
Free-upsert_index env ts scope artifact (row ∷ rows) h =
    elim (Bool-cases (index_key env scope row)) [
      | inl e ↦
          let (same_env, same_notebook, same_schema) = index_key-columns env scope row e in
          rw e (rw (same_env, same_notebook, same_schema) at h.0, h.1)
      | inr e ↦ rw e (
        any-upsert_index env ts scope artifact row rows e h.0,
        Free-upsert_index env ts scope artifact rows h.1,
      )
    ]

pub Free-upsert_all :
    (env ts : String) (entries : List (NotebookScope × String)) (rows : List IndexRow)
    → Free index_conflict rows
    → Free index_conflict (upsert_all env ts entries rows)
unfolding upsert_all
Free-upsert_all env ts [] rows h = h
Free-upsert_all env ts ((scope, artifact) ∷ entries) rows h =
    Free-upsert_all env ts entries (upsert_entry env ts scope artifact rows) (
      rw (upsert_entry-upsert_index env ts scope artifact rows)
        (Free-upsert_index env ts scope artifact rows h))

-- The rows that the retention snapshot leaves.
pub Free-kept :
    (idle : Bool) (expired : IndexRow → Bool) (rows : List IndexRow)
    → Free index_conflict rows
    → Free index_conflict (if idle then keep_if (λ row. not (expired row)) rows else rows)
Free-kept true expired rows h = Free-keep_if index_conflict _ rows h
Free-kept false expired rows h = h
