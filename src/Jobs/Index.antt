-- ===== src/Jobs/Index.antt =====
-- novo_chat/jobs.py: the active-index catalog as a map from (environment, notebook, schema).
pub mod Status
use novo_chat.Base.{
  String, ◌≡◌, refl, ap, ◌∙◌, Bool, true, false, Option, none, some, List, ◌∷◌, [], ◌&&◌, map,
  arith, eq_iff, ◌==◌, string_eq, inl, inr, Bool-cases, if◌then◌else◌,
}
use novo_chat.Protocol.Types.{NotebookScope}
use novo_chat.Jobs.{Library, IndexRow, Store}
use novo_chat.Jobs.Tables.Keys.{==_comm}
use novo_chat.Jobs.Valid.Indexes.{upsert_entry-upsert_index}
use novo_chat.Jobs.Catalog.{
  ActiveIndex, index_key, index_row, upsert_index, upsert_all, find_index, exact_index,
  activate_index, activate_indexes, active_index,
}

-- The two scopes name the same slot of the catalog.
abbrev pub same_slot : String → NotebookScope → String → NotebookScope → Bool
same_slot env a env' b =
    env == env'
    && a.notebook_id == b.notebook_id
    && a.index_schema_version == b.index_schema_version

index_key-moved :
    (env env' : String) (a b : NotebookScope) (row : IndexRow)
    → index_key env a row ≡ true
    → index_key env' b row ≡ same_slot env a env' b
index_key-moved env env' a b row h = ground (
  arith,
  eq_iff row.environment env,
  eq_iff row.notebook_id a.notebook_id,
  eq_iff row.index_schema_version a.index_schema_version,
)

slot-apart :
    (env env' : String) (a b : NotebookScope) (row : IndexRow)
    → index_key env' b row ≡ true
    → index_key env a row ≡ false
    → same_slot env a env' b ≡ false
slot-apart env env' a b row h k = ground (
  arith,
  eq_iff row.environment env',
  eq_iff row.notebook_id b.notebook_id,
  eq_iff row.index_schema_version b.index_schema_version,
  ==_comm env env',
  ==_comm a.notebook_id b.notebook_id,
  ==_comm a.index_schema_version b.index_schema_version,
)

if_twice :
    {A : Type 0} (c : Bool) (x y z : A)
    → (if c then x else z) ≡ (if c then x else (if c then y else z))
if_twice true x y z = refl
if_twice false x y z = refl

find_index-upsert :
    (env env' ts artifact : String) (a b : NotebookScope) (rows : List IndexRow)
    → find_index env' b (upsert_index env ts a artifact rows) ≡ (
        if same_slot env a env' b
        then some (index_row env ts a artifact)
        else find_index env' b rows)
unfolding find_index upsert_index
find_index-upsert env env' ts artifact a b [] = refl
find_index-upsert env env' ts artifact a b (row ∷ rows) = elim (Bool-cases (index_key env a row)) [
  | inl here ↦
      rw (here, index_key-moved env env' a b row here) (if_twice (same_slot env a env' b) _ _ _)
  | inr other ↦ elim (Bool-cases (index_key env' b row)) [
    | inl sought ↦ rw (other, sought, slot-apart env env' a b row sought other)
    | inr passed ↦ rw (other, passed) (find_index-upsert env env' ts artifact a b rows)
  ]
]

module _ (lib : Library) where
  -- After `activate_index a` in `env`, a lookup of `b` in `env'` finds the new artifact exactly if
  -- the environment, notebook, schema version and content revision are the same; the same notebook
  -- and schema at another revision finds nothing; every other lookup is as before.
  pub active_index-activate_index :
      (a b : NotebookScope) (env env' artifact : String) (now : lib.Real) (db : Store lib)
      → active_index lib b env' (activate_index lib a env artifact now db) ≡ (
          if same_slot env a env' b
          then (if a.content_revision == b.content_revision
              then some (record {
                scope = b;
                artifact_id = artifact;
                activated_at = lib.utc_timestamp now;
              })
              else none)
          else active_index lib b env' db)
  unfolding active_index activate_index
  active_index-activate_index a b env env' artifact now db =
      rw (find_index-upsert env env' (lib.utc_timestamp now) artifact a b db.indexes) (ground arith)

  -- The activations of a list, one call after another.
  activate_each : List (NotebookScope × String) → String → lib.Real → Store lib → Store lib
  activate_each [] env now db = db
  activate_each ((scope, artifact) ∷ entries) env now db =
      activate_each entries env now (activate_index lib scope env artifact now db)

  activate_indexes-each :
      (entries : List (NotebookScope × String)) (env : String) (now : lib.Real) (db : Store lib)
      → activate_indexes lib entries env now db ≡ activate_each entries env now db
  unfolding activate_indexes activate_each activate_index upsert_all
  activate_indexes-each [] env now db = refl
  activate_indexes-each ((scope, artifact) ∷ entries) env now db =
      rw (upsert_entry-upsert_index env (lib.utc_timestamp now) scope artifact db.indexes)
        (activate_indexes-each entries env now (activate_index lib scope env artifact now db))

  -- The last entry of a list that names the slot of `b` in `env'`, if `env` is that environment.
  abbrev pub last_entry :
      String
      → NotebookScope
      → String
      → List (NotebookScope × String)
      → Option (NotebookScope × String)
  last_entry env b env' [] = none
  last_entry env b env' ((a, artifact) ∷ entries) = elim (last_entry env b env' entries) [
    | some later ↦ some later
    | none ↦ if same_slot env a env' b then some (a, artifact) else none
  ]

  -- What a lookup of `b` finds of an entry for its slot, or else in the old tables.
  abbrev pub found_in :
      NotebookScope
      → lib.Real
      → Option (NotebookScope × String)
      → Option ActiveIndex
      → Option ActiveIndex
  found_in b now none before = before
  found_in b now (some (a, artifact)) before =
      if a.content_revision == b.content_revision
      then some (record { scope = b; artifact_id = artifact; activated_at = lib.utc_timestamp now })
      else none

  active_index-activate_each :
      (b : NotebookScope) (env env' : String) (now : lib.Real)
      (entries : List (NotebookScope × String)) (db : Store lib)
      → active_index lib b env' (activate_each entries env now db)
        ≡ found_in b now (last_entry env b env' entries) (active_index lib b env' db)
  unfolding activate_each
  active_index-activate_each b env env' now [] db = refl
  active_index-activate_each b env env' now ((a, artifact) ∷ entries) db =
      active_index-activate_each b env env' now entries (activate_index lib a env artifact now db)
      ∙ later_or (last_entry env b env' entries) (active_index lib b env' db)
          (active_index-activate_index a b env env' artifact now db)
    where
      later_or :
          (later : Option (NotebookScope × String)) (before : Option ActiveIndex)
          {after : Option ActiveIndex}
          → after ≡ (
              if same_slot env a env' b
              then (if a.content_revision == b.content_revision
                  then some (record {
                    scope = b;
                    artifact_id = artifact;
                    activated_at = lib.utc_timestamp now;
                  })
                  else none)
              else before)
          → found_in b now later after
            ≡ found_in b now
                (elim later [
                  | some e ↦ some e
                  | none ↦ if same_slot env a env' b then some (a, artifact) else none
                ])
                before
      later_or (some e) before h = refl
      later_or none before h = elim (Bool-cases (same_slot env a env' b)) [
        | inl e ↦ rw e (rw e at h)
        | inr e ↦ rw e (rw e at h)
      ]

  -- After `activate_indexes` in `env`, a lookup of `b` in `env'` finds the artifact of the last entry for
  -- its environment, notebook and schema version, if that entry is of the same content revision; where
  -- the last such entry is of another revision it finds nothing; without one it finds what it did before.
  pub active_index-activate_indexes :
      (b : NotebookScope) (env env' : String) (now : lib.Real)
      (entries : List (NotebookScope × String)) (db : Store lib)
      → active_index lib b env' (activate_indexes lib entries env now db)
        ≡ found_in b now (last_entry env b env' entries) (active_index lib b env' db)
  active_index-activate_indexes b env env' now entries db =
      ap (active_index lib b env') (activate_indexes-each entries env now db)
      ∙ active_index-activate_each b env env' now entries db
