-- ===== src/Gateway/Sync/Missing/Worker.antt =====
-- novo_chat/gateway/sync.py: `_missing_scope` on the answer that the worker's index status gives.
use novo_chat.Base.{
  ltb, string_eq, suc, String, or-true_left, or-true_right, ◌≡◌, refl, sym, ap, ◌∙◌, Bool, true,
  false, not, ◌||◌, Option, some, List, [], ◌∷◌, ◌++◌, nat_eq, ◌==◌, arith, inl, inr, Bool-cases,
  any, length, map, keep_if, All, All-mono, contains, distinct,
}
use text.Mathlib.TextPositions.{eq_refl}
use mathlib.Core.List.{append_assoc, append-nil}
use novo_chat.Base.Result.{ok}
use novo_chat.Protocol.Types.{NotebookScope, scope_eq}
use novo_chat.Jobs.Tables.Keys.{any-append}
use novo_chat.Jobs.{Library, Store}
use novo_chat.Jobs.Catalog.{active_index}
use novo_chat.Worker.{WorkerConfig, Parts, ArtifactStatus}
use novo_chat.Worker.Endpoints.{index_status}
use novo_chat.Worker.Api.{bind_request, validate_scope}
use novo_chat.Gateway.Sync.Missing.{
  StatusRow, ByKey, look_up, read_rows, find_missing, missing_scope,
}

-- A row of the worker's answer, as the gateway reads it.
abbrev pub status_row : NotebookScope × ArtifactStatus → Option StatusRow
status_row (entry, status) = some (record { key = entry; exact_ready = some status.exact_ready })

-- The answer for these scopes, where a status is known of each.
abbrev pub worker_rows :
    (NotebookScope → ArtifactStatus) → List NotebookScope → List (Option StatusRow)
worker_rows status scope = map status_row (map (λ entry. (entry, status entry)) scope)

or_false_parts : (a b : Bool) → (a || b) ≡ false → (a ≡ false) × (b ≡ false)
or_false_parts a b h = ground arith

or_true_second : (a b : Bool) → (a || b) ≡ true → a ≡ false → b ≡ true
or_true_second a b h k = ground arith

not_both : false ≡ true → ⊥
not_both h = cc

differs : (s t : NotebookScope) → (s == t) ≡ false → (t == s) ≡ false
differs s t h = elim (Bool-cases (t == s)) [
  | inl e ↦
      let same : t ≡ s = (scope_eq.equal_iff t s).0 e in
      absurd (not_both (sym h ∙ (scope_eq.equal_iff s t).1 (sym same)))
  | inr e ↦ e
]

module _ (status : NotebookScope → ArtifactStatus) where
  abbrev ready : NotebookScope → Bool
  ready entry = (status entry).exact_ready

  abbrev entries : List NotebookScope → ByKey
  entries = map (λ s. (s, ready s))

  -- Every scope of the list is new to the table.
  abbrev AreNew : ByKey → List NotebookScope → Type 0
  AreNew by_key scope = All (λ s. any (λ e. e.0 == s) by_key ≡ false) scope

  AreNew-concat :
      (by_key : ByKey) (entry : NotebookScope) (scope : List NotebookScope)
      → contains scope entry ≡ false
      → AreNew by_key scope
      → AreNew (by_key ++ (entry, ready entry) ∷ []) scope
  AreNew-concat by_key entry [] apart h = tt
  AreNew-concat by_key entry (s ∷ scope) apart h =
      let (here, later) = or_false_parts (entry == s) (contains scope entry) apart in
      (
        any-append (λ e. e.0 == s) by_key ((entry, ready entry) ∷ []) ∙ rw (h.0, here) refl,
        AreNew-concat by_key entry scope later h.1,
      )

  distinct_parts :
      (entry : NotebookScope) (scope : List NotebookScope)
      → distinct (entry ∷ scope) ≡ true
      → (contains scope entry ≡ false) × (distinct scope ≡ true)
  distinct_parts entry scope h = elim (Bool-cases (contains scope entry)) [
    | inl e ↦ absurd (not_both (rw e at h))
    | inr e ↦ (e, rw e at h)
  ]

  read_rows-entries :
      (by_key : ByKey) (scope : List NotebookScope)
      → distinct scope ≡ true
      → AreNew by_key scope
      → read_rows by_key (worker_rows status scope) ≡ ok (by_key ++ entries scope)
  unfolding read_rows
  read_rows-entries by_key [] apart h = ap ok (sym (append-nil by_key))
  read_rows-entries by_key (entry ∷ scope) apart h =
      let (alone, apart') = distinct_parts entry scope apart in
      rw h.0 (
        read_rows-entries (by_key ++ (entry, ready entry) ∷ []) scope apart'
          (AreNew-concat by_key entry scope alone h.1))
      ∙ ap ok (append_assoc by_key ((entry, ready entry) ∷ []) (entries scope))

  look_up-entries :
      (scope : List NotebookScope) (entry : NotebookScope)
      → contains scope entry ≡ true
      → look_up entry (entries scope) ≡ some (entry, ready entry)
  look_up-entries [] entry h = cc
  look_up-entries (s ∷ scope) entry h = elim (Bool-cases (s == entry)) [
    | inl e ↦ let same : s ≡ entry = (scope_eq.equal_iff s entry).0 e in rw (e, same) refl
    | inr e ↦
        rw e (look_up-entries scope entry (or_true_second (entry == s) _ h (differs s entry e)))
  ]

  -- The part of the scope that the loop has still to go through.
  find_missing-entries :
      (scope rest : List NotebookScope)
      → All (λ s. contains scope s ≡ true) rest
      → find_missing (entries scope) rest ≡ ok (keep_if (λ s. not (ready s)) rest)
  unfolding find_missing
  find_missing-entries scope [] h = refl
  find_missing-entries scope (entry ∷ rest) h =
      rw (look_up-entries scope entry h.0, find_missing-entries scope rest h.1)
        (elim (Bool-cases (ready entry)) [ inl e ↦ rw e refl | inr e ↦ rw e refl ])

length-worker_rows :
    (status : NotebookScope → ArtifactStatus) (scope : List NotebookScope)
    → length (worker_rows status scope) ≡ length scope
length-worker_rows status [] = refl
length-worker_rows status (entry ∷ scope) = ap suc (length-worker_rows status scope)

contains_more :
    (scope : List NotebookScope) (entry s : NotebookScope)
    → contains scope s ≡ true
    → contains (entry ∷ scope) s ≡ true
contains_more scope entry s h = rw h (or-true_right (s == entry) true refl)

contains_each : (scope : List NotebookScope) → All (λ s. contains scope s ≡ true) scope
contains_each [] = tt
contains_each (entry ∷ scope) = (
  or-true_left _ _ ((scope_eq.equal_iff entry entry).1 refl),
  All-mono _ _ scope (contains_more scope entry) (contains_each scope),
)

all_new :
    (status : NotebookScope → ArtifactStatus) (scope : List NotebookScope) → AreNew status [] scope
all_new status [] = tt
all_new status (s ∷ scope) = (refl, all_new status scope)

missing_scope-worker_rows :
    (status : NotebookScope → ArtifactStatus) (scope : List NotebookScope)
    → distinct scope ≡ true
    → missing_scope scope (some (worker_rows status scope))
      ≡ ok (keep_if (λ s. not (status s).exact_ready) scope)
unfolding missing_scope
missing_scope-worker_rows status scope apart =
    rw
      (
        length-worker_rows status scope,
        (nat_eq.equal_iff (length scope) (length scope)).1 refl,
        read_rows-entries status [] scope apart (all_new status scope),
      )
      (find_missing-entries status scope scope (contains_each scope))

module _ (lib : Library) (parts : Parts lib) (config : WorkerConfig) where
  open parts use {artifact_status}

  -- The status of the scope's artifact in these tables.
  abbrev pub status_in : Store lib → NotebookScope → ArtifactStatus
  status_in db entry = artifact_status (active_index lib entry config.environment db)

  -- To a request under its signed id, for a scope within the worker's limits and with no entry twice, the
  -- worker's index status answers, its tables are as they were, and the missing scope that the gateway
  -- reads from the answer is the entries whose active index in the worker's environment has no ready
  -- artifact, in order.
  pub missing_scope-index_status :
      (request_id : String) (scope : List NotebookScope) (db : Store lib)
      → ltb config.max_scope_entries (length scope) ≡ false
      → any (λ entry. not (contains config.index_schema_versions entry.index_schema_version)) scope
        ≡ false
      → distinct scope ≡ true
      → (answer : List (NotebookScope × ArtifactStatus)) × (index_status lib parts config
            (some request_id)
            request_id
            scope
            db
          ≡ (ok answer, db))
        × (missing_scope scope (some (map status_row answer))
            ≡ ok (keep_if (λ s. not (status_in db s).exact_ready) scope))
  unfolding index_status bind_request validate_scope
  missing_scope-index_status request_id scope db fits supported apart = (
    map (λ entry. (entry, status_in db entry)) scope,
    rw (eq_refl request_id, fits, supported) refl,
    missing_scope-worker_rows (status_in db) scope apart,
  )
