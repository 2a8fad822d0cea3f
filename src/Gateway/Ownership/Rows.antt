-- ===== src/Gateway/Ownership/Rows.antt =====
-- novo_chat/gateway/store.py: searches of the table by job, and the UPDATE that fills a scope in.
use novo_chat.Base.{
  String, ◌≡◌, refl, ap, ◌∙◌, inl, inr, Bool-cases, Option-cases, Bool, true, none, some, List, [],
  ◌∷◌, string_eq, keep_if, find_first, some_inj, map,
}
use novo_chat.Protocol.Types.{NotebookScope}
use novo_chat.Gateway.Ownership.{OwnerRow, OwnedJob, is_job, fill_row}

pub find_first-keep_if :
    {A : Type 0} (p q : A → Bool) (xs : List A) {x : A}
    → find_first p xs ≡ some x
    → q x ≡ true
    → find_first p (keep_if q xs) ≡ some x
find_first-keep_if p q [] h k = cc
find_first-keep_if p q (y ∷ xs) {x} h k = elim (Bool-cases (p y)) [
  | inl e ↦ rw (some_inj (rw e at h), k, ← some_inj (rw e at h), e) refl
  | inr e ↦
      let later = find_first-keep_if p q xs (rw e at h) k in
      elim (Bool-cases (q y)) [ inl f ↦ rw (f, e) later | inr f ↦ rw f later ]
]

-- The row that holds a job, with the scope as it is stored.
abbrev pub row_of : OwnedJob → List NotebookScope → OwnerRow
row_of owned stored = record {
  job_id = owned.job_id;
  user_id = owned.user_id;
  operation = owned.operation;
  notebook_ids = owned.notebook_ids;
  scope = some stored;
  created_at = owned.created_at;
}

abbrev pub Holds : OwnedJob → List NotebookScope → List OwnerRow → Type 0
Holds owned stored rows = find_first (is_job owned.job_id) rows ≡ some (row_of owned stored)

fill_row-job :
    (j k : String) (scope : List NotebookScope) (row : OwnerRow)
    → is_job j (fill_row k scope row) ≡ is_job j row
fill_row-job j k scope row = elim (Option-cases row.scope) [
  | inl e ↦ elim (Bool-cases (is_job k row)) [
    | inl f ↦ rw (fill_row, e, f) refl
    | inr f ↦ rw (fill_row, e, f) refl
  ]
  | inr (_, e) ↦ rw (fill_row, e) refl
]

fill_row_full :
    (k : String) (scope : List NotebookScope) (row : OwnerRow) {stored : List NotebookScope}
    → row.scope ≡ some stored
    → fill_row k scope row ≡ row
fill_row_full k scope row e = rw (fill_row, e) (ap (λ o. record row { scope = o }) e)

fill_row_empty :
    (j : String) (scope : List NotebookScope) (row : OwnerRow)
    → row.scope ≡ none
    → is_job j row ≡ true
    → fill_row j scope row ≡ record row { scope = some scope }
fill_row_empty j scope row e f = rw (fill_row, e, f) refl

pub Holds-fill :
    (owned : OwnedJob) (stored scope : List NotebookScope) (k : String) (rows : List OwnerRow)
    → Holds owned stored rows
    → Holds owned stored (map (fill_row k scope) rows)
Holds-fill owned stored scope k [] h = cc
Holds-fill owned stored scope k (row ∷ rows) h = elim (Bool-cases (is_job owned.job_id row)) [
  | inl e ↦
      let same = some_inj (rw e at h) in
      rw
        (
          fill_row-job owned.job_id k scope row,
          e,
          fill_row_full k scope row {stored = stored} (ap (λ r. r.scope) same),
          same,
        )
        refl
  | inr e ↦
      rw (fill_row-job owned.job_id k scope row, e)
        (Holds-fill owned stored scope k rows (rw e at h))
]

pub fill-found :
    (j : String) (scope : List NotebookScope) (rows : List OwnerRow) {row : OwnerRow}
    → find_first (is_job j) rows ≡ some row
    → row.scope ≡ none
    → find_first (is_job j) (map (fill_row j scope) rows) ≡ some (record row { scope = some scope })
fill-found j scope [] h k = cc
fill-found j scope (y ∷ rows) {row} h k = elim (Bool-cases (is_job j y)) [
  | inl e ↦
      let same = some_inj (rw e at h) in
      let empty = ap (λ (r : OwnerRow). r.scope) same ∙ k in
      rw (fill_row-job j j scope y, e, fill_row_empty j scope y empty e, same) refl
  | inr e ↦ rw (fill_row-job j j scope y, e) (fill-found j scope rows (rw e at h) k)
]
