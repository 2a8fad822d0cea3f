-- ===== src/Gateway/Ownership/Owner.antt =====
-- novo_chat/gateway/store.py: `get`, and a second `add`, after an `add`.
use novo_chat.Base.{
  String, ◌≡◌, ◌≢◌, refl, sym, ap, ◌∙◌, ◌⊎◌, inl, inr, Bool-cases, Option-cases, true, false, some,
  List, string_eq, eq_iff, arith, find_first, find_first-eq-some, list_beq_eq,
}
use novo_chat.Base.Result.{ok, err, ok-injective, err-ne-ok, Result-cases}
use novo_chat.Protocol.Types.{NotebookScope}
use novo_chat.Gateway.Ownership.Scope.{
  TextOrder, OwnershipError, duplicate_notebook, ownership_collision, normalized_scope,
  normalized_scope-again,
}
use novo_chat.Gateway.Ownership.{
  OwnerRow, OwnedJob, Clock, AddRequest, is_job, insert_or_ignore, purge_expired, scope_from_json,
  owned_job, new_row, is_other_owner, settle, add_sync, add, read_row, get,
}
use novo_chat.Gateway.Ownership.Rows.{row_of, Holds, fill-found}
use novo_chat.Gateway.Ownership.Keeps.{
  Call, run, Fresh, Settled, settle-ok, run-Holds, purge_expired-Holds, insert-Holds,
}

same_owner :
    (order : TextOrder) (existing row : OwnerRow)
    → is_other_owner order existing row ≡ false
    → (existing.user_id ≡ row.user_id)
      × (existing.operation ≡ row.operation)
      × (existing.notebook_ids ≡ row.notebook_ids)
same_owner order existing row h = (
  ground (arith, eq_iff existing.user_id row.user_id),
  ground (arith, eq_iff existing.operation row.operation),
  ground (arith, list_beq_eq existing.notebook_ids row.notebook_ids),
)

abbrev with_scope : OwnerRow → List NotebookScope → OwnerRow
with_scope row stored = record row { scope = some stored }

-- The row `existing` with a scope, where it has the owner of `row`.
same_row :
    (order : TextOrder) (existing row : OwnerRow) (stored scope : List NotebookScope)
    → existing.job_id ≡ row.job_id
    → is_other_owner order existing row ≡ false
    → with_scope existing stored
      ≡ row_of
          (owned_job order (record row { created_at = existing.created_at }) (some scope))
          stored
same_row order existing row stored scope same_job mine =
    let (user, operation, ids) = same_owner order existing row mine in cc

module _ (order : TextOrder) where
  open order use {before}

  add_sync-Holds_it :
      (clock : Clock) (row : OwnerRow) (scope : List NotebookScope) (rows : List OwnerRow)
      {t : String} {rows' : List OwnerRow}
      → normalized_scope order scope ≡ ok scope
      → add_sync order clock row scope rows ≡ ok (t, rows')
      → (stored : List NotebookScope) × Holds
          (owned_job order (record row { created_at = t }) (some scope))
          stored
          rows'
        × (normalized_scope order stored ≡ ok scope)
  unfolding add_sync settle Settled
  add_sync-Holds_it clock row scope rows normal e =
      let written = insert_or_ignore row (purge_expired order clock rows) in
      elim (Option-cases (find_first (is_job row.job_id) written)) [
        | inl f ↦ absurd (err-ne-ok (rw (add_sync, f) at e))
        | inr (existing, f) ↦
            let (mine, time, how) =
              settle-ok order row scope written existing (rw (add_sync, f) at e) in
            let same_job =
              (eq_iff existing.job_id row.job_id).0
                (find_first-eq-some (is_job row.job_id) written f) in
            elim how [
              | inl (empty, same) ↦ (
                scope,
                rw (← same, ← time)
                    (fill-found row.job_id scope written f empty
                      ∙ ap some (same_row order existing row scope scope same_job mine)),
                normal,
              )
              | inr (v, full, read, same) ↦
                  let refilled : existing ≡ with_scope existing v =
                    ap (λ o. record existing { scope = o }) full in
                  (
                    v,
                    rw (← same, ← time)
                        (f
                          ∙ ap some (refilled ∙ same_row order existing row v scope same_job mine)),
                    read,
                  )
            ]
      ]

  -- What `add` returned, its table holds.
  add-Holds_it :
      (clock : Clock) (request : AddRequest) (rows : List OwnerRow) {owned : OwnedJob}
      {rows' : List OwnerRow}
      → add order clock request rows ≡ (ok owned, rows')
      → (stored : List NotebookScope) × Holds owned stored rows'
        × (scope_from_json order (some stored) ≡ ok owned.scope)
  unfolding add scope_from_json
  add-Holds_it clock request rows {owned} {rows'} h =
      elim (Result-cases (normalized_scope order request.scope)) [
        | inr (_, e) ↦ absurd (err-ne-ok (ap (λ p. p.0) (rw (add, e) at h)))
        | inl (scope, e) ↦
            let row = new_row order clock request scope in
            elim (Result-cases (add_sync order clock row scope rows)) [
              | inr (_, f) ↦ absurd (err-ne-ok (ap (λ p. p.0) (rw (add, e, f) at h)))
              | inl ((t, table), f) ↦
                  let result = rw (add, e, f) at h in
                  let answer = ok-injective (ap (λ p. p.0) result) in
                  let (stored, held, read) =
                    add_sync-Holds_it clock row scope rows
                      (normalized_scope-again order request.scope e) f in
                  (stored, rw (← answer, ← ap (λ p. p.1) result) held, rw (← answer, read) refl)
            ]
      ]

  read_row-held :
      (owned : OwnedJob) (stored : List NotebookScope)
      → scope_from_json order (some stored) ≡ ok owned.scope
      → read_row order (some (row_of owned stored)) ≡ ok (some owned)
  read_row-held owned stored k = rw (read_row, k) refl

  -- What `add` returned for a job, `get` reads back after any later calls of the store, by whomever
  -- they are, as long as neither they nor `get` find the row expired.
  pub get-add :
      (clock later : Clock) (request : AddRequest) (rows rows' : List OwnerRow) (owned : OwnedJob)
      (calls : List Call)
      → add order clock request rows ≡ (ok owned, rows')
      → Fresh order owned.created_at calls
      → before owned.created_at later.cutoff ≡ false
      → (get order later owned.job_id (run order calls rows')).0 ≡ ok (some owned)
  unfolding get scope_from_json
  get-add clock later request rows rows' owned calls h fresh live =
      let (stored, held, read) = add-Holds_it clock request rows h in
      let still =
        purge_expired-Holds order later owned stored _ live
          (run-Holds order calls owned stored rows' fresh held) in
      ap (read_row order) still ∙ read_row-held owned stored read

  is_other-true :
      (existing row : OwnerRow)
      → (row.user_id ≢ existing.user_id) ⊎ (row.operation ≢ existing.operation)
      → is_other_owner order existing row ≡ true
  is_other-true existing row h = elim (Bool-cases (is_other_owner order existing row)) [
    | inl e ↦ e
    | inr e ↦
        let (user, operation, _) = same_owner order existing row e in
        elim h [ inl u ↦ absurd (u (sym user)) | inr o ↦ absurd (o (sym operation)) ]
  ]

  add_sync-collision :
      (later : Clock) (row : OwnerRow) (scope stored : List NotebookScope) (owned : OwnedJob)
      (rows : List OwnerRow)
      → before owned.created_at later.cutoff ≡ false
      → Holds owned stored rows
      → row.job_id ≡ owned.job_id
      → (row.user_id ≢ owned.user_id) ⊎ (row.operation ≢ owned.operation)
      → add_sync order later row scope rows ≡ err ownership_collision
  unfolding add_sync settle
  add_sync-collision later row scope stored owned rows live held job differs =
      let kept =
        insert-Holds order row owned stored _
          (purge_expired-Holds order later owned stored rows live held) in
      ap (settle order row scope (insert_or_ignore row (purge_expired order later rows))) (
        ap (λ j. find_first (is_job j) (insert_or_ignore row (purge_expired order later rows))) job
        ∙ kept)
      ∙ rw (settle, is_other-true (row_of owned stored) row differs) refl

  error_cases : (e : OwnershipError) → (e ≡ ownership_collision) ⊎ (e ≡ duplicate_notebook)
  error_cases duplicate_notebook = inr refl
  error_cases ownership_collision = inl refl

  -- Another caller, or another operation, that adds a job of the table while its row has not expired
  -- gets an error, and the table stays as it was.
  pub add-other_owner :
      (clock later : Clock) (request other : AddRequest) (rows rows' : List OwnerRow)
      (owned : OwnedJob) (calls : List Call)
      → add order clock request rows ≡ (ok owned, rows')
      → Fresh order owned.created_at calls
      → before owned.created_at later.cutoff ≡ false
      → other.job_id ≡ owned.job_id
      → (other.user_id ≢ owned.user_id) ⊎ (other.operation ≢ owned.operation)
      → let (answer, table) = add order later other (run order calls rows') in
        ((answer ≡ err ownership_collision) ⊎ (answer ≡ err duplicate_notebook))
        × (table ≡ run order calls rows')
  unfolding add
  add-other_owner clock later request other rows rows' owned calls h fresh live job differs =
      let (stored, held, _) = add-Holds_it clock request rows h in
      let still = run-Holds order calls owned stored rows' fresh held in
      elim (Result-cases (normalized_scope order other.scope)) [
        | inr (e, f) ↦
            rw (add, f)
              (elim (error_cases e) [
                | inl k ↦ (inl (ap err k), refl)
                | inr k ↦ (inr (ap err k), refl)
              ])
        | inl (scope, f) ↦
            rw
              (
                add,
                f,
                add_sync-collision later (new_row order later other scope) scope stored owned
                    (run order calls rows') live still job differs,
              )
              (inl refl, refl)
      ]
