-- ===== src/Gateway/Ownership/Keeps.antt =====
-- novo_chat/gateway/store.py: sequences of calls, and the row of a job under them.
use novo_chat.Base.{
  String, ◌≡◌, refl, ap, ◌∙◌, ◌⊎◌, inl, inr, Bool-cases, Option-cases, false, none, some, List, [],
  ◌∷◌, string_eq, any, find_first, find_first-append_some, map, list_beq, list_beq_eq, All,
}
use novo_chat.Base.Result.{ok, ok-injective, err-ne-ok, Result-cases, raise_if-eq-ok}
use novo_chat.Protocol.Types.{NotebookScope, scope_eq}
use novo_chat.Gateway.Ownership.Scope.{TextOrder, ownership_collision, normalized_scope}
use novo_chat.Gateway.Ownership.{
  OwnerRow, OwnedJob, Clock, AddRequest, is_job, fill_row, insert_or_ignore, purge_expired,
  scope_from_json, new_row, is_other_owner, settle, add_sync, add, get,
}
use novo_chat.Gateway.Ownership.Rows.{find_first-keep_if, Holds, Holds-fill}

pub data Call : Type 0 where
  add_job : Clock → AddRequest → Call
  get_job : Clock → String → Call
  purge : Clock → Call

abbrev pub clock_of : Call → Clock
clock_of (add_job clock _) = clock
clock_of (get_job clock _) = clock
clock_of (purge clock) = clock

module _ (order : TextOrder) where
  open order use {before}

  -- The table after a list of calls.
  unfoldable pub run : List Call → List OwnerRow → List OwnerRow
  run [] rows = rows
  run (add_job clock request ∷ calls) rows = run calls (add order clock request rows).1
  run (get_job clock job_id ∷ calls) rows = run calls (get order clock job_id rows).1
  run (purge clock ∷ calls) rows = run calls (purge_expired order clock rows)

  -- No call of the list finds a row of that time expired.
  abbrev pub Fresh : String → List Call → Type 0
  Fresh created_at = All (λ call. before created_at (clock_of call).cutoff ≡ false)

  -- What `settle` did where it returned.
  unfoldable pub Settled :
      OwnerRow → List NotebookScope → List OwnerRow → OwnerRow → String → List OwnerRow → Type 0
  Settled row scope rows existing t rows' =
      (is_other_owner order existing row ≡ false)
      × (existing.created_at ≡ t)
      × (((existing.scope ≡ none) × (map (fill_row row.job_id scope) rows ≡ rows'))
          ⊎ ((v : List NotebookScope) × (existing.scope ≡ some v)
              × (normalized_scope order v ≡ ok scope)
              × (rows ≡ rows')))

  pub settle-ok :
      (row : OwnerRow) (scope : List NotebookScope) (rows : List OwnerRow) (existing : OwnerRow)
      {t : String} {rows' : List OwnerRow}
      → settle order row scope rows (some existing) ≡ ok (t, rows')
      → Settled row scope rows existing t rows'
  unfolding settle Settled scope_from_json
  settle-ok row scope rows existing h =
      let (mine, h1) = raise_if-eq-ok (is_other_owner order existing row) ownership_collision _ h in
      elim (Option-cases existing.scope) [
        | inl e ↦
            let written = ok-injective (rw e at h1) in
            (mine, ap (λ p. p.0) written, inl (e, ap (λ p. p.1) written))
        | inr (v, e) ↦ elim (Result-cases (normalized_scope order v)) [
          | inr (_, f) ↦ absurd (err-ne-ok (rw (e, f) at h1))
          | inl (s, f) ↦ elim (Bool-cases (list_beq s scope)) [
            | inr g ↦ absurd (err-ne-ok (rw (e, f, g) at h1))
            | inl g ↦
                let kept = ok-injective (rw (e, f, g) at h1) in
                (
                  mine,
                  ap (λ p. p.0) kept,
                  inr (v, e, f ∙ ap ok (list_beq_eq s scope g), ap (λ p. p.1) kept),
                )
          ]
        ]
      ]

  pub purge_expired-Holds :
      (clock : Clock) (owned : OwnedJob) (stored : List NotebookScope) (rows : List OwnerRow)
      → before owned.created_at clock.cutoff ≡ false
      → Holds owned stored rows
      → Holds owned stored (purge_expired order clock rows)
  unfolding purge_expired
  purge_expired-Holds clock owned stored rows live h =
      find_first-keep_if (is_job owned.job_id) _ rows h (rw live refl)

  pub insert-Holds :
      (row : OwnerRow) (owned : OwnedJob) (stored : List NotebookScope) (rows : List OwnerRow)
      → Holds owned stored rows
      → Holds owned stored (insert_or_ignore row rows)
  insert-Holds row owned stored rows h = elim (Bool-cases (any (is_job row.job_id) rows)) [
    | inl e ↦ rw e h
    | inr e ↦ rw e (find_first-append_some (is_job owned.job_id) rows (row ∷ []) h)
  ]

  add_sync-Holds :
      (clock : Clock) (row : OwnerRow) (scope : List NotebookScope) (owned : OwnedJob)
      (stored : List NotebookScope) (rows : List OwnerRow) {t : String} {rows' : List OwnerRow}
      → before owned.created_at clock.cutoff ≡ false
      → Holds owned stored rows
      → add_sync order clock row scope rows ≡ ok (t, rows')
      → Holds owned stored rows'
  unfolding add_sync settle Settled
  add_sync-Holds clock row scope owned stored rows live h e =
      let written = insert_or_ignore row (purge_expired order clock rows) in
      let kept =
        insert-Holds row owned stored _ (purge_expired-Holds clock owned stored rows live h) in
      elim (Option-cases (find_first (is_job row.job_id) written)) [
        | inl f ↦ absurd (err-ne-ok (rw (add_sync, f) at e))
        | inr (existing, f) ↦
            elim (settle-ok row scope written existing (rw (add_sync, f) at e)).2 [
              | inl (_, same) ↦ rw (← same) (Holds-fill owned stored scope row.job_id written kept)
              | inr (_, _, _, same) ↦ rw (← same) kept
            ]
      ]

  add-Holds :
      (clock : Clock) (request : AddRequest) (owned : OwnedJob) (stored : List NotebookScope)
      (rows : List OwnerRow)
      → before owned.created_at clock.cutoff ≡ false
      → Holds owned stored rows
      → Holds owned stored (add order clock request rows).1
  unfolding add
  add-Holds clock request owned stored rows live h =
      elim (Result-cases (normalized_scope order request.scope)) [
        | inr (_, e) ↦ rw (add, e) h
        | inl (scope, e) ↦
            let row = new_row order clock request scope in
            elim (Result-cases (add_sync order clock row scope rows)) [
              | inr (_, f) ↦ rw (add, e, f) h
              | inl ((t, rows'), f) ↦
                  rw (add, e, f) (add_sync-Holds clock row scope owned stored rows live h f)
            ]
      ]

  pub run-Holds :
      (calls : List Call) (owned : OwnedJob) (stored : List NotebookScope) (rows : List OwnerRow)
      → Fresh owned.created_at calls
      → Holds owned stored rows
      → Holds owned stored (run calls rows)
  unfolding run get
  run-Holds [] owned stored rows fresh h = h
  run-Holds (add_job clock request ∷ calls) owned stored rows fresh h =
      run-Holds calls owned stored _ fresh.1 (add-Holds clock request owned stored rows fresh.0 h)
  run-Holds (get_job clock job_id ∷ calls) owned stored rows fresh h =
      run-Holds calls owned stored _ fresh.1 (purge_expired-Holds clock owned stored rows fresh.0 h)
  run-Holds (purge clock ∷ calls) owned stored rows fresh h =
      run-Holds calls owned stored _ fresh.1 (purge_expired-Holds clock owned stored rows fresh.0 h)
