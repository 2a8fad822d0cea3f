-- ===== src/Jobs/Tables/Statements.antt =====
-- novo_chat/jobs.py: what a statement on `operations` or `submissions` that SQLite accepts has done.
use novo_chat.Base.{
  ◌≡◌, refl, sym, ◌∙◌, Bool, false, not, ◌&&◌, ◌||◌, List, [], ◌∷◌, ◌++◌, arith, ◌==◌, ◌!=◌,
  string_eq, inl, inr, Bool-cases, any, if◌then◌else◌,
}
use mathlib.Core.List.{append_assoc, append-nil}
use novo_chat.Base.Result.{ok, if-eq-ok, ok-injective}
use novo_chat.Jobs.{Library, SubmissionRow, OperationRow}
use novo_chat.Jobs.Tables.{
  same_key, submission_conflict, operation_conflict, update_where, update_checked, insert_operation,
  insert_submission, update_operation, progress_ok,
}
use novo_chat.Jobs.Tables.Keys.{
  ==_comm, Free, Free-concat, Free-replace, Free-update, same_id, same_id_comm, same_key_comm,
  Once-of_ids,
}

or_false_parts : (a b : Bool) → (a || b) ≡ false → (a ≡ false) × (b ≡ false)
or_false_parts a b h = ground arith

pub submission_conflict_comm :
    (a b : SubmissionRow) → submission_conflict a b ≡ submission_conflict b a
submission_conflict_comm a b = ground (
  arith,
  ==_comm a.submission_id b.submission_id,
  ==_comm a.environment b.environment,
  ==_comm a.actor_user_id b.actor_user_id,
  ==_comm a.idempotency_key b.idempotency_key,
)

module _ (lib : Library) where
  any-conflict :
      (r : OperationRow lib) (rows : List (OperationRow lib))
      → any (operation_conflict lib r) rows ≡ false
      → (any (same_id lib r) rows ≡ false) × (any (same_key lib r) rows ≡ false)
  any-conflict r [] h = (refl, refl)
  any-conflict r (o ∷ rows) h = ground (arith, same_id_comm lib r o, any-conflict r rows)

  pub insert_operation-appends :
      (r : OperationRow lib) (rows : List (OperationRow lib)) {rows' : List (OperationRow lib)}
      → insert_operation lib r rows ≡ ok rows'
      → rows' ≡ rows ++ r ∷ []
  unfolding insert_operation
  insert_operation-appends r rows h =
      let (_, added) =
        if-eq-ok (any (operation_conflict lib r) rows || not (progress_ok lib r.progress)) _ _ h in
      sym (ok-injective added)

  pub insert_operation-ok :
      (r : OperationRow lib) (rows : List (OperationRow lib)) {rows' : List (OperationRow lib)}
      → insert_operation lib r rows ≡ ok rows'
      → Free (same_id lib) rows
      → Free (same_key lib) rows
      → (rows' ≡ rows ++ r ∷ []) × Free (same_id lib) rows' × Free (same_key lib) rows'
  unfolding insert_operation
  insert_operation-ok r rows h ids keys =
      let (e, added) =
        if-eq-ok (any (operation_conflict lib r) rows || not (progress_ok lib r.progress)) _ _ h in
      let (ids', keys') = any-conflict r rows (or_false_parts _ _ e).0 in
      rw (← ok-injective added) (
        refl,
        Free-concat (same_id lib) (same_id_comm lib) rows r ids ids',
        Free-concat (same_key lib) (same_key_comm lib) rows r keys keys',
      )

  pub update_operation-ok :
      (r : OperationRow lib) (rows : List (OperationRow lib)) {rows' : List (OperationRow lib)}
      → update_operation lib r rows ≡ ok rows'
      → Free (same_id lib) rows
      → Free (same_key lib) rows
      → (rows' ≡ update_where (λ o. o.operation_id == r.operation_id) (λ _. r) rows)
        × Free (same_key lib) rows'
  unfolding update_operation
  update_operation-ok r rows h ids keys =
      let (e, changed) =
        if-eq-ok
          (any (λ o. o.operation_id != r.operation_id && same_key lib o r) rows
            || not (progress_ok lib r.progress))
          _ _ h in
      rw (← ok-injective changed) (
        refl,
        Free-update (same_key lib) (same_key_comm lib) (λ o. o.operation_id == r.operation_id) r
            rows (Once-of_ids lib r.operation_id rows ids) keys (or_false_parts _ _ e).0,
      )

  abbrev changed :
      (OperationRow lib → Bool)
      → (OperationRow lib → OperationRow lib)
      → OperationRow lib
      → OperationRow lib
  changed p f o = if p o then f o else o

  kept :
      (p : OperationRow lib → Bool) (f : OperationRow lib → OperationRow lib)
      (done : List (OperationRow lib)) (o : OperationRow lib) (rest : List (OperationRow lib))
      → Free (same_key lib) (done ++ o ∷ rest)
      → (p o
          && (any (same_key lib (changed p f o)) done || any (same_key lib (changed p f o)) rest))
        ≡ false
      → Free (same_key lib) (done ++ changed p f o ∷ rest)
  kept p f done o rest h e = elim (Bool-cases (p o)) [
    | inl hit ↦ rw hit (
        Free-replace (same_key lib) (same_key_comm lib) done o (f o) rest h
          (or_false_parts _ _ (rw hit at e)).0 (or_false_parts _ _ (rw hit at e)).1)
    | inr miss ↦ rw miss h
  ]

  update_checked-step :
      (p : OperationRow lib → Bool) (f : OperationRow lib → OperationRow lib)
      (done rest : List (OperationRow lib)) {rows' : List (OperationRow lib)}
      → update_checked lib p f done rest ≡ ok rows'
      → Free (same_key lib) (done ++ rest)
      → (rows' ≡ done ++ update_where p f rest) × Free (same_key lib) rows'
  unfolding update_checked
  update_checked-step p f done [] h keys =
      rw (← ok-injective h) (rw append-nil, rw append-nil at keys)
  update_checked-step p f done (o ∷ rest) h keys =
      let o' = if p o then f o else o in
      let (e, later) =
        if-eq-ok (p o && (any (same_key lib o') done || any (same_key lib o') rest)) _ _ h in
      let (same, free) =
        update_checked-step p f (done ++ o' ∷ []) rest later
          (rw append_assoc (kept p f done o rest keys e)) in
      (same ∙ append_assoc done (o' ∷ []) (update_where p f rest), free)

  -- An accepted bulk UPDATE has rewritten every row that it picks, and the keys are still free.
  pub update_checked-ok :
      (p : OperationRow lib → Bool) (f : OperationRow lib → OperationRow lib)
      (rows : List (OperationRow lib)) {rows' : List (OperationRow lib)}
      → update_checked lib p f [] rows ≡ ok rows'
      → Free (same_key lib) rows
      → (rows' ≡ update_where p f rows) × Free (same_key lib) rows'
  update_checked-ok p f rows h keys = update_checked-step p f [] rows h keys

  pub insert_submission-appends :
      (r : SubmissionRow) (operations : List (OperationRow lib)) (rows : List SubmissionRow)
      {rows' : List SubmissionRow}
      → insert_submission lib r operations rows ≡ ok rows'
      → rows' ≡ rows ++ r ∷ []
  unfolding insert_submission
  insert_submission-appends r operations rows h =
      let (_, added) =
        if-eq-ok
          (any (submission_conflict r) rows
            || not (any (λ o. o.operation_id == r.operation_id) operations))
          _ _ h in
      sym (ok-injective added)

  pub insert_submission-ok :
      (r : SubmissionRow) (operations : List (OperationRow lib)) (rows : List SubmissionRow)
      {rows' : List SubmissionRow}
      → insert_submission lib r operations rows ≡ ok rows'
      → Free (submission_conflict) rows
      → (rows' ≡ rows ++ r ∷ []) × Free (submission_conflict) rows'
  unfolding insert_submission
  insert_submission-ok r operations rows h free =
      let (e, added) =
        if-eq-ok
          (any (submission_conflict r) rows
            || not (any (λ o. o.operation_id == r.operation_id) operations))
          _ _ h in
      rw (← ok-injective added) (
        refl,
        Free-concat (submission_conflict) submission_conflict_comm rows r free
            (or_false_parts _ _ e).0,
      )
