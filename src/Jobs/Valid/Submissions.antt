-- ===== src/Jobs/Valid/Submissions.antt =====
-- novo_chat/jobs.py: the validity of the tables under `submit`.
use text.Mathlib.TextPositions.{eq_refl}
use novo_chat.Base.{
  String, ◌≡◌, refl, sym, ap, ◌∙◌, Bool, true, false, none, some, List, [], ◌∷◌, ◌++◌, ◌==◌, ◌!=◌,
  string_eq, inl, inr, and_left, or-true_left, or-true_right, Option-cases, any, All-mono,
  All-concat, find_first, find_first-eq-some, any-found,
}
use novo_chat.Base.Result.{ok, raise_if-eq-ok, >>=-eq-ok, ok-injective}
use novo_chat.Protocol.Types.{operation_eq}
use novo_chat.Jobs.{queue_full, idempotency_conflict, Library, SubmissionRow, OperationRow, Store}
use novo_chat.Jobs.Tables.{insert_operation, insert_submission}
use novo_chat.Jobs.Tables.Keys.{same_id, any-append}
use novo_chat.Jobs.Tables.Statements.{insert_operation-ok, insert_submission-ok}
use novo_chat.Jobs.Submit.{
  live_key, fingerprint, SubmitRequest, SubmissionOutcome, new_operation, new_submission, same_work,
  same_caller, at_capacity, get, join_or_create, submit_new, resubmit, submit,
}
use novo_chat.Jobs.Valid.{IsValid, links, owns}

any-append_left :
    {A : Type 0} (q : A → Bool) (xs ys : List A) → any q xs ≡ true → any q (xs ++ ys) ≡ true
any-append_left q xs ys h = any-append q xs ys ∙ or-true_left _ _ h

any-concat_last :
    {A : Type 0} (q : A → Bool) (xs : List A) (x : A) → q x ≡ true → any q (xs ++ x ∷ []) ≡ true
any-concat_last q xs x h = any-append q xs (x ∷ []) ∙ or-true_right _ _ (or-true_left _ _ h)

module _ (lib : Library) where
  -- What a first submission that returned has done.
  pub submit_new-ok :
      (r : SubmitRequest lib) (db : Store lib) {out : SubmissionOutcome lib × Store lib}
      → submit_new lib r db ≡ ok out
      → (id : String) × (created : Bool) × (operations : List (OperationRow lib))
        × (submissions : List SubmissionRow) × (join_or_create lib r
              (find_first (same_work lib r) db.operations)
              db.operations
            ≡ ok (id, created, operations))
        × (insert_submission lib (new_submission lib r id) operations db.submissions
            ≡ ok submissions)
        × (out.1 ≡ record db { operations = operations; submissions = submissions })
        × (out.0.operation_created ≡ created)
        × (out.0.submission_created ≡ true)
        × (get lib r.job_handle r.environment out.1 ≡ ok out.0.job)
  unfolding submit_new
  submit_new-ok r db h =
      let ((id, created, operations), joined, h1) = >>=-eq-ok _ _ h in
      let (submissions, inserted, h2) = >>=-eq-ok _ _ h1 in
      let (job, read, h3) = >>=-eq-ok _ _ h2 in
      let done = ok-injective h3 in
      rw (← done) (id, created, operations, submissions, joined, inserted, refl, refl, refl, read)

  linked-append :
      (s : SubmissionRow) (rows : List (OperationRow lib)) (o : OperationRow lib)
      → any (links lib s) rows ≡ true
      → any (links lib s) (rows ++ o ∷ []) ≡ true
  linked-append s rows o h = any-append_left (links lib s) rows (o ∷ []) h

  same_work-environment :
      (r : SubmitRequest lib) (o : OperationRow lib)
      → same_work lib r o ≡ true
      → (o.environment == r.environment) ≡ true
  same_work-environment r o h =
      and_left (o.environment == r.environment) (o.operation_type == r.operation)
        (and_left _ (o.dedupe_key == live_key lib r) h)

  -- What `join_or_create` has done when it found no live operation.
  pub join_or_create-created :
      (r : SubmitRequest lib) (rows : List (OperationRow lib))
      {joined : String × Bool × List (OperationRow lib)}
      → join_or_create lib r none rows ≡ ok joined
      → (at_capacity lib r rows ≡ false)
        × (insert_operation lib (new_operation lib r) rows ≡ ok joined.2)
        × (joined.0 ≡ r.operation_handle)
        × (joined.1 ≡ true)
  unfolding join_or_create
  join_or_create-created r rows h =
      let (room, h1) = raise_if-eq-ok (at_capacity lib r rows) queue_full _ h in
      let (rows', inserted, h2) = >>=-eq-ok _ _ h1 in
      let done = ok-injective h2 in rw (← done) (room, inserted, refl, refl)

  pub join_or_create-joined :
      (r : SubmitRequest lib) (o : OperationRow lib) (rows : List (OperationRow lib))
      {joined : String × Bool × List (OperationRow lib)}
      → join_or_create lib r (some o) rows ≡ ok joined
      → joined ≡ (o.operation_id, false, rows)
  unfolding join_or_create
  join_or_create-joined r o rows h = sym (ok-injective h)

  -- The tables after a submission that joined an operation.
  joined-IsValid :
      (r : SubmitRequest lib) (o : OperationRow lib) (db : Store lib)
      {submissions : List SubmissionRow}
      → find_first (same_work lib r) db.operations ≡ some o
      → insert_submission lib (new_submission lib r o.operation_id) db.operations db.submissions
        ≡ ok submissions
      → IsValid lib db
      → IsValid lib (record db { submissions = submissions })
  joined-IsValid r o db found inserted valid =
      let (added, handles) = insert_submission-ok lib _ _ _ inserted valid.handles in
      let s = new_submission lib r o.operation_id in
      let same_env : (o.environment == r.environment) ≡ true =
        same_work-environment r o (find_first-eq-some (same_work lib r) db.operations found) in
      record {
        ids = valid.ids;
        keys = valid.keys;
        handles = handles;
        linked = rw added (
            All-concat (λ t. any (links lib t) db.operations ≡ true) db.submissions valid.linked
              (any-found (same_work lib r) (links lib s) db.operations found
                (rw (eq_refl, same_env))));
        slots = valid.slots;
        owned = rw added (
            All-mono (λ t. any (owns lib t) db.submissions ≡ true) _ db.operations
              (λ t e. any-append_left (owns lib t) db.submissions (s ∷ []) e) valid.owned);
      }

  -- The tables after a submission that created its operation.
  created-IsValid :
      (r : SubmitRequest lib) (db : Store lib) {operations : List (OperationRow lib)}
      {submissions : List SubmissionRow}
      → insert_operation lib (new_operation lib r) db.operations ≡ ok operations
      → insert_submission lib (new_submission lib r r.operation_handle) operations db.submissions
        ≡ ok submissions
      → IsValid lib db
      → IsValid lib (record db { operations = operations; submissions = submissions })
  created-IsValid r db inserted_o inserted_s valid =
      let (o_added, ids, keys) = insert_operation-ok lib _ _ inserted_o valid.ids valid.keys in
      let (s_added, handles) = insert_submission-ok lib _ _ _ inserted_s valid.handles in
      let o = new_operation lib r in
      let s = new_submission lib r r.operation_handle in
      record {
        ids = ids;
        keys = keys;
        handles = handles;
        linked =
            rw (s_added, o_added)
              (All-concat (λ t. any (links lib t) (db.operations ++ o ∷ []) ≡ true) db.submissions
                (All-mono _ _ db.submissions
                  (λ t e. any-append_left (links lib t) db.operations (o ∷ []) e) valid.linked)
                (any-concat_last (links lib s) db.operations o (rw (eq_refl, eq_refl))));
        slots = valid.slots;
        owned =
            rw (s_added, o_added)
              (All-concat (λ t. any (owns lib t) (db.submissions ++ s ∷ []) ≡ true) db.operations
                (All-mono _ _ db.operations
                  (λ t e. any-append_left (owns lib t) db.submissions (s ∷ []) e) valid.owned)
                (any-concat_last (owns lib o) db.submissions s (rw eq_refl)));
      }

  submit_new-IsValid :
      (r : SubmitRequest lib) (db : Store lib) {out : SubmissionOutcome lib × Store lib}
      → submit_new lib r db ≡ ok out
      → IsValid lib db
      → IsValid lib out.1
  submit_new-IsValid r db h valid =
      let (id, created, operations, submissions, joined, inserted, out_eq, _, _, _) =
        submit_new-ok r db h in
      elim (Option-cases (find_first (same_work lib r) db.operations)) [
        | inl fresh ↦
            let (_, inserted_o, same_id, _) =
              join_or_create-created r db.operations (rw fresh at joined) in
            rw out_eq (created-IsValid r db inserted_o (rw same_id at inserted) valid)
        | inr (o, found) ↦
            let same = join_or_create-joined r o db.operations (rw found at joined) in
            let same_rows : operations ≡ db.operations = ap (λ t. t.2) same in
            let same_id : id ≡ o.operation_id = ap (λ t. t.0) same in
            rw (out_eq, same_rows)
              (joined-IsValid r o db found (rw (same_id, same_rows) at inserted) valid)
      ]

  pub resubmit-unchanged :
      (r : SubmitRequest lib) (s : SubmissionRow) (db : Store lib)
      {out : SubmissionOutcome lib × Store lib}
      → resubmit lib r s db ≡ ok out
      → out.1 ≡ db
  unfolding resubmit
  resubmit-unchanged r s db h =
      let (_, h1) =
        raise_if-eq-ok (s.request_fingerprint != fingerprint lib r) idempotency_conflict _ h in
      let (job, _, h2) = >>=-eq-ok (get lib s.submission_id r.environment db) _ h1 in
      sym (ap (λ t. t.1) (ok-injective h2))

  pub submit-IsValid :
      (r : SubmitRequest lib) (db : Store lib) {out : SubmissionOutcome lib × Store lib}
      → submit lib r db ≡ ok out
      → IsValid lib db
      → IsValid lib out.1
  unfolding submit
  submit-IsValid r db h valid =
      elim (Option-cases (find_first (same_caller lib r) db.submissions)) [
        | inl first ↦ submit_new-IsValid r db (rw (first, submit) at h) valid
        | inr (s, again) ↦ rw (resubmit-unchanged r s db (rw (again, submit) at h)) valid
      ]
