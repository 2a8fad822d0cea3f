-- ===== src/Jobs/Capacity/Full.antt =====
-- novo_chat/jobs.py: when `submit` raises QueueFull.
use novo_chat.Base.{
  ℕ, String, ◌≤◌, ◌≡◌, ◌≢◌, ◌↔◌, ap, Bool, Bool-cases, true, false, none, some, Option, List, [],
  ◌∷◌, ◌++◌, arith, ◌!=◌, string_eq, inl, inr, Option-cases, find_first, leb, if◌then◌else◌,
}
use novo_chat.Base.Result.{Result, ok, err, ◌>>=◌}
use novo_chat.Jobs.{
  Library, JobStoreError, job_not_found, queue_full, integrity_error, SubmissionRow, OperationRow,
  Store,
}
use novo_chat.Jobs.Tables.{fetch_one, insert_operation, insert_submission}
use novo_chat.Jobs.Submit.{
  SubmitRequest, SubmissionOutcome, StoredJob, find_submission, find_operation, joined_job, get,
  active_operation_count, fingerprint, at_capacity, same_caller, same_work, new_operation,
  new_submission, join_or_create, resubmit, submit_new, submit,
}

err_inj : {E A : Type 0} {e f : E} → ◌≡◌ {A = Result E A} (err e) (err f) → e ≡ f
err_inj h = cc

module _ (lib : Library) where
  -- The method does not raise QueueFull.
  abbrev NotFull : {A : Type 0} → Result JobStoreError A → Type 0
  NotFull m = m ≢ err queue_full

  bind-NotFull :
      {A B : Type 0} (first : Result JobStoreError A) (next : A → Result JobStoreError B)
      → NotFull first
      → ((a : A) → NotFull (next a))
      → NotFull (first >>= next)
  bind-NotFull (ok a) next f n = n a
  bind-NotFull (err e) next f n = λ h. f (ap err (err_inj h))

  fetch_one-NotFull : {A : Type 0} (found : Option A) → NotFull (fetch_one job_not_found found)
  fetch_one-NotFull none = λ h. cc
  fetch_one-NotFull (some a) = λ h. cc

  if-NotFull :
      {A : Type 0} (refused : Bool) (a : A)
      → NotFull (if refused then err integrity_error else ok a)
  if-NotFull true a = λ h. cc
  if-NotFull false a = λ h. cc

  ok-NotFull : {A : Type 0} (a : A) → NotFull {A = A} (ok a)
  ok-NotFull a = λ h. cc

  get-NotFull : (id env : String) (db : Store lib) → NotFull (get lib id env db)
  unfolding get
  get-NotFull id env db =
      bind-NotFull (fetch_one job_not_found (find_submission lib id env db.submissions)) _
        (fetch_one-NotFull _)
        (λ s.
          bind-NotFull (fetch_one job_not_found (find_operation lib s.operation_id db.operations)) _
            (fetch_one-NotFull _) (λ o. ok-NotFull (joined_job lib s o)))

  insert_submission-NotFull :
      (row : SubmissionRow) (operations : List (OperationRow lib)) (rows : List SubmissionRow)
      → NotFull (insert_submission lib row operations rows)
  unfolding insert_submission
  insert_submission-NotFull row operations rows = if-NotFull _ (rows ++ row ∷ [])

  insert_operation-NotFull :
      (row : OperationRow lib) (rows : List (OperationRow lib))
      → NotFull (insert_operation lib row rows)
  unfolding insert_operation
  insert_operation-NotFull row rows = if-NotFull _ (rows ++ row ∷ [])

  abbrev outcome_of : StoredJob lib → Bool → Bool → SubmissionOutcome lib
  outcome_of job submitted created = record {
    job = job;
    submission_created = submitted;
    operation_created = created;
  }

  -- What `submit_new` does once the operation is there.
  abbrev hand_over :
      SubmitRequest lib
      → Store lib
      → String × Bool × List (OperationRow lib)
      → Result JobStoreError (SubmissionOutcome lib × Store lib)
  hand_over r db (id, created, operations) = do
    submissions ← insert_submission lib (new_submission lib r id) operations db.submissions
    let db' : Store lib = record db { operations = operations; submissions = submissions }
    job ← get lib r.job_handle r.environment db'
    ok (outcome_of job true created, db')

  hand_over-NotFull :
      (r : SubmitRequest lib) (db : Store lib) (made : String × Bool × List (OperationRow lib))
      → NotFull (hand_over r db made)
  hand_over-NotFull r db (id, created, operations) =
      bind-NotFull (insert_submission lib (new_submission lib r id) operations db.submissions) _
        (insert_submission-NotFull _ operations db.submissions)
        (λ submissions.
          let db' : Store lib = record db { operations = operations; submissions = submissions } in
          bind-NotFull (get lib r.job_handle r.environment db') _
            (get-NotFull r.job_handle r.environment db')
            (λ job. ok-NotFull (outcome_of job true created, db')))

  resubmit-NotFull :
      (r : SubmitRequest lib) (s : SubmissionRow) (db : Store lib) → NotFull (resubmit lib r s db)
  unfolding resubmit
  resubmit-NotFull r s db = elim (Bool-cases (s.request_fingerprint != fingerprint lib r)) [
    | inl e ↦ rw e (λ h. cc)
    | inr e ↦ rw e (
        bind-NotFull (get lib s.submission_id r.environment db) _
          (get-NotFull s.submission_id r.environment db)
          (λ job. ok-NotFull (outcome_of job false false, db)))
  ]

  create-NotFull :
      (r : SubmitRequest lib) (db : Store lib)
      → at_capacity lib r db.operations ≡ false
      → find_first (same_work lib r) db.operations ≡ none
      → NotFull (submit_new lib r db)
  unfolding submit_new join_or_create
  create-NotFull r db room fresh =
      rw (fresh, room)
        (bind-NotFull
          (insert_operation lib (new_operation lib r) db.operations >>= λ created.
            ok (r.operation_handle, true, created))
          (hand_over r db)
          (bind-NotFull (insert_operation lib (new_operation lib r) db.operations) _
            (insert_operation-NotFull (new_operation lib r) db.operations)
            (λ created. ok-NotFull (r.operation_handle, true, created)))
          (hand_over-NotFull r db))

  join-NotFull :
      (r : SubmitRequest lib) (o : OperationRow lib) (db : Store lib)
      → find_first (same_work lib r) db.operations ≡ some o
      → NotFull (submit_new lib r db)
  unfolding submit_new join_or_create
  join-NotFull r o db found =
      rw found (hand_over-NotFull r db (o.operation_id, false, db.operations))

  -- Under a limit on the queue, `submit` raises QueueFull exactly where the caller has not used the
  -- idempotency key, no operation is there for the same work to be joined, and the environment has as
  -- many active operations as the limit or more.
  pub submit-full :
      (r : SubmitRequest lib) (db : Store lib) (limit : ℕ)
      → r.max_active_operations ≡ some limit
      → (submit lib r db ≡ err queue_full) ↔ (
          (find_first (same_caller lib r) db.submissions ≡ none)
          × (find_first (same_work lib r) db.operations ≡ none)
          × (limit ≤ active_operation_count lib r.environment db.operations))
  unfolding submit submit_new join_or_create
  submit-full r db limit e = (refused, refuses)
    where
      refuses :
          (find_first (same_caller lib r) db.submissions ≡ none)
            × (find_first (same_work lib r) db.operations ≡ none)
            × (limit ≤ active_operation_count lib r.environment db.operations)
          → submit lib r db ≡ err queue_full
      refuses (first, fresh, full) =
          let test : leb limit (active_operation_count lib r.environment db.operations) ≡ true =
            ground arith in
          rw (first, submit) (rw (fresh, join_or_create) (rw (e, at_capacity) (rw test)))

      refused :
          submit lib r db ≡ err queue_full
          → (find_first (same_caller lib r) db.submissions ≡ none)
            × (find_first (same_work lib r) db.operations ≡ none)
            × (limit ≤ active_operation_count lib r.environment db.operations)
      refused h = elim (Option-cases (find_first (same_caller lib r) db.submissions)) [
        | inr (s, again) ↦ absurd (resubmit-NotFull r s db (rw (again, submit) at h))
        | inl first ↦ elim (Option-cases (find_first (same_work lib r) db.operations)) [
          | inr (o, found) ↦ absurd (join-NotFull r o db found (rw (first, submit) at h))
          | inl fresh ↦ elim (Bool-cases (at_capacity lib r db.operations)) [
            | inr open_ ↦ absurd (create-NotFull r db open_ fresh (rw (first, submit) at h))
            | inl full ↦
                let test : leb limit (active_operation_count lib r.environment db.operations)
                    ≡ true =
                  rw (e, at_capacity) at full in
                (first, fresh, ground arith)
          ]
        ]
      ]
