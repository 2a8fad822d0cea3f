-- ===== src/Jobs/Idempotency.antt =====
-- novo_chat/jobs.py: `submit` under a repeated idempotency key.
use text.Mathlib.TextPositions.{eq_refl}
use novo_chat.Base.{
  ℕ, String, ◌≡◌, ◌≢◌, ◌∙◌, refl, sym, true, false, Option, some, ◌∷◌, [], arith, eq_iff, ◌!=◌,
  string_eq, inl, inr, Option-cases, find_first, find_first-append,
}
use novo_chat.Base.Result.{ok, err, raise_if-eq-ok, >>=-eq-ok, ok-injective}
use novo_chat.Jobs.{Library, SubmissionRow, Store, idempotency_conflict}
use novo_chat.Jobs.Tables.Statements.{insert_submission-appends}
use novo_chat.Jobs.Submit.{
  SubmitRequest, SubmissionOutcome, StoredJob, fingerprint, same_caller, get, resubmit, submit,
  new_submission,
}
use novo_chat.Jobs.Valid.Submissions.{submit_new-ok}

not_ne : (s t : String) → (s != t) ≡ false → s ≡ t
not_ne s t h = ground (arith, eq_iff s t)

ne_of_ne : (s t : String) → s ≢ t → (s != t) ≡ true
ne_of_ne s t h = ground (arith, eq_iff s t)

module _ (lib : Library) where
  -- The row that the caller's key finds, and the job that it reads, after `submit` returned.
  pub record Recorded (r : SubmitRequest lib) (job : StoredJob lib) (db : Store lib) : Type 0 where
    pub row : SubmissionRow
    pub found : find_first (same_caller lib r) db.submissions ≡ some row
    pub same_request : row.request_fingerprint ≡ fingerprint lib r
    pub read : get lib row.submission_id r.environment db ≡ ok job

  same_caller-new :
      (r : SubmitRequest lib) (id : String) → same_caller lib r (new_submission lib r id) ≡ true
  same_caller-new r id = rw (eq_refl, eq_refl, eq_refl)

  submit-Recorded :
      (r : SubmitRequest lib) (db : Store lib) {out : SubmissionOutcome lib × Store lib}
      → submit lib r db ≡ ok out
      → Recorded r out.0.job out.1
  unfolding submit resubmit
  submit-Recorded r db h = elim (Option-cases (find_first (same_caller lib r) db.submissions)) [
    | inl first ↦
        let (id, created, operations, submissions, joined, inserted, out_eq, _, _, read) =
          submit_new-ok lib r db (rw (first, submit) at h) in
        let added = insert_submission-appends lib _ _ _ inserted in
        record {
          row = new_submission lib r id;
          found =
              rw (out_eq, added)
                (rw
                  (find_first-append (same_caller lib r) db.submissions
                    (new_submission lib r id ∷ []) first)
                  (rw (same_caller-new r id)));
          same_request = refl;
          read = read;
        }
    | inr (s, again) ↦
        let (same, h1) =
          raise_if-eq-ok (s.request_fingerprint != fingerprint lib r) idempotency_conflict _
            (rw (again, submit) at h) in
        let (job, read, h2) = >>=-eq-ok (get lib s.submission_id r.environment db) _ h1 in
        let done = ok-injective h2 in
        rw (← done) (record { row = s; found = again; same_request = not_ne _ _ same; read = read })
  ]

  -- A retry of a request: what differs is the request id, the time, the random handles, the dedupe
  -- key and the limit on the queue.
  abbrev pub retry :
      SubmitRequest lib
      → String
      → lib.Real
      → String
      → String
      → Option String
      → Option ℕ
      → SubmitRequest lib
  retry r request_id now operation_handle job_handle dedupe_key limit = record r {
    request_id = request_id;
    now = now;
    operation_handle = operation_handle;
    job_handle = job_handle;
    dedupe_key = dedupe_key;
    max_active_operations = limit;
  }

  -- After a submission that returned, the same caller's same request under the same idempotency key
  -- returns the same job, at any time, with a full queue too, and changes nothing.
  pub submit-retry :
      (r : SubmitRequest lib) (db : Store lib) {out : SubmissionOutcome lib × Store lib}
      (request_id : String) (now : lib.Real) (operation_handle job_handle : String)
      (dedupe_key : Option String) (limit : Option ℕ)
      → submit lib r db ≡ ok out
      → submit lib (retry r request_id now operation_handle job_handle dedupe_key limit) out.1
        ≡ ok (
          record { job = out.0.job; submission_created = false; operation_created = false },
          out.1,
        )
  unfolding submit resubmit
  submit-retry r db q now oh jh d m h =
      let rec = submit-Recorded r db h in
      rw (rec.found, submit) (rw (rec.same_request, eq_refl, rec.read))

  -- A different request under a key that the caller has used raises, and changes nothing.
  pub submit-conflict :
      (r r' : SubmitRequest lib) (db : Store lib) {out : SubmissionOutcome lib × Store lib}
      → submit lib r db ≡ ok out
      → r'.environment ≡ r.environment
      → r'.actor_user_id ≡ r.actor_user_id
      → r'.idempotency_key ≡ r.idempotency_key
      → fingerprint lib r' ≢ fingerprint lib r
      → submit lib r' out.1 ≡ err idempotency_conflict
  unfolding submit resubmit
  submit-conflict r r' db h env actor key differs =
      let rec = submit-Recorded r db h in
      let found = rw (← env, ← actor, ← key) at rec.found in
      rw (found, submit) (rw (ne_of_ne _ _ (λ e. differs (sym e ∙ rec.same_request))))
