-- ===== src/Worker/Accepted.antt =====
-- novo_chat/worker.py: what the endpoints that submit a job do with the tables, and their answer.
use novo_chat.Base.{
  ℕ, String, ◌≡◌, refl, sym, ap, ◌∙◌, Bool, true, not, ◌&&◌, Option, none, some, List, ◌==◌, ◌!=◌,
  string_eq, inl, inr, Option-cases, eq_iff, find_first, find_first-eq-some, ltb, length, arith,
}
use novo_chat.Base.Result.{Result, ok, ok-injective, >>=-eq-ok, raise_if-eq-ok, Result-cases}
use novo_chat.Base.Action.{Post, Post-continue, Post-if, return, throw}
use novo_chat.Protocol.Types.{NotebookScope, JobOperation}
use novo_chat.Jobs.{Library, JobStoreError, idempotency_conflict, SubmissionRow, Store}
use novo_chat.Jobs.Submit.{
  SubmitRequest, SubmissionOutcome, StoredJob, submit, resubmit, get, find_submission, same_caller,
  find_operation, fingerprint,
}
use novo_chat.Jobs.Tables.{fetch_one}
use novo_chat.Jobs.Retention.{purge_terminal_operations}
use novo_chat.Jobs.Valid.{IsValid}
use novo_chat.Jobs.Valid.Submissions.{submit-IsValid, submit_new-ok}
use novo_chat.Jobs.Valid.Deletions.{purge-IsValid}
use novo_chat.Worker.{WorkerApiError, WorkerConfig, Body, Draws}
use novo_chat.Worker.Api.{
  JobView, require, on_store, validate_scope, submit_job, submit_error, internal_error, job_view,
  submission,
}

module _ (lib : Library) where
  fetch_one-eq-ok :
      {A E : Type 0} (e : E) (m : Option A) {a : A} → fetch_one e m ≡ ok a → m ≡ some a
  fetch_one-eq-ok e none h = cc
  fetch_one-eq-ok e (some b) h = cc

  -- The job that `get` finds is under the id that it was asked for.
  get-id :
      (job_id env : String) (db : Store lib) {job : StoredJob lib}
      → get lib job_id env db ≡ ok job
      → job.job_id ≡ job_id
  unfolding get find_submission
  get-id job_id env db h =
      let (s, found, h1) =
        >>=-eq-ok (fetch_one _ (find_submission lib job_id env db.submissions)) _ h in
      let (o, _, h2) =
        >>=-eq-ok (fetch_one _ (find_operation lib s.operation_id db.operations)) _ h1 in
      let picked =
        find_first-eq-some
          (λ (s : SubmissionRow). s.submission_id == job_id && s.environment == env) db.submissions
          (fetch_one-eq-ok _ _ found) in
      ap (λ (j : StoredJob lib). j.job_id) (sym (ok-injective h2))
      ∙ (eq_iff s.submission_id job_id).0 (ground (arith, picked))

  get_again :
      (job_id env : String) (db : Store lib) {job : StoredJob lib}
      → get lib job_id env db ≡ ok job
      → get lib job.job_id env db ≡ ok job
  get_again job_id env db h = ap (λ t. get lib t env db) (get-id job_id env db h) ∙ h

  resubmit-get :
      (r : SubmitRequest lib) (s : SubmissionRow) (db : Store lib)
      {out : SubmissionOutcome lib × Store lib}
      → resubmit lib r s db ≡ ok out
      → get lib out.0.job.job_id r.environment out.1 ≡ ok out.0.job
  unfolding resubmit
  resubmit-get r s db h =
      let (_, h1) =
        raise_if-eq-ok (s.request_fingerprint != fingerprint lib r) idempotency_conflict _ h in
      let (job, got, h2) = >>=-eq-ok (get lib s.submission_id r.environment db) _ h1 in
      rw (← ok-injective h2) (get_again s.submission_id r.environment db got)

  -- The job of a submission that returned is what the tables have under its id.
  submit-get :
      (r : SubmitRequest lib) (db : Store lib) {out : SubmissionOutcome lib × Store lib}
      → submit lib r db ≡ ok out
      → get lib out.0.job.job_id r.environment out.1 ≡ ok out.0.job
  unfolding submit
  submit-get r db {out} h = elim (Option-cases (find_first (same_caller lib r) db.submissions)) [
    | inl first ↦
        let made = submit_new-ok lib r db (rw (first, submit) at h) in
        get_again r.job_handle r.environment out.1 made.9
    | inr (s, again) ↦ resubmit-get r s db (rw (again, submit) at h)
  ]

  -- What an accepted submission answers, where `env` is the environment of the worker.
  abbrev pub IsKept : String → JobView lib → Store lib → Type 0
  IsKept env view db =
      IsValid lib db
      × ((job : StoredJob lib) × (view ≡ job_view lib job)
          × (job.job_id ≡ view.job_id)
          × (get lib view.job_id env db ≡ ok job))

  pub require-Post :
      (Q : Unit {0} → Store lib → Type 0) (b : Bool) (e : WorkerApiError) (db : Store lib)
      → (b ≡ true → Q tt db)
      → Post Q (require lib b e db)
  require-Post Q b e db h = Post-if Q b (return tt) (throw e) db h (λ _. tt)

  module _ {A : Type 0} where
    on_store-Post :
        (Q : A → Store lib → Type 0) (mapped : JobStoreError → WorkerApiError)
        (call : Store lib → Result JobStoreError (A × Store lib)) (db : Store lib)
        → ((out : A × Store lib) → call db ≡ ok out → Q out.0 out.1)
        → Post Q (on_store lib mapped call db)
    unfolding on_store
    on_store-Post Q mapped call db h = elim (Result-cases (call db)) [
      | inl (out, e) ↦ rw e (h out e)
      | inr (raised, e) ↦ rw e tt
    ]

  -- Tests that leave the tables alone.
  abbrev pub Same : Store lib → Unit {0} → Store lib → Type 0
  Same db _ db' = db' ≡ db

  module _ (config : WorkerConfig) where
    pub validate_scope-Post :
        (scope : List NotebookScope) (db : Store lib)
        → Post (Same db) (validate_scope lib config scope db)
    unfolding validate_scope
    validate_scope-Post scope db =
        Post-continue (Same db) (Same db) _ _
          (require-Post (Same db) (not (ltb config.max_scope_entries (length scope))) _ db
            (λ _. refl))
          (λ _ db' same. rw same (require-Post (Same db) _ _ db (λ _. refl)))

  module _ (config : WorkerConfig) (draws : Draws lib) where
    pub submit_job-IsKept :
        (body : Body) (operation : JobOperation) (payload : lib.Json) (db : Store lib)
        → IsValid lib db
        → Post (IsKept config.environment) (submit_job lib config draws body operation payload db)
    unfolding submit_job job_view
    submit_job-IsKept body operation payload db valid =
        Post-continue (Same db) (IsKept config.environment) _ _
          (validate_scope-Post config body.scope db)
          (λ _ db1 same.
            let purge = purge_terminal_operations lib config.environment draws.updated_before in
            let StillValid : ℕ → Store lib → Type 0 = λ _ t. IsValid lib t in
            Post-continue StillValid (IsKept config.environment)
              (on_store lib (λ _. internal_error) purge db1) _
              (on_store-Post StillValid (λ _. internal_error) purge db1
                (λ out e.
                  purge-IsValid lib config.environment draws.updated_before db1 e (rw same valid)))
              (λ _ db2 valid2.
                let request = submission lib config draws body operation payload in
                let Q : SubmissionOutcome lib → Store lib → Type 0 = λ out t.
                  IsValid lib t × (get lib out.job.job_id config.environment t ≡ ok out.job) in
                Post-continue Q (IsKept config.environment)
                  (on_store lib submit_error (submit lib request) db2) _
                  (on_store-Post Q submit_error (submit lib request) db2
                    (λ out e. (submit-IsValid lib request db2 e valid2, submit-get request db2 e)))
                  (λ outcome t h.
                    let kept : IsKept config.environment (job_view lib outcome.job) t =
                      (h.0, (outcome.job, refl, refl, h.1)) in
                    kept)))
