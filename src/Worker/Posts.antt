-- ===== src/Worker/Posts.antt =====
-- novo_chat/worker.py: the endpoints that submit a job, and `job_status` of the job answered.
use mathlib.Core.Path.{subst}
use novo_chat.Base.{
  String, ◌≡◌, refl, sym, ap, ◌∙◌, Bool, true, not, Option, none, some, ◌==◌, string_eq, eq_iff,
  contains, ltb, length,
}
use novo_chat.Base.Result.{ok}
use novo_chat.Base.Action.{Post, Post-continue, Post-mono}
use novo_chat.Protocol.Types.{JobOperation}
use novo_chat.Jobs.{Library, Store}
use novo_chat.Jobs.Valid.{IsValid}
use novo_chat.Worker.{WorkerApiError, WorkerConfig, Body, Draws, Parts}
use novo_chat.Worker.Api.{
  JobView, require, on_store, bind_request, require_approved_model, submit_job,
}
use novo_chat.Worker.Endpoints.{
  Submission, ingest_batch, ingest_finalize, rebuild, query, start_model, stop_model, post,
  job_status, is_job_id, batch_too_large, checksum_mismatch, check, all_ready, submit_model_job,
}
use novo_chat.Worker.Accepted.{require-Post, validate_scope-Post, submit_job-IsKept, Same, IsKept}

module _ (lib : Library) where
  bind_request-Post :
      (signed : Option String) (body_request_id : String) (db : Store lib)
      → Post
          (λ _ t. (t ≡ db) × (signed ≡ some body_request_id))
          (bind_request lib signed body_request_id db)
  unfolding bind_request
  bind_request-Post none body_request_id db = tt
  bind_request-Post (some signed) body_request_id db =
      require-Post lib (λ _ t. (t ≡ db) × (some signed ≡ some body_request_id))
        (signed == body_request_id) _ db
        (λ e. (refl, ap some ((eq_iff signed body_request_id).0 e)))

module _ (lib : Library) (config : WorkerConfig) (draws : Draws lib) where
  require_approved_model-Post :
      (model : String) (db : Store lib)
      → Post
          (λ _ t. (t ≡ db) × (contains config.approved_models model ≡ true))
          (require_approved_model lib config model db)
  unfolding require_approved_model
  require_approved_model-Post model db =
      require-Post lib (λ _ t. (t ≡ db) × (contains config.approved_models model ≡ true))
        (contains config.approved_models model) _ db (λ e. (refl, e))

  module _ (parts : Parts lib) where
    check-Post :
        (test : Store lib → Bool) (e : WorkerApiError) (db : Store lib)
        → Post (λ _ t. (t ≡ db) × (test db ≡ true)) (check lib parts config test e db)
    unfolding check
    check-Post test e db =
        require-Post lib (λ _ t. (t ≡ db) × (test db ≡ true)) (test db) e db (λ h. (refl, h))

    -- What holds of the request of an accepted submission, beside the tables.
    abbrev pub IsAllowed : Submission lib parts → Body → Store lib → Type 0
    IsAllowed (ingest_batch batch_number batch_checksum pages) body db =
        batch_checksum ≡ parts.ingest_pages_checksum pages
    IsAllowed (ingest_finalize document_checksum page_count batch_count) body db = Unit
    IsAllowed (rebuild force) body db = Unit
    IsAllowed (query model question) body db =
        (contains config.approved_models model ≡ true)
        × (all_ready lib parts config db body.scope ≡ true)
    IsAllowed (start_model model) body db = contains config.approved_models model ≡ true
    IsAllowed (stop_model model) body db = contains config.approved_models model ≡ true

    -- An accepted submission: the body is the signed one, its request is allowed, the tables are
    -- valid and have the job under its id.
    abbrev pub Accepts :
        Option String → Body → Submission lib parts → Store lib → JobView lib → Store lib → Type 0
    Accepts signed body asked db view t =
        (signed ≡ some body.request_id)
        × IsAllowed asked body db
        × IsKept lib config.environment view t

    submitted :
        (signed : Option String) (body : Body) (asked : Submission lib parts) (db db' : Store lib)
        (operation : JobOperation) (payload : lib.Json)
        → IsValid lib db
        → db' ≡ db
        → signed ≡ some body.request_id
        → IsAllowed asked body db
        → Post
            (Accepts signed body asked db)
            (submit_job lib config draws body operation payload db')
    submitted signed body asked db db' operation payload valid same bound allowed =
        Post-mono (IsKept lib config.environment) (Accepts signed body asked db) _
          (λ view t kept. (bound, allowed, kept))
          (submit_job-IsKept lib config draws body operation payload db' (rw same valid))

    submit_model_job-Accepts :
        (signed : Option String) (body : Body) (asked : Submission lib parts) (model : String)
        (operation : JobOperation) (db : Store lib)
        → IsValid lib db
        → (contains config.approved_models model ≡ true → IsAllowed asked body db)
        → Post
            (Accepts signed body asked db)
            (submit_model_job lib parts config draws signed body model operation db)
    unfolding submit_model_job
    submit_model_job-Accepts signed body asked model operation db valid allows =
        Post-continue (λ _ t. (t ≡ db) × (signed ≡ some body.request_id))
          (Accepts signed body asked db) _ _ (bind_request-Post lib signed body.request_id db)
          (λ _ db1 bound.
            Post-continue (λ _ t. (t ≡ db1) × (contains config.approved_models model ≡ true))
              (Accepts signed body asked db) _ _ (require_approved_model-Post model db1)
              (λ _ db2 approved.
                submitted signed body asked db db2 operation _ valid (approved.0 ∙ bound.0) bound.1
                  (allows approved.1)))

    -- On valid tables, a POST that is accepted is one whose body has the signed request id and whose
    -- request is allowed; the tables stay valid, and have the answered job under its id.
    pub post-Accepts :
        (signed : Option String) (body : Body) (asked : Submission lib parts) (db : Store lib)
        → IsValid lib db
        → Post (Accepts signed body asked db) (post lib parts config draws signed body asked db)
    unfolding post
    post-Accepts signed body (ingest_batch batch_number batch_checksum pages) db valid =
        let asked = Submission.ingest_batch batch_number batch_checksum pages in
        let Goal = Accepts signed body asked db in
        Post-continue (λ _ t. (t ≡ db) × (signed ≡ some body.request_id)) Goal _ _
          (bind_request-Post lib signed body.request_id db)
          (λ _ db1 bound.
            Post-continue (Same lib db1) Goal _ _ (validate_scope-Post lib config body.scope db1)
              (λ _ db2 same.
                let small = not (ltb config.max_ingest_pages_per_batch (length pages)) in
                let matches = batch_checksum == parts.ingest_pages_checksum pages in
                Post-continue (Same lib db2) Goal (require lib small batch_too_large db2) _
                  (require-Post lib (Same lib db2) small batch_too_large db2 (λ _. refl))
                  (λ _ db3 same3.
                    let Checked : Unit {0} → Store lib → Type 0 =
                      λ _ t. (t ≡ db3) × (batch_checksum ≡ parts.ingest_pages_checksum pages) in
                    Post-continue Checked Goal (require lib matches checksum_mismatch db3) _
                      (require-Post lib Checked matches checksum_mismatch db3
                        (λ e. (refl, (eq_iff _ _).0 e)))
                      (λ _ db4 sum.
                        submitted signed body asked db db4 _ _ valid
                          (sum.0 ∙ same3 ∙ same ∙ bound.0) bound.1 sum.1))))
    post-Accepts signed body (ingest_finalize document_checksum page_count batch_count) db valid =
        let asked = Submission.ingest_finalize document_checksum page_count batch_count in
        Post-continue (λ _ t. (t ≡ db) × (signed ≡ some body.request_id))
          (Accepts signed body asked db) _ _ (bind_request-Post lib signed body.request_id db)
          (λ _ db1 bound. submitted signed body asked db db1 _ _ valid bound.0 bound.1 tt)
    post-Accepts signed body (rebuild force) db valid =
        let asked = Submission.rebuild force in
        Post-continue (λ _ t. (t ≡ db) × (signed ≡ some body.request_id))
          (Accepts signed body asked db) _ _ (bind_request-Post lib signed body.request_id db)
          (λ _ db1 bound. submitted signed body asked db db1 _ _ valid bound.0 bound.1 tt)
    post-Accepts signed body (query model question) db valid =
        let asked = Submission.query model question in
        let Goal = Accepts signed body asked db in
        Post-continue (λ _ t. (t ≡ db) × (signed ≡ some body.request_id)) Goal _ _
          (bind_request-Post lib signed body.request_id db)
          (λ _ db1 bound.
            Post-continue (Same lib db1) Goal _ _ (validate_scope-Post lib config body.scope db1)
              (λ _ db2 same.
                Post-continue (λ _ t. (t ≡ db2) × (contains config.approved_models model ≡ true))
                  Goal _ _ (require_approved_model-Post model db2)
                  (λ _ db3 approved.
                    let ready : Store lib → Bool = λ t. all_ready lib parts config t body.scope in
                    Post-continue (λ _ t. (t ≡ db3) × (ready db3 ≡ true)) Goal _ _
                      (check-Post ready _ db3)
                      (λ _ db4 all_there.
                        let back : db3 ≡ db = approved.0 ∙ same ∙ bound.0 in
                        submitted signed body asked db db4 _ _ valid (all_there.0 ∙ back) bound.1
                          (approved.1, ap ready (sym back) ∙ all_there.1)))))
    post-Accepts signed body (start_model model) db valid =
        submit_model_job-Accepts signed body (Submission.start_model model) model _ db valid
          (λ e. e)
    post-Accepts signed body (stop_model model) db valid =
        submit_model_job-Accepts signed body (Submission.stop_model model) model _ db valid (λ e. e)

    -- The job of an accepted POST is what `job_status` answers for its id, with the tables as they are.
    pub job_status-post :
        (signed asking : Option String) (request_id : String) (body : Body)
        (asked : Submission lib parts) (db : Store lib) {view : JobView lib} {db' : Store lib}
        → IsValid lib db
        → asking ≡ some request_id
        → post lib parts config draws signed body asked db ≡ (ok view, db')
        → is_job_id view.job_id ≡ true
        → job_status lib parts config asking view.job_id db' ≡ (ok view, db')
    unfolding job_status on_store
    job_status-post signed asking request_id body asked db {view} {db'} valid same_asking h named =
        let accepted : Accepts signed body asked db view db' =
          subst (Post (Accepts signed body asked db)) h (post-Accepts signed body asked db valid) in
        let (job, shown, id_kept, got) = accepted.2.1 in
        rw (same_asking, named, got) (ap (λ v. (ok v, db')) (sym shown))
