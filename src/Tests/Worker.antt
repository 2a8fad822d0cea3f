-- ===== src/Tests/Worker.antt =====
-- novo_chat/worker.py: a query that is posted, and a framed body.
use novo_chat.Base.{ℕ, String, ◌≡◌, ◌≤◌, refl, true, false, none, some, List, [], ◌∷◌}
use novo_chat.Base.Result.{ok, err}
use novo_chat.Base.Action.{Post}
use novo_chat.Protocol.Types.{JobOperation, JobState}
use novo_chat.Jobs.{Store}
use novo_chat.Jobs.Submit.{submit, active_operation_count, get}
use novo_chat.Jobs.Retention.{purge_terminal_operations}
use novo_chat.Jobs.Tables.{same_key, insert_operation, insert_submission, delete_operations}
use novo_chat.Worker.{WorkerConfig, Body, Draws, Parts}
use novo_chat.Worker.Api.{
  JobView, bind_request, validate_scope, require_approved_model, submit_job, job_view,
}
use novo_chat.Worker.Endpoints.{Submission, post, job_status, is_job_id}
use novo_chat.Worker.Posts.{Accepts, post-Accepts, job_status-post}
use novo_chat.Worker.Framing.{
  RawRequest, complete, framed_body, declared_by, request_too_large, int_from, is_longer,
  has_transfer_encoding, declared_length,
}
use novo_chat.Worker.Framing.Lengths.Exact.{declared_by-exact, framed_body-bounded}
use novo_chat.Tests.Jobs.{test_lib, notebook, full_store, full_store-IsValid}

abbrev pub config : WorkerConfig
config = record {
  environment = "production";
  approved_models = "llama" ∷ [];
  index_schema_versions = "v1" ∷ [];
  max_scope_entries = 2;
  max_ingest_pages_per_batch = 2;
  max_active_operations = 4;
}

abbrev pub parts : Parts test_lib
parts = record {
  PageDocument = String;
  ingest_pages_checksum = λ pages. "sum";
  batch_payload = λ number checksum pages. checksum;
  finalize_payload = λ checksum pages batches. checksum;
  rebuild_payload = λ force. "rebuild";
  Question = String;
  query_payload = λ model question. question;
  model_payload = λ model. model;
  artifact_ready = λ active. true;
  artifact_status = λ active. elim active [
    | none ↦ record { exact_ready = false; activated_at = none; chunk_count = none }
    | some index ↦ record {
      exact_ready = true;
      activated_at = some index.activated_at;
      chunk_count = some 7;
    }
  ];
}

abbrev draws : Draws test_lib
draws = record {
  updated_before = 0;
  now = 1;
  operation_handle = "op7";
  job_handle = "job_abcdefghijklmnopqrst";
}

abbrev body : Body
body = record {
  request_id = "req7";
  actor_user_id = "cy";
  idempotency_key = "key7";
  scope = notebook ∷ [];
}

abbrev asked : Submission test_lib parts
asked = Submission.query "llama" "where"

post-Accepts_example :
    Post
      (Accepts test_lib config draws parts (some "req7") body asked full_store)
      (post test_lib parts config draws (some "req7") body asked full_store)
post-Accepts_example =
    post-Accepts test_lib config draws parts (some "req7") body asked full_store full_store-IsValid

abbrev answer : JobView test_lib
answer = record {
  job_id = "job_abcdefghijklmnopqrst";
  operation = JobOperation.query;
  state = JobState.queued;
  created_at = "2026-01-02T00:00:00+00:00";
  updated_at = "2026-01-02T00:00:00+00:00";
  progress = 0;
  progress_detail = none;
  result = none;
  error = none;
}

abbrev store_after : Store test_lib
store_after = (post test_lib parts config draws (some "req7") body asked full_store).1

posted :
    post test_lib parts config draws (some "req7") body asked full_store ≡ (ok answer, store_after)
unfolding post bind_request validate_scope require_approved_model submit_job
    purge_terminal_operations delete_operations submit active_operation_count insert_operation
    same_key insert_submission get job_view
posted = refl

named : is_job_id "job_abcdefghijklmnopqrst" ≡ true
unfolding is_job_id
named = refl

job_status-post_example :
    job_status test_lib parts config (some "req8") "job_abcdefghijklmnopqrst" store_after
    ≡ (ok answer, store_after)
job_status-post_example =
    job_status-post test_lib config draws parts (some "req7") (some "req8") "req8" body asked
      full_store full_store-IsValid refl posted named

-- The limit is 120, as a text.
abbrev limit_text : List ℕ
limit_text = 49 ∷ 50 ∷ 48 ∷ []

declared_by-exact_example :
    declared_by (λ cs. cs) limit_text 120 (48 ∷ 49 ∷ 50 ∷ 49 ∷ []) ≡ err request_too_large
unfolding int_from
declared_by-exact_example =
    declared_by-exact (λ cs. cs) limit_text 120 (48 ∷ 49 ∷ 50 ∷ 49 ∷ []) refl refl refl refl refl

abbrev request : RawRequest
request = record {
  method = "POST";
  transfer_encodings = [];
  content_lengths = (51 ∷ []) ∷ [];
  chunks = (1 ∷ 2 ∷ []) ∷ [] ∷ (3 ∷ []) ∷ [];
  stream_end = complete;
}

framed : framed_body (λ cs. cs) limit_text 120 request ≡ ok (1 ∷ 2 ∷ 3 ∷ [])
unfolding framed_body is_longer int_from
framed = refl

framed_body-bounded_example :
    (has_transfer_encoding (λ cs. cs) limit_text 120 [] ≡ false)
    × (declared_length (λ cs. cs) limit_text 120 "POST" ((51 ∷ []) ∷ []) ≡ ok 3)
    × (3 ≤ 120)
framed_body-bounded_example = framed_body-bounded (λ cs. cs) limit_text 120 request framed
