-- ===== src/Tests/Executor.antt =====
-- novo_chat/executor.py: a worker with two queued operations.
use novo_chat.Base.{
  ℕ, suc, String, ◌≡◌, ◌+◌, ◌-◌, ◌*◌, ◌/◌, refl, true, false, none, some, List, [], ◌∷◌, ltb,
}
use novo_chat.Base.Result.{ok, err}
use novo_chat.Protocol.Types.{running, model_start}
use novo_chat.Jobs.{Store}
use novo_chat.Jobs.Tables.{same_key, progress_ok, insert_operation, insert_submission}
use novo_chat.Jobs.Calls
use novo_chat.Jobs.Calls.{run, perform, empty_store}
use novo_chat.Jobs.Calls.Invariant.{run-IsValid}
use novo_chat.Jobs.Claim.{StoredOperation}
use novo_chat.Jobs.Submit.{SubmitRequest, submit, active_operation_count, get}
use novo_chat.Executor.{Services, answers, reports, service}
use novo_chat.Executor.Handlers.{execute}
use novo_chat.Executor.Keeps.Rows.{Moved}
use novo_chat.Executor.Runs.{execute-Moved}
use novo_chat.Executor.Loop.{WorkerFrame, run_once, run_until_idle}
use novo_chat.Executor.Drain.{RoundEnds, run_once-total}
use novo_chat.Executor.Drain.Idle.{IsQueue, Drained, run_until_idle-drains, HasRoom-IsRoomy}
use novo_chat.Tests.Jobs.{test_lib, ask, other_ask}
use novo_chat.Tests.Ingest.{pages, empty}

-- The time is the world; a model start reports once and is ready.
abbrev parts : Services test_lib pages
parts = record {
  World = ℕ;
  Candidate = ℕ;
  Artifact = ℕ;
  Question = String;
  floats = record {
    hundredths = λ n. n / 100;
    of_nat = λ n. n;
    add = λ a b. a + b;
    sub = λ a b. a - b;
    mul = λ a b. a * b;
    div = λ a b. a / b;
    less = ltb;
  };
  payloads = record {
    read_batch = λ _. none;
    read_finalize = λ _. none;
    read_strategy = λ _. some tt;
    read_model = λ payload. some payload;
    read_question = λ payload. some payload;
    ingest_result = λ _ _. "ingested";
    index_result = λ _ _. "indexed";
    model_result = λ model ready. model;
    stage_detail = λ _. "planning";
  };
  document_failure = λ _. service "DOCUMENT" "document" false;
  clock = λ t. (t, suc t);
  build_candidate = λ _ _ t. reports 0 t (λ _ t'. answers (ok 1) t');
  chunk_count = λ n. n;
  commit_candidate = λ _ t. (err (service "COMMIT" "commit" true), t);
  discard_candidate = λ _ t. (ok tt, t);
  load_active = λ _ t. (ok 0, t);
  query_index = λ _ _ t. answers (ok "answer") t;
  status = λ _ _ _ t. (ok (record { state = "stopped"; progress = some 1 }), t);
  start_model = λ _ _ _ t. (ok (record { state = "running"; progress = none }), t);
  stop_model = λ _ _ _ t. (ok (record { state = "stopped"; progress = none }), t);
  is_ready = λ _ t. (ok true, t);
  wait_until_ready = λ _ t. reports tt t (λ _ t'. answers (ok true) t');
}

abbrev start_request : SubmitRequest test_lib
start_request = record other_ask { operation = model_start; max_active_operations = none }

abbrev calls : List (Calls.Call test_lib)
calls = Calls.submit ask ∷ Calls.submit start_request ∷ []

abbrev two_queued : Store test_lib
two_queued = run test_lib calls (empty_store test_lib)

abbrev worker : WorkerFrame test_lib pages parts "production" ("why" ∷ "other" ∷ [])
worker = record { jobs = two_queued; documents = empty; world = 0; locals = tt }

two_queued-IsQueue : IsQueue test_lib "production" two_queued
unfolding run perform submit active_operation_count insert_operation insert_submission get same_key
two_queued-IsQueue = record {
  valid = run-IsValid test_lib calls;
  roomy = (λ _. refl, (λ _. refl, tt));
  free = refl;
}

zero_is_progress : progress_ok test_lib test_lib.zero_real ≡ true
unfolding progress_ok
zero_is_progress = refl

run_until_idle-drains_example :
    Drained test_lib pages parts "production"
      ("why" ∷ "other" ∷ [])
      5
      two_queued
      (run_until_idle test_lib pages parts "production" ("why" ∷ "other" ∷ []) 5 worker)
run_until_idle-drains_example =
    run_until_idle-drains test_lib pages parts "production" ("why" ∷ "other" ∷ []) 5 worker
      zero_is_progress two_queued-IsQueue

run_once-total_example :
    RoundEnds test_lib pages parts "production"
      ("why" ∷ "other" ∷ [])
      two_queued
      (run_once test_lib pages parts "production" ("why" ∷ "other" ∷ []) worker)
run_once-total_example =
    run_once-total test_lib pages parts "production" ("why" ∷ "other" ∷ []) worker zero_is_progress
      two_queued-IsQueue.valid
      (HasRoom-IsRoomy test_lib pages parts "production" ("why" ∷ "other" ∷ []) two_queued
        two_queued-IsQueue.roomy)

abbrev start_job : StoredOperation test_lib
start_job = record {
  operation_id = "op2";
  environment = "production";
  actor_user_id = "bob";
  request_id = "req1";
  operation = model_start;
  scope = [];
  payload = "why";
  state = running;
  progress = 0;
  created_at = "2026-01-01T00:00:00+00:00";
  updated_at = "2026-01-01T00:00:00+00:00";
}

execute-Moved_example :
    Moved test_lib "op2" two_queued
      (execute test_lib pages parts
        (Unit {0})
        "production"
        ("why" ∷ "other" ∷ [])
        start_job
        worker).1.jobs
execute-Moved_example =
    execute-Moved start_job "production" ("why" ∷ "other" ∷ []) worker two_queued-IsQueue.valid
