-- ===== src/Tests/Jobs.antt =====
-- novo_chat/jobs.py: concrete submissions and calls.
use novo_chat.Base.{
  ℕ, zero, suc, String, ◌≡◌, ◌≤◌, max, refl, ◌↔◌, find_first, true, false, ◌&&◌, Option, none, some,
  List, [], ◌∷◌, ◌==◌, string_eq, leb, map, count_if, arith, if◌then◌else◌,
}
use novo_chat.Base.Int.{pos}
use novo_chat.Base.Result.{ok, err}
use novo_chat.Protocol.Replay
use novo_chat.Protocol.Replay.{Nonce, ClaimRequest}
use novo_chat.Protocol.Types.{query, NotebookScope, succeeded, queued}
use novo_chat.Jobs.{Library, Store, OperationRow, SubmissionRow, idempotency_conflict, queue_full}
use novo_chat.Jobs.Submit.{
  SubmitRequest, StoredJob, submit, get, same_caller, same_work, active_operation_count,
  find_operation,
}
use novo_chat.Jobs.Tables.{update_operation, insert_operation, insert_submission}
use novo_chat.Jobs.Transition.{succeed, transition, vacated_key}
use novo_chat.Jobs.Claim.{StoredOperation, claim_next_operation}
use novo_chat.Jobs.Calls
use novo_chat.Jobs.Calls.{Call, run, perform, empty_store}
use novo_chat.Jobs.Calls.Invariant.{run-IsValid}
use novo_chat.Jobs.Calls.Frozen.{run-frozen}
use novo_chat.Jobs.Valid.{IsValid}
use novo_chat.Jobs.Exclusion.{claim_next_operation-total, Claims}
use novo_chat.Jobs.Idempotency.{submit-retry, submit-conflict, retry}
use novo_chat.Jobs.Capacity.{submit-bounded}
use novo_chat.Jobs.Capacity.Full.{submit-full}
use novo_chat.Jobs.Retention.{purge_terminal_operations, purgeable}
use novo_chat.Jobs.Valid.Deletions.{purge_lem, kept_operations, kept_submissions}
use novo_chat.Jobs.Nonces.{claim}
use novo_chat.Jobs.Nonces.Once.{answers, answers-claim}
use novo_chat.Jobs.Catalog.{activate_index, activate_indexes, active_index, index_status}
use novo_chat.Jobs.Index.{active_index-activate_index, active_index-activate_indexes, same_slot}
use novo_chat.Jobs.Index.Status.{has_exact, is_some, index_status-exact}

abbrev stamp : ℕ → String
stamp zero = "2026-01-01T00:00:00+00:00"
stamp (suc zero) = "2026-01-02T00:00:00+00:00"
stamp (suc (suc n)) = "2026-01-03T00:00:00+00:00"

abbrev pub test_lib : Library
test_lib = record {
  Real = ℕ;
  zero_real = 0;
  one_real = 1;
  leb_real = leb;
  Json = String;
  utc_timestamp = stamp;
  julian_before = λ a b. a == stamp 0 && b == stamp 2;
  request_digest = λ operation scope payload. payload;
}

abbrev pub notebook : NotebookScope
notebook = record { notebook_id = "nb1"; content_revision = "r1"; index_schema_version = "v1" }

abbrev pub newer : NotebookScope
newer = record notebook { content_revision = "r2" }

abbrev pub ask : SubmitRequest test_lib
ask = record {
  environment = "production";
  actor_user_id = "ada";
  idempotency_key = "key1";
  request_id = "req1";
  operation = query;
  scope = notebook ∷ [];
  payload = "what";
  dedupe_key = none;
  max_active_operations = some 1;
  now = 0;
  operation_handle = "op1";
  job_handle = "job1";
}

abbrev ask_else : SubmitRequest test_lib
ask_else = record ask { payload = "why" }

abbrev pub other_ask : SubmitRequest test_lib
other_ask = record ask {
  payload = "why";
  actor_user_id = "bob";
  operation_handle = "op2";
  job_handle = "job2";
}

abbrev queue : Store test_lib
queue = run test_lib (Calls.submit ask ∷ []) (empty_store test_lib)

abbrev operation : OperationRow test_lib
operation = record {
  operation_id = "op1";
  environment = "production";
  operation_type = query;
  dedupe_key = "what";
  scope = notebook ∷ [];
  payload = "what";
  state = queued;
  progress = 0;
  progress_detail = none;
  result = none;
  error_code = none;
  error_message = none;
  retryable = false;
  created_at = "2026-01-01T00:00:00+00:00";
  updated_at = "2026-01-01T00:00:00+00:00";
}

abbrev submission : SubmissionRow
submission = record {
  submission_id = "job1";
  environment = "production";
  actor_user_id = "ada";
  idempotency_key = "key1";
  request_id = "req1";
  request_fingerprint = "what";
  operation_id = "op1";
  created_at = "2026-01-01T00:00:00+00:00";
}

abbrev pub full_store : Store test_lib
full_store = record { operations = operation ∷ []; submissions = submission ∷ []; indexes = [] }

abbrev job : StoredJob test_lib
job = record {
  job_id = "job1";
  operation_id = "op1";
  environment = "production";
  actor_user_id = "ada";
  request_id = "req1";
  operation = query;
  state = queued;
  created_at = "2026-01-01T00:00:00+00:00";
  updated_at = "2026-01-01T00:00:00+00:00";
  progress = 0;
  progress_detail = none;
  result = none;
  error_code = none;
  error_message = none;
  retryable = false;
}

ask_returns :
    submit test_lib ask (empty_store test_lib)
    ≡ ok (record { job = job; submission_created = true; operation_created = true }, full_store)
unfolding submit active_operation_count insert_operation insert_submission get
ask_returns = refl

run-IsValid_example : IsValid test_lib (
    run test_lib
      (Calls.submit ask ∷ Calls.submit other_ask ∷ Calls.claim_next_operation "production" 1 ∷ [])
      (empty_store test_lib))
run-IsValid_example =
    run-IsValid test_lib
      (Calls.submit ask ∷ Calls.submit other_ask ∷ Calls.claim_next_operation "production" 1 ∷ [])

pub full_store-IsValid : IsValid test_lib full_store
unfolding run perform submit active_operation_count insert_operation insert_submission get
full_store-IsValid = run-IsValid test_lib (Calls.submit ask ∷ [])

claim_next_operation-total_example :
    (r : Option (StoredOperation test_lib) × Store test_lib) × (claim_next_operation test_lib
        "production" 1 full_store
      ≡ ok r)
    × Claims test_lib "production" 1 full_store r
claim_next_operation-total_example =
    claim_next_operation-total test_lib "production" 1 full_store full_store-IsValid

submit-retry_example :
    submit test_lib (retry test_lib ask "req9" 2 "op9" "job9" none (some 0)) full_store
    ≡ ok (record { job = job; submission_created = false; operation_created = false }, full_store)
submit-retry_example =
    submit-retry test_lib ask (empty_store test_lib) "req9" 2 "op9" "job9" none (some 0) ask_returns

submit-conflict_example : submit test_lib ask_else full_store ≡ err idempotency_conflict
submit-conflict_example =
    submit-conflict test_lib ask ask_else (empty_store test_lib) ask_returns refl refl refl
      (λ h. cc)

submit-bounded_example :
    active_operation_count test_lib "production" full_store.operations
    ≤ max 1 (active_operation_count test_lib "production" (empty_store test_lib).operations)
submit-bounded_example = submit-bounded test_lib ask (empty_store test_lib) 1 ask_returns refl

one_active : 1 ≤ active_operation_count test_lib "production" full_store.operations
unfolding active_operation_count
one_active = omega arith

submit-full_example : (submit test_lib other_ask full_store ≡ err queue_full) ↔ (
    (find_first (same_caller test_lib other_ask) full_store.submissions ≡ none)
    × (find_first (same_work test_lib other_ask) full_store.operations ≡ none)
    × (1 ≤ active_operation_count test_lib "production" full_store.operations))
submit-full_example = submit-full test_lib other_ask full_store 1 refl

refused : submit test_lib other_ask full_store ≡ err queue_full
refused = (submit-full test_lib other_ask full_store 1 refl).1 (refl, refl, one_active)

abbrev finished_calls : List (Call test_lib)
finished_calls =
    Calls.submit ask
    ∷ Calls.claim_next_operation "production" 1
    ∷ Calls.succeed "op1" "answer" 1
    ∷ []

abbrev finished_store : Store test_lib
finished_store = run test_lib finished_calls (empty_store test_lib)

abbrev finished_operation : OperationRow test_lib
finished_operation = record operation {
  dedupe_key = "what:terminal:op1";
  state = succeeded;
  progress = 1;
  result = some "answer";
  updated_at = "2026-01-02T00:00:00+00:00";
}

finished : find_operation test_lib "op1" finished_store.operations ≡ some finished_operation
unfolding run perform submit active_operation_count insert_operation insert_submission get
    claim_next_operation succeed find_operation transition update_operation vacated_key
finished = refl

abbrev later_calls : List (Call test_lib)
later_calls =
    Calls.fail "op1" "LATE" "late" true 2
    ∷ Calls.recover_interrupted_operations 2
    ∷ Calls.submit ask
    ∷ []

run-frozen_example :
    find_operation test_lib "op1" (run test_lib later_calls finished_store).operations
    ≡ some finished_operation
run-frozen_example =
    run-frozen test_lib "op1" finished_operation later_calls finished_store refl
      (run-IsValid test_lib finished_calls) finished refl

purge_lem_example :
    purge_terminal_operations test_lib "production" 2 finished_store
    ≡ ok (
      count_if (purgeable test_lib "production" (stamp 2)) finished_store.operations,
      record finished_store {
        operations =
            kept_operations test_lib (purgeable test_lib "production" (stamp 2)) finished_store;
        submissions =
            kept_submissions test_lib (purgeable test_lib "production" (stamp 2)) finished_store;
      },
    )
purge_lem_example = purge_lem test_lib "production" 2 finished_store

abbrev nonce_claim : ℕ → ClaimRequest
nonce_claim t = record {
  claimed = record { environment = "production"; key_id = "k"; nonce = "n"; expires_at = pos 10 };
  seen_at = pos t;
}

answers-claim_example :
    answers claim (nonce_claim 3 ∷ nonce_claim 4 ∷ nonce_claim 11 ∷ []) []
    ≡ answers Replay.claim (nonce_claim 3 ∷ nonce_claim 4 ∷ nonce_claim 11 ∷ []) []
answers-claim_example =
    answers-claim (pos 0) (nonce_claim 3 ∷ nonce_claim 4 ∷ nonce_claim 11 ∷ [])
      (omega arith, (omega arith, (omega arith, tt)))

active_index-activate_index_example :
    active_index test_lib newer "production"
      (activate_index test_lib newer "production" "a2" 1 full_store)
    ≡ (if same_slot "production" newer "production" newer
        then (if newer.content_revision == newer.content_revision
            then some (record { scope = newer; artifact_id = "a2"; activated_at = stamp 1 })
            else none)
        else active_index test_lib newer "production" full_store)
active_index-activate_index_example =
    active_index-activate_index test_lib newer newer "production" "production" "a2" 1 full_store

active_index-activate_indexes_example :
    active_index test_lib newer "production"
      (activate_indexes test_lib ((notebook, "a1") ∷ (newer, "a2") ∷ []) "production" 1 full_store)
    ≡ some (record { scope = newer; artifact_id = "a2"; activated_at = stamp 1 })
active_index-activate_indexes_example =
    active_index-activate_indexes test_lib newer "production" "production" 1
      ((notebook, "a1") ∷ (newer, "a2") ∷ []) full_store

index_status-exact_example :
    (index_status test_lib (notebook ∷ newer ∷ []) "production" full_store
      ≡ map (has_exact test_lib full_store "production") (notebook ∷ newer ∷ []))
    × (map
          (λ scope. is_some (active_index test_lib scope "production" full_store))
          (notebook ∷ newer ∷ [])
        ≡ map (has_exact test_lib full_store "production") (notebook ∷ newer ∷ []))
index_status-exact_example =
    index_status-exact test_lib (notebook ∷ newer ∷ []) "production" full_store full_store-IsValid
