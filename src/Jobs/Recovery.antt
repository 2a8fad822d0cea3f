-- ===== src/Jobs/Recovery.antt =====
-- novo_chat/jobs.py: `recover_interrupted_operations`, and the key migration of `_initialize`.
use text.Mathlib.Text.{find?}
use Prim.Native.String.{◌++◌ as append_text}
use novo_chat.Base.{Bool, true, false, ◌&&◌, none, some, List, [], ◌==◌}
use novo_chat.Base.Result.{Result, ok, ◌>>=◌}
use novo_chat.Protocol.Types.{
  JobOperation, ingest_batch, ingest_finalize, index_rebuild, queued, running, failed, state_eq,
}
use novo_chat.Jobs.{Library, JobStoreError, OperationRow, Store}
use novo_chat.Jobs.Tables.{is_terminal, update_where, update_checked}
use novo_chat.Jobs.Transition.{vacated_key}

-- operation_type IN (ingest_batch, ingest_finalize, index_rebuild): the idempotent ones
abbrev pub is_resumable : JobOperation → Bool
is_resumable ingest_batch = true
is_resumable ingest_finalize = true
is_resumable index_rebuild = true
is_resumable _ = false

-- operation_type IN (query, model_start, model_stop)
abbrev pub is_one_shot : JobOperation → Bool
is_one_shot JobOperation.query = true
is_one_shot JobOperation.model_start = true
is_one_shot JobOperation.model_stop = true
is_one_shot _ = false

module _ (lib : Library) where
  open lib use {Real, zero_real, utc_timestamp}

  abbrev pub requeued_row : Real → OperationRow lib → OperationRow lib
  requeued_row now o = record o {
    state = queued;
    progress = zero_real;
    updated_at = utc_timestamp now;
  }

  abbrev pub interrupted_row : Real → OperationRow lib → OperationRow lib
  interrupted_row now o = record o {
    dedupe_key = vacated_key o.dedupe_key o.operation_id;
    state = failed;
    error_code = some "WORKER_RESTARTED";
    error_message = some "The worker restarted before the operation completed.";
    retryable = true;
    updated_at = utc_timestamp now;
  }

  unfoldable pub recover_interrupted_operations :
      Real → Store lib → Result JobStoreError (Store lib)
  recover_interrupted_operations now db = do
    let resumed : List (OperationRow lib) =
        update_where (λ o. o.state == running && is_resumable o.operation_type) (requeued_row now)
          db.operations
    operations ←
        update_checked lib (λ o. o.state == running && is_one_shot o.operation_type)
          (interrupted_row now) [] resumed
    ok (record db { operations = operations })

  -- `instr(dedupe_key, ':terminal:' || operation_id) = 0`
  abbrev pub holds_live_key : OperationRow lib → Bool
  holds_live_key o = elim (find? o.dedupe_key (append_text ":terminal:" o.operation_id)) [
    | none ↦ true
    | some _ ↦ false
  ]

  -- The last statement of `_initialize`.
  unfoldable pub vacate_terminal_keys : Store lib → Result JobStoreError (Store lib)
  vacate_terminal_keys db = do
    operations ←
        update_checked lib (λ o. is_terminal o.state && holds_live_key o)
          (λ o. record o { dedupe_key = vacated_key o.dedupe_key o.operation_id }) [] db.operations
    ok (record db { operations = operations })
