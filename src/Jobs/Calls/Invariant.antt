-- ===== src/Jobs/Calls/Invariant.antt =====
-- novo_chat/jobs.py: the validity of the tables under a sequence of calls.
use novo_chat.Base.{String, ◌≡◌, refl, List, [], ◌∷◌, ◌==◌, nat_eq, string_eq}
use novo_chat.Base.Result.{Result, ok, err}
use novo_chat.Jobs.{Library, JobStoreError, Store}
use novo_chat.Jobs.Calls.{
  Call, submit, claim_next_operation, set_running, set_progress, succeed, fail,
  recover_interrupted_operations, purge_terminal_operations, storage_retention_snapshot,
  activate_index, activate_indexes, committed, committed_with, perform, run, empty_store,
}
use novo_chat.Jobs.Valid.{IsValid}
use novo_chat.Jobs.Tables.{index_conflict}
use novo_chat.Jobs.Tables.Keys.{Free}
use novo_chat.Jobs.Submit.{active_operation_count}
use novo_chat.Jobs.Retention.{expired_index}
use novo_chat.Jobs.Valid.Indexes.{Free-upsert_index, Free-upsert_all, Free-kept}
use novo_chat.Jobs.Valid.Submissions.{submit-IsValid}
use novo_chat.Jobs.Valid.Bulk.{claim_next_operation-IsValid, recover-IsValid}
use novo_chat.Jobs.Valid.Updates.{transition-IsValid}
use novo_chat.Jobs.Valid.Deletions.{purge-IsValid}
use novo_chat.Jobs.Transition
use novo_chat.Jobs.Retention
use novo_chat.Jobs.Catalog

module _ (lib : Library) where
  committed-IsValid :
      (db : Store lib) (m : Result JobStoreError (Store lib))
      → ((db' : Store lib) → m ≡ ok db' → IsValid lib db')
      → IsValid lib db
      → IsValid lib (committed lib db m)
  committed-IsValid db (ok db') k valid = k db' refl
  committed-IsValid db (err e) k valid = valid

  committed_with-IsValid :
      {A : Type 0} (db : Store lib) (m : Result JobStoreError (A × Store lib))
      → ((r : A × Store lib) → m ≡ ok r → IsValid lib r.1)
      → IsValid lib db
      → IsValid lib (committed_with lib db m)
  committed_with-IsValid db (ok r) k valid = k r refl
  committed_with-IsValid db (err e) k valid = valid

  same_tables :
      (db : Store lib) {db' : Store lib}
      → db'.operations ≡ db.operations
      → db'.submissions ≡ db.submissions
      → Free index_conflict db'.indexes
      → IsValid lib db
      → IsValid lib db'
  same_tables db o s slots valid = record {
    ids = rw o valid.ids;
    keys = rw o valid.keys;
    handles = rw s valid.handles;
    linked = rw (o, s) valid.linked;
    owned = rw (o, s) valid.owned;
    slots = slots;
  }

  transition_commit :
      (id : String) (c : Transition.Change lib) (db : Store lib)
      → IsValid lib db
      → IsValid lib (committed lib db (Transition.transition lib id c db))
  transition_commit id c db v =
      committed-IsValid db (Transition.transition lib id c db)
        (λ db' h. transition-IsValid lib id c db h v) v

  -- Each call, whether it returns or raises, leaves valid tables valid.
  pub perform-IsValid :
      (call : Call lib) (db : Store lib) → IsValid lib db → IsValid lib (perform lib call db)
  unfolding perform Transition.set_running Transition.set_progress Transition.succeed
      Transition.fail Catalog.activate_index Catalog.activate_indexes
      Retention.storage_retention_snapshot
  perform-IsValid (submit r) db v =
      committed_with-IsValid db _ (λ out h. submit-IsValid lib r db h v) v
  perform-IsValid (claim_next_operation env now) db v =
      committed_with-IsValid db _ (λ out h. claim_next_operation-IsValid lib env now db h v) v
  perform-IsValid (set_running id p now) db v =
      transition_commit id (Transition.running_change lib p now) db v
  perform-IsValid (set_progress id p detail now) db v =
      transition_commit id (Transition.progress_change lib p detail now) db v
  perform-IsValid (succeed id result now) db v =
      transition_commit id (Transition.success_change lib result now) db v
  perform-IsValid (fail id code message retryable now) db v =
      transition_commit id (Transition.failure_change lib code message retryable now) db v
  perform-IsValid (recover_interrupted_operations now) db v =
      committed-IsValid db _ (λ db' h. recover-IsValid lib now db h v) v
  perform-IsValid (purge_terminal_operations env before) db v =
      committed_with-IsValid db _ (λ out h. purge-IsValid lib env before db h v) v
  perform-IsValid (storage_retention_snapshot row_before env before) db v =
      same_tables db refl refl
        (Free-kept (active_operation_count lib env db.operations == 0)
          (expired_index lib env (lib.utc_timestamp before)) db.indexes v.slots)
        v
  perform-IsValid (activate_index scope env artifact now) db v =
      same_tables db refl refl
        (Free-upsert_index env (lib.utc_timestamp now) scope artifact db.indexes v.slots) v
  perform-IsValid (activate_indexes entries env now) db v =
      same_tables db refl refl
        (Free-upsert_all env (lib.utc_timestamp now) entries db.indexes v.slots) v

  run_keeps :
      (calls : List (Call lib)) (db : Store lib) → IsValid lib db → IsValid lib (run lib calls db)
  unfolding run
  run_keeps [] db v = v
  run_keeps (call ∷ calls) db v = run_keeps calls (perform lib call db) (perform-IsValid call db v)

  empty_store-IsValid : IsValid lib (empty_store lib)
  empty_store-IsValid = record {
    ids = tt;
    keys = tt;
    handles = tt;
    slots = tt;
    linked = tt;
    owned = tt;
  }

  -- After any calls of the store, in any order and whether they raise or not, from the empty tables:
  -- operation ids are unique, no two operations of an environment and type hold one dedupe key,
  -- handles and (environment, actor, idempotency key) triples are unique, no two active indexes have one
  -- environment, notebook and schema version, each submission's operation is there in the submission's
  -- environment, and each operation has a submission.
  pub run-IsValid : (calls : List (Call lib)) → IsValid lib (run lib calls (empty_store lib))
  run-IsValid calls = run_keeps calls (empty_store lib) empty_store-IsValid
