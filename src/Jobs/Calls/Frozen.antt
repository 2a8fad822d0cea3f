-- ===== src/Jobs/Calls/Frozen.antt =====
-- novo_chat/jobs.py: the row of a finished operation under a sequence of calls.
use novo_chat.Base.{String, ◌≡◌, refl, Bool, true, false, some, List, [], ◌∷◌, any, contains, arith}
use novo_chat.Base.Result.{Result, ok, err}
use novo_chat.Protocol.Types.{JobState, queued, running, state_eq}
use novo_chat.Jobs.{Library, JobStoreError, OperationRow, Store}
use novo_chat.Jobs.Tables.{is_terminal}
use novo_chat.Jobs.Submit.{find_operation}
use novo_chat.Jobs.Terminal.{Holds, transition-Holds, claim-Holds, recover-Holds, submit-Holds}
use novo_chat.Jobs.Calls.{
  Call, submit, claim_next_operation, set_running, set_progress, succeed, fail,
  recover_interrupted_operations, purge_terminal_operations, storage_retention_snapshot,
  activate_index, activate_indexes, committed, committed_with, perform, run,
}
use novo_chat.Jobs.Calls.Invariant.{perform-IsValid}
use novo_chat.Jobs.Transition
use novo_chat.Jobs.Retention
use novo_chat.Jobs.Catalog
use novo_chat.Jobs.Valid.{IsValid}

closed_to_start : (s : JobState) → is_terminal s ≡ true → contains (queued ∷ []) s ≡ false
closed_to_start s h = ground arith

closed_to_progress : (s : JobState) → is_terminal s ≡ true → contains (running ∷ []) s ≡ false
closed_to_progress s h = ground arith

closed_to_finish :
    (s : JobState) → is_terminal s ≡ true → contains (queued ∷ running ∷ []) s ≡ false
closed_to_finish s h = ground arith

module _ (lib : Library) where
  abbrev pub is_purge : Call lib → Bool
  is_purge (purge_terminal_operations _ _) = true
  is_purge _ = false

module _ (lib : Library) (id : String) (o : OperationRow lib)
    (done : is_terminal o.state ≡ true) where
  committed-Holds :
      (db : Store lib) (m : Result JobStoreError (Store lib))
      → ((db' : Store lib) → m ≡ ok db' → Holds lib id o db'.operations)
      → Holds lib id o db.operations
      → Holds lib id o (committed lib db m).operations
  committed-Holds db (ok db') k held = k db' refl
  committed-Holds db (err e) k held = held

  committed_with-Holds :
      {A : Type 0} (db : Store lib) (m : Result JobStoreError (A × Store lib))
      → ((r : A × Store lib) → m ≡ ok r → Holds lib id o r.1.operations)
      → Holds lib id o db.operations
      → Holds lib id o (committed_with lib db m).operations
  committed_with-Holds db (ok r) k held = k r refl
  committed_with-Holds db (err e) k held = held

  transition_commit :
      (id' : String) (c : Transition.Change lib) (db : Store lib)
      → contains c.allowed_from o.state ≡ false
      → IsValid lib db
      → Holds lib id o db.operations
      → Holds lib id o (committed lib db (Transition.transition lib id' c db)).operations
  transition_commit id' c db closed v held =
      committed-Holds db (Transition.transition lib id' c db)
        (λ db' h. transition-Holds lib id o id' c db closed h v held) held

  perform-Holds :
      (call : Call lib) (db : Store lib)
      → is_purge lib call ≡ false
      → IsValid lib db
      → Holds lib id o db.operations
      → Holds lib id o (perform lib call db).operations
  unfolding perform Transition.set_running Transition.set_progress Transition.succeed
      Transition.fail Catalog.activate_index Catalog.activate_indexes
      Retention.storage_retention_snapshot
  perform-Holds (submit r) db np v held =
      committed_with-Holds db _ (λ out h. submit-Holds lib id o r db h held) held
  perform-Holds (claim_next_operation env now) db np v held =
      committed_with-Holds db _ (λ out h. claim-Holds lib id o env now db done h v held) held
  perform-Holds (set_running id' p now) db np v held =
      transition_commit id' (Transition.running_change lib p now) db (closed_to_start _ done) v held
  perform-Holds (set_progress id' p detail now) db np v held =
      transition_commit id' (Transition.progress_change lib p detail now) db
        (closed_to_progress _ done) v held
  perform-Holds (succeed id' result now) db np v held =
      transition_commit id' (Transition.success_change lib result now) db (closed_to_finish _ done)
        v held
  perform-Holds (fail id' code message retryable now) db np v held =
      transition_commit id' (Transition.failure_change lib code message retryable now) db
        (closed_to_finish _ done) v held
  perform-Holds (recover_interrupted_operations now) db np v held =
      committed-Holds db _ (λ db' h. recover-Holds lib id o now db done h v held) held
  perform-Holds (purge_terminal_operations env before) db np v held = cc
  perform-Holds (storage_retention_snapshot row_before env before) db np v held = held
  perform-Holds (activate_index scope env artifact now) db np v held = held
  perform-Holds (activate_indexes entries env now) db np v held = held

module _ (lib : Library) where
  -- On valid tables, a row found in a terminal state is found unchanged, with its result, its error
  -- and its timestamps, after any calls that do not purge.
  pub run-frozen :
      (id : String) (o : OperationRow lib) (calls : List (Call lib)) (db : Store lib)
      → is_terminal o.state ≡ true
      → IsValid lib db
      → find_operation lib id db.operations ≡ some o
      → any (is_purge lib) calls ≡ false
      → find_operation lib id (run lib calls db).operations ≡ some o
  unfolding run
  run-frozen id o [] db done v held np = held
  run-frozen id o (call ∷ calls) db done v held np =
      let now_free : is_purge lib call ≡ false = ground arith in
      let later_free : any (is_purge lib) calls ≡ false = ground arith in
      run-frozen id o calls (perform lib call db) done (perform-IsValid lib call db v)
        (perform-Holds lib id o done call db now_free v held) later_free
