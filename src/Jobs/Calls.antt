-- ===== src/Jobs/Calls.antt =====
-- The calls that the worker makes of `JobStore` (novo_chat/jobs.py), one after another: each runs in
-- an immediate transaction, so an interleaving of threads is a sequence of calls.
pub mod Invariant
pub mod Frozen
use novo_chat.Base.{String, ℕ, Bool, Option, List, [], ◌∷◌}
use novo_chat.Base.Result.{Result, ok, err}
use novo_chat.Protocol.Types.{NotebookScope}
use novo_chat.Jobs
use novo_chat.Jobs.{Library, JobStoreError, IndexRow, Store}
use novo_chat.Jobs.Submit.{SubmitRequest}
use novo_chat.Jobs.Submit
use novo_chat.Jobs.Claim
use novo_chat.Jobs.Transition
use novo_chat.Jobs.Recovery
use novo_chat.Jobs.Retention
use novo_chat.Jobs.Catalog

module _ (lib : Library) where
  open lib use {Real, Json}

  pub data Call : Type 0 where
    submit : SubmitRequest lib → Call
    claim_next_operation : String → Real → Call
    set_running : String → Real → Real → Call
    set_progress : String → Real → Option Json → Real → Call
    succeed : String → Json → Real → Call
    fail : String → String → String → Bool → Real → Call
    recover_interrupted_operations : Real → Call
    purge_terminal_operations : String → Real → Call
    storage_retention_snapshot : (IndexRow → IndexRow → Bool) → String → Real → Call
    activate_index : NotebookScope → String → String → Real → Call
    activate_indexes : List (NotebookScope × String) → String → Real → Call

  -- A call that raises has rolled back.
  abbrev pub committed : Store lib → Result JobStoreError (Store lib) → Store lib
  committed db (ok db') = db'
  committed db (err _) = db

  abbrev pub committed_with :
      {A : Type 0} → Store lib → Result JobStoreError (A × Store lib) → Store lib
  committed_with db (ok (_, db')) = db'
  committed_with db (err _) = db

  unfoldable pub perform : Call → Store lib → Store lib
  perform (submit r) db = committed_with db (Submit.submit lib r db)
  perform (claim_next_operation env now) db =
      committed_with db (Claim.claim_next_operation lib env now db)
  perform (set_running id p now) db = committed db (Transition.set_running lib id p now db)
  perform (set_progress id p detail now) db =
      committed db (Transition.set_progress lib id p detail now db)
  perform (succeed id result now) db = committed db (Transition.succeed lib id result now db)
  perform (fail id code message retryable now) db =
      committed db (Transition.fail lib id code message retryable now db)
  perform (recover_interrupted_operations now) db =
      committed db (Recovery.recover_interrupted_operations lib now db)
  perform (purge_terminal_operations env before) db =
      committed_with db (Retention.purge_terminal_operations lib env before db)
  perform (storage_retention_snapshot row_before env before) db =
      (Retention.storage_retention_snapshot lib row_before env before db).1
  perform (activate_index scope env artifact now) db =
      Catalog.activate_index lib scope env artifact now db
  perform (activate_indexes entries env now) db = Catalog.activate_indexes lib entries env now db

  unfoldable pub run : List Call → Store lib → Store lib
  run [] db = db
  run (call ∷ calls) db = run calls (perform call db)

  abbrev pub empty_store : Store lib
  empty_store = record { operations = []; submissions = []; indexes = [] }
