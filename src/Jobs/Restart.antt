-- ===== src/Jobs/Restart.antt =====
-- novo_chat/jobs.py: what `recover_interrupted_operations` does to each operation.
use novo_chat.Base.{
  ◌≡◌, refl, ◌∙◌, false, List, ◌∷◌, [], ◌&&◌, map, arith, ◌==◌, any, if◌then◌else◌,
}
use novo_chat.Base.Result.{ok, ok-injective, >>=-eq-ok}
use novo_chat.Protocol.Types.{running, state_eq}
use novo_chat.Jobs.{Library, OperationRow, Store}
use novo_chat.Jobs.Tables.{update_where}
use novo_chat.Jobs.Tables.Statements.{update_checked-ok}
use novo_chat.Jobs.Recovery.{
  recover_interrupted_operations, requeued_row, interrupted_row, is_resumable, is_one_shot,
}
use novo_chat.Jobs.Valid.{IsValid}
use novo_chat.Jobs.Valid.Bulk.{resumed-IsValid}

module _ (lib : Library) (now : lib.Real) where
  -- An idempotent operation that was running is queued again, any other one that was running has
  -- failed, and the rest are as they were.
  abbrev pub restarted : OperationRow lib → OperationRow lib
  restarted o =
      if o.state == running
      then (if is_resumable o.operation_type
          then requeued_row lib now o
          else interrupted_row lib now o)
      else o

  two_updates :
      (rows : List (OperationRow lib))
      → update_where
          (λ o. o.state == running && is_one_shot o.operation_type)
          (interrupted_row lib now)
          (update_where
            (λ o. o.state == running && is_resumable o.operation_type)
            (requeued_row lib now)
            rows)
        ≡ map restarted rows
  two_updates [] = refl
  two_updates (o ∷ rows) = ground (arith, two_updates rows)

  none_running :
      (rows : List (OperationRow lib)) → any (λ o. o.state == running) (map restarted rows) ≡ false
  none_running [] = refl
  none_running (o ∷ rows) = ground (arith, none_running rows)

module _ (lib : Library) where
  -- A recovery that returns has requeued every running operation of an idempotent type, has failed
  -- every other running one with a retryable error, and has changed no other row; afterwards no
  -- operation is running, and submissions and indexes are as before.
  pub recover-restarts :
      (now : lib.Real) (db : Store lib) {db' : Store lib}
      → IsValid lib db
      → recover_interrupted_operations lib now db ≡ ok db'
      → (db' ≡ record db { operations = map (restarted lib now) db.operations })
        × (any (λ o. o.state == running) db'.operations ≡ false)
  unfolding recover_interrupted_operations
  recover-restarts now db valid h =
      let (rows, checked, h1) = >>=-eq-ok _ _ h in
      let (rows_eq, _) =
        update_checked-ok lib _ _ _ checked (resumed-IsValid lib now db valid).keys in
      let all_eq = rows_eq ∙ two_updates lib now db.operations in
      rw (← ok-injective h1, all_eq) (refl, none_running lib now db.operations)
