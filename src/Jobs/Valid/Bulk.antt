-- ===== src/Jobs/Valid/Bulk.antt =====
-- novo_chat/jobs.py: the validity of the tables under a claim and the restart recovery.
use novo_chat.Base.{
  String, ◌≡◌, refl, Bool, true, ◌&&◌, Option, ◌==◌, ◌!=◌, nat_eq, string_eq, inl, inr, Bool-cases,
  Option-cases, any, find_first, count_if,
}
use novo_chat.Base.Result.{ok, err-ne-ok, >>=-eq-ok, ok-injective}
use novo_chat.Protocol.Types.{queued, running, state_eq, operation_eq}
use novo_chat.Jobs.{Library, OperationRow, Store}
use novo_chat.Jobs.Tables.{same_key, update_where}
use novo_chat.Jobs.Tables.Keys.{Free-update_where, same_key_comm}
use novo_chat.Jobs.Tables.Statements.{update_checked-ok}
use novo_chat.Jobs.Claim.{
  first_submission, StoredOperation, claim_next_operation, claim_row, claimable, claimed_row,
  has_state,
}
use novo_chat.Jobs.Recovery.{
  recover_interrupted_operations, requeued_row, interrupted_row, is_resumable, is_one_shot,
}
use novo_chat.Jobs.Valid.{IsValid}
use novo_chat.Jobs.Valid.Updates.{update-IsValid}

module _ (lib : Library) where
  -- An UPDATE that leaves the key columns alone.
  keyless-IsValid :
      (p : OperationRow lib → Bool) (f : OperationRow lib → OperationRow lib) (db : Store lib)
      → ((o : OperationRow lib)
          → p o ≡ true
          → ((f o).operation_id ≡ o.operation_id) × ((f o).environment ≡ o.environment))
      → ((a o : OperationRow lib) → same_key lib a (f o) ≡ same_key lib a o)
      → IsValid lib db
      → IsValid lib (record db { operations = update_where p f db.operations })
  keyless-IsValid p f db k same valid =
      update-IsValid lib p f db k
        (Free-update_where (same_key lib) (same_key_comm lib) p f db.operations (λ a o _. same a o)
          valid.keys)
        valid

  same_key-claimed :
      (now : lib.Real) (a o : OperationRow lib)
      → same_key lib a (claimed_row lib now o) ≡ same_key lib a o
  unfolding same_key
  same_key-claimed now a o = refl

  same_key-requeued :
      (now : lib.Real) (a o : OperationRow lib)
      → same_key lib a (requeued_row lib now o) ≡ same_key lib a o
  unfolding same_key
  same_key-requeued now a o = refl

  pub claim_row-IsValid :
      (now : lib.Real) (o : OperationRow lib) (db : Store lib)
      {r : Option (StoredOperation lib) × Store lib}
      → claim_row lib now o db ≡ ok r
      → IsValid lib db
      → IsValid lib r.1
  unfolding claim_row first_submission
  claim_row-IsValid now o db h valid =
      elim (Option-cases (find_first (λ s. s.operation_id == o.operation_id) db.submissions)) [
        | inl missing ↦ absurd (err-ne-ok (rw missing at h))
        | inr (s, found) ↦
            elim (Bool-cases (count_if (claimable lib o.operation_id) db.operations != 1)) [
              | inl e ↦ rw (← ok-injective (rw (found, e) at h)) valid
              | inr e ↦ rw (← ok-injective (rw (found, e) at h)) (
                  keyless-IsValid (claimable lib o.operation_id) (claimed_row lib now) db
                    (λ _ _. (refl, refl)) (same_key-claimed now) valid)
            ]
      ]

  pub claim_next_operation-IsValid :
      (env : String) (now : lib.Real) (db : Store lib)
      {r : Option (StoredOperation lib) × Store lib}
      → claim_next_operation lib env now db ≡ ok r
      → IsValid lib db
      → IsValid lib r.1
  unfolding claim_next_operation
  claim_next_operation-IsValid env now db h valid =
      elim (Bool-cases (any (has_state lib env running) db.operations)) [
        | inl busy ↦ rw (← ok-injective (rw busy at h)) valid
        | inr free ↦ elim (Option-cases (find_first (has_state lib env queued) db.operations)) [
          | inl idle ↦ rw (← ok-injective (rw (free, idle) at h)) valid
          | inr (o, found) ↦ claim_row-IsValid now o db (rw (free, found) at h) valid
        ]
      ]

  -- The tables after the first UPDATE of the recovery.
  pub resumed-IsValid :
      (now : lib.Real) (db : Store lib)
      → IsValid lib db
      → IsValid lib (record db {
        operations =
            update_where
              (λ o. o.state == running && is_resumable o.operation_type)
              (requeued_row lib now)
              db.operations;
      })
  resumed-IsValid now db valid =
      keyless-IsValid (λ o. o.state == running && is_resumable o.operation_type)
        (requeued_row lib now) db (λ _ _. (refl, refl)) (same_key-requeued now) valid

  pub recover-IsValid :
      (now : lib.Real) (db : Store lib) {db' : Store lib}
      → recover_interrupted_operations lib now db ≡ ok db'
      → IsValid lib db
      → IsValid lib db'
  unfolding recover_interrupted_operations
  recover-IsValid now db h valid =
      let (rows, checked, h1) = >>=-eq-ok _ _ h in
      let resumed = resumed-IsValid now db valid in
      let (rows_eq, keys) = update_checked-ok lib _ _ _ checked resumed.keys in
      rw (← ok-injective h1, rows_eq)
        (update-IsValid lib (λ o. o.state == running && is_one_shot o.operation_type)
          (interrupted_row lib now)
          (record db {
            operations =
                update_where (λ o. o.state == running && is_resumable o.operation_type)
                  (requeued_row lib now) db.operations;
          })
          (λ _ _. (refl, refl)) (rw rows_eq at keys) resumed)
