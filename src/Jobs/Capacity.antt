-- ===== src/Jobs/Capacity.antt =====
-- novo_chat/jobs.py: `submit` and the maximum of active operations.
pub mod Full
use novo_chat.Base.{
  ℕ, ◌+◌, ◌≤◌, ◌≡◌, max, ap, true, false, none, some, List, ◌∷◌, [], ◌++◌, ◌&&◌, arith, ◌==◌,
  string_eq, inl, inr, Option-cases, find_first, count_if-append, leb,
}
use novo_chat.Base.Result.{ok, err}
use novo_chat.Protocol.Types.{state_eq}
use novo_chat.Jobs.{Library, OperationRow, Store, queue_full}
use novo_chat.Jobs.Tables.{is_active}
use novo_chat.Jobs.Tables.Statements.{insert_operation-appends}
use novo_chat.Jobs.Submit.{
  SubmitRequest, SubmissionOutcome, active_operation_count, new_operation, at_capacity, same_caller,
  same_work, join_or_create, submit_new, submit,
}
use novo_chat.Jobs.Valid.Submissions.{
  submit_new-ok, join_or_create-created, join_or_create-joined, resubmit-unchanged,
}

module _ (lib : Library) where
  count_new :
      (r : SubmitRequest lib) (rows : List (OperationRow lib))
      → active_operation_count lib r.environment (rows ++ new_operation lib r ∷ [])
        ≤ active_operation_count lib r.environment rows + 1
  unfolding active_operation_count
  count_new r rows =
      rw
        (count_if-append (λ o. o.environment == r.environment && is_active o.state) rows
          (new_operation lib r ∷ []))
        (ground arith)

  room_below :
      (r : SubmitRequest lib) (rows : List (OperationRow lib)) (limit : ℕ)
      → r.max_active_operations ≡ some limit
      → at_capacity lib r rows ≡ false
      → active_operation_count lib r.environment rows + 1 ≤ limit
  room_below r rows limit e h =
      let room : leb limit (active_operation_count lib r.environment rows) ≡ false =
        rw (e, at_capacity) at h in
      ground arith

  -- Under a limit on the queue, a submission that returns leaves no more active operations of its
  -- environment than the limit, or than there were.
  pub submit-bounded :
      (r : SubmitRequest lib) (db : Store lib) {out : SubmissionOutcome lib × Store lib} (limit : ℕ)
      → submit lib r db ≡ ok out
      → r.max_active_operations ≡ some limit
      → active_operation_count lib r.environment out.1.operations
        ≤ max limit (active_operation_count lib r.environment db.operations)
  unfolding submit
  submit-bounded r db limit h e =
      elim (Option-cases (find_first (same_caller lib r) db.submissions)) [
        | inr (s, again) ↦
            rw (resubmit-unchanged lib r s db (rw (again, submit) at h)) (omega arith)
        | inl first ↦
            let (id, created, operations, submissions, joined, inserted, out_eq, _, _, _) =
              submit_new-ok lib r db (rw (first, submit) at h) in
            elim (Option-cases (find_first (same_work lib r) db.operations)) [
              | inl fresh ↦
                  let (room, inserted_o, _, _) =
                    join_or_create-created lib r db.operations (rw fresh at joined) in
                  let added : operations ≡ db.operations ++ new_operation lib r ∷ [] =
                    insert_operation-appends lib (new_operation lib r) db.operations inserted_o in
                  rw (out_eq, added)
                    (omega
                      (arith, count_new r db.operations, room_below r db.operations limit e room))
              | inr (o, found) ↦
                  let same_rows : operations ≡ db.operations =
                    ap (λ t. t.2)
                      (join_or_create-joined lib r o db.operations (rw found at joined)) in
                  rw (out_eq, same_rows) (omega arith)
            ]
      ]
