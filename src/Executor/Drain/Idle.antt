-- ===== src/Executor/Drain/Idle.antt =====
-- novo_chat/executor.py: `run_until_idle` on a queue.
use novo_chat.Base.{
  ℕ, zero, suc, String, ◌≡◌, ◌+◌, min, refl, ap, ◌∙◌, Bool, true, false, some, List, [], ◌∷◌, arith,
  ◌==◌, string_eq, All, if◌then◌else◌, inl, inr, any, find_first, find_first-eq-some, count_if,
  find_first-none,
}
use text.Mathlib.TextPositions.{eq_refl}
use novo_chat.Base.Result.{Result, ok, err, err-ne-ok, ok-injective}
use novo_chat.Base.Action.{continue, return, ◌>>=◌}
use novo_chat.Protocol.Types.{queued, running}
use novo_chat.Jobs.{Library, OperationRow, Store}
use novo_chat.Jobs.Tables.{progress_ok}
use novo_chat.Jobs.Tables.Keys.{Once-of_ids}
use novo_chat.Jobs.Claim.{has_state}
use novo_chat.Jobs.Valid.{IsValid}
use novo_chat.Documents.{Pages}
use novo_chat.Executor.{Services, Raised}
use novo_chat.Executor.Loop.{WorkerTask, WorkerFrame, run_once, run_until_idle}
use novo_chat.Executor.Keeps.Rows.{AllPairs}
use novo_chat.Executor.Settle.{Finished}
use novo_chat.Executor.Settle.Claimed.{find-Once}
use novo_chat.Executor.Drain.{RoundEnds, HasRoom, run_once-total}
use novo_chat.Executor.Drain.Rounds.{
  IsRoomy, IsRoomy-kept, any-clashes, count-ended, still_not_running, All-first, AllPairs-none,
}

count-any : {A : Type 0} (q : A → Bool) (xs : List A) → any q xs ≡ false → count_if q xs ≡ 0
count-any q [] h = refl
count-any q (x ∷ xs) h = ground (arith, h, count-any q xs)

module _ (lib : Library) (env : String) where
  abbrev pub queue_length : Store lib → ℕ
  queue_length db = count_if (has_state lib env queued) db.operations

  -- Valid tables with no operation of the environment running, where the vacated keys of the queued
  -- operations are free.
  pub record IsQueue (db : Store lib) : Type 0 where
    pub valid : IsValid lib db
    pub roomy : IsRoomy lib env db.operations
    pub free : any (has_state lib env running) db.operations ≡ false

module _ (lib : Library) (pages : Pages) (services : Services lib pages) (env : String)
    (approved : List String) where
  abbrev pub Here : Type 0
  Here = WorkerFrame lib pages services env approved

  -- At most `n` operations are done, fewer only if no more are queued; as many leave the queue.
  abbrev pub Drained : ℕ → Store lib → Result Raised ℕ × Here → Type 0
  Drained n db out =
      (out.0 ≡ ok (min n (queue_length lib env db)))
      × (queue_length lib env out.1.jobs + min n (queue_length lib env db)
          ≡ queue_length lib env db)
      × IsQueue lib env out.1.jobs

  pub HasRoom-IsRoomy :
      (db : Store lib) → IsRoomy lib env db.operations → HasRoom lib pages services env approved db
  HasRoom-IsRoomy db roomy o first = any-clashes lib env o db.operations (
      All-first _ (has_state lib env queued) db.operations roomy first
        (ground (arith, find_first-eq-some (has_state lib env queued) db.operations first)))

  -- The queue after a round that ran an operation.
  IsQueue-round :
      (db db' : Store lib) (o : OperationRow lib)
      → IsQueue lib env db
      → find_first (has_state lib env queued) db.operations ≡ some o
      → AllPairs (Finished lib o.operation_id) db.operations db'.operations
      → IsValid lib db'
      → IsQueue lib env db' × (queue_length lib env db ≡ suc (queue_length lib env db'))
  IsQueue-round db db' o queue first ends valid =
      let once = Once-of_ids lib o.operation_id db.operations queue.valid.ids in
      let found =
        find-Once (λ r. r.operation_id == o.operation_id) (has_state lib env queued) db.operations
          once first (eq_refl o.operation_id) in
      let is_queued = find_first-eq-some (has_state lib env queued) db.operations first in
      (
        record {
          valid = valid;
          roomy =
              IsRoomy-kept lib env o.operation_id db.operations db'.operations once found is_queued
                ends queue.roomy;
          free =
              AllPairs-none (Finished lib o.operation_id) (λ _. Unit {0})
                (has_state lib env running) (has_state lib env running)
                (still_not_running lib env o.operation_id) db.operations db'.operations
                (everywhere db.operations) ends queue.free;
        },
        count-ended lib env o.operation_id db.operations db'.operations once found is_queued ends,
      )
    where
      everywhere : (rows : List (OperationRow lib)) → All (λ _. Unit {0}) rows
      everywhere [] = tt
      everywhere (x ∷ rows) = (tt, everywhere rows)

  -- What a round and the rounds after it do.
  abbrev go_on : ℕ → Bool → WorkerTask lib pages services env approved ℕ
  go_on n ran =
      if ran
      then (do completed ← run_until_idle lib pages services env approved n; return (suc completed))
      else return 0

  later-Drained :
      (n : ℕ) (db db' : Store lib) (out : Result Raised ℕ × Here)
      → queue_length lib env db ≡ suc (queue_length lib env db')
      → Drained n db' out
      → Drained (suc n) db (continue out (λ completed. return (suc completed)))
  later-Drained n db db' (err e, g) drop h = absurd (err-ne-ok h.0)
  later-Drained n db db' (ok completed, g) drop h =
      (ap ok (ap suc (ok-injective h.0) ∙ ground (arith, drop)), ground (arith, drop, h.1), h.2)

  round-Drained :
      (n : ℕ) (db : Store lib) (out : Result Raised Bool × Here)
      → IsQueue lib env db
      → RoundEnds lib pages services env approved db out
      → ((g : Here)
          → IsQueue lib env g.jobs
          → Drained n g.jobs (run_until_idle lib pages services env approved n g))
      → Drained (suc n) db (continue out (go_on n))
  round-Drained n db (answer, g) queue (inl (no_answer, same, inl busy)) later =
      absurd (ground (arith, busy, queue.free))
  round-Drained n db (answer, g) queue (inl (no_answer, same, inr idle)) later =
      let empty =
        count-any (has_state lib env queued) db.operations
          (find_first-none (has_state lib env queued) db.operations idle) in
      rw no_answer (ap ok (ground (arith, empty)), rw same (ground (arith, empty)), rw same queue)
  round-Drained n db (answer, g) queue (inr (o, first, free, yes_answer, ends, valid, _)) later =
      let (queue', drop) = IsQueue-round db g.jobs o queue first ends valid in
      rw yes_answer (
        later-Drained n db g.jobs (run_until_idle lib pages services env approved n g) drop
          (later g queue'))

  -- On a queue, with a zero that is a progress, `run_until_idle` never raises, does as many operations
  -- as are queued, up to its maximum, and takes as many from the queue, which stays one.
  pub run_until_idle-drains :
      (n : ℕ) (f : Here)
      → progress_ok lib lib.zero_real ≡ true
      → IsQueue lib env f.jobs
      → Drained n f.jobs (run_until_idle lib pages services env approved n f)
  unfolding run_until_idle
  run_until_idle-drains zero f zero_ok queue = (ap ok (omega arith), omega arith, queue)
  run_until_idle-drains (suc n) f zero_ok queue =
      round-Drained n f.jobs (run_once lib pages services env approved f) queue
        (run_once-total lib pages services env approved f zero_ok queue.valid
          (HasRoom-IsRoomy f.jobs queue.roomy))
        (λ g. run_until_idle-drains n g zero_ok)
