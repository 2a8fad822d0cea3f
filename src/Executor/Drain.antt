-- ===== src/Executor/Drain.antt =====
-- novo_chat/executor.py: one round of the executor.
pub mod Rounds
pub mod Idle
use novo_chat.Base.{
  ℕ, String, ◌≡◌, ◌⊎◌, refl, sym, ap, ◌∙◌, Bool, true, false, Option, none, some, List, inl, inr,
  any, find_first,
}
use mathlib.Core.Path.{subst}
use novo_chat.Base.Result.{Result, ok, err, Result-cases}
use novo_chat.Base.Action.{◌>>=◌, continue, return}
use novo_chat.Protocol.Types.{queued, running}
use novo_chat.Jobs.{Library, OperationRow, Store}
use novo_chat.Jobs.Tables.{progress_ok}
use novo_chat.Jobs.Transition.{succeed, fail, success_change, failure_change}
use novo_chat.Jobs.Claim.{StoredOperation, claim_next_operation, has_state}
use novo_chat.Jobs.Exclusion.{Claims, claim_next_operation-total}
use novo_chat.Jobs.Valid.{IsValid}
use novo_chat.Jobs.Valid.Bulk.{claim_next_operation-IsValid}
use novo_chat.Documents.{Pages}
use novo_chat.Executor.{Services, Raised}
use novo_chat.Executor.Tasks.{Frame, settled, on_jobs, read_clock, try_except}
use novo_chat.Executor.Handlers.{execute}
use novo_chat.Executor.Loop.{
  WorkerTask, WorkerFrame, execute_and_succeed, fail_with, run_claimed, run_once, claim_operation,
  error_code, error_message, is_retryable,
}
use novo_chat.Executor.Keeps.{Keeps, Kept}
use novo_chat.Executor.Keeps.Rows.{AllPairs, Moved, Moved-refl, Moved-trans}
use novo_chat.Executor.Runs.{execute-Keeps}
use novo_chat.Executor.Settle.{clashes, Finished}
use novo_chat.Executor.Settle.Claimed.{claimed_store, ended-Finished, fail-total}

module _ (lib : Library) (pages : Pages) (services : Services lib pages) (env : String)
    (approved : List String) where
  -- What a round does with the tables `db`: it answers false and changes nothing, where an operation
  -- of the environment runs or none is queued; or it answers true, and the oldest queued operation of
  -- the environment is finished and no other row has changed.
  abbrev pub RoundEnds :
      Store lib → Result Raised Bool × WorkerFrame lib pages services env approved → Type 0
  RoundEnds db out =
      ((out.0 ≡ ok false)
        × (out.1.jobs ≡ db)
        × ((any (has_state lib env running) db.operations ≡ true)
            ⊎ (find_first (has_state lib env queued) db.operations ≡ none)))
      ⊎ ((o : OperationRow lib) × (find_first (has_state lib env queued) db.operations ≡ some o)
          × (any (has_state lib env running) db.operations ≡ false)
          × (out.0 ≡ ok true)
          × AllPairs (Finished lib o.operation_id) db.operations out.1.jobs.operations
          × IsValid lib out.1.jobs
          × (out.1.jobs.submissions ≡ db.submissions))

  -- No other row has the key that the oldest queued operation takes when it is finished.
  abbrev pub HasRoom : Store lib → Type 0
  HasRoom db =
      (o : OperationRow lib)
      → find_first (has_state lib env queued) db.operations ≡ some o
      → any (clashes lib o) db.operations ≡ false

module _ (lib : Library) (pages : Pages) (services : Services lib pages) (env : String)
    (approved : List String) (zero : progress_ok lib lib.zero_real ≡ true) (now : lib.Real)
    (o : OperationRow lib) (db : Store lib) (valid : IsValid lib db)
    (first : find_first (has_state lib env queued) db.operations ≡ some o)
    (room : any (clashes lib o) db.operations ≡ false) (job : StoredOperation lib)
    (job_id : job.operation_id ≡ o.operation_id) where
  abbrev Here : Type 0
  Here = Frame lib pages services (Unit {0})

  abbrev MovedTo : Store lib → Type 0
  MovedTo = Moved lib o.operation_id (claimed_store lib env now o db)

  -- The tables after the end of the operation.
  abbrev DoneWith : Store lib → Type 0
  DoneWith db' =
      AllPairs (Finished lib o.operation_id) db.operations db'.operations
      × IsValid lib db'
      × (db'.submissions ≡ db.submissions)

  abbrev BodyEnds : Result Raised (Unit {0}) × Here → Type 0
  BodyEnds (ok _, g) = DoneWith g.jobs
  BodyEnds (err _, g) = MovedTo g.jobs

  succeed-ends :
      (result : lib.Json) (g : Here)
      → MovedTo g.jobs
      → BodyEnds (
          (do
            later ← read_clock lib pages services
            on_jobs lib pages services (succeed lib job.operation_id result later))
            g)
  unfolding read_clock on_jobs succeed
  succeed-ends result g moved =
      let later = (services.clock g.world).0 in
      elim (Result-cases (succeed lib job.operation_id result later g.jobs)) [
        | inl (db', e) ↦ rw e (
            ended-Finished lib env now o db valid first moved (success_change lib result later) refl
              (rw job_id at e))
        | inr (raised, e) ↦ rw e moved
      ]

  continue-ends :
      (out : Result Raised lib.Json × Here)
      → MovedTo out.1.jobs
      → BodyEnds (
          continue out (λ result. do
            later ← read_clock lib pages services
            on_jobs lib pages services (succeed lib job.operation_id result later)))
  continue-ends (err e, g) moved = moved
  continue-ends (ok result, g) moved = succeed-ends result g moved

  body-ends :
      (f : Here)
      → MovedTo f.jobs
      → BodyEnds (execute_and_succeed lib pages services env approved job f)
  unfolding execute_and_succeed
  body-ends f moved =
      let ran = execute lib pages services (Unit {0}) env approved job f in
      let run : Moved lib job.operation_id f.jobs ran.1.jobs =
        ((execute-Keeps job env approved).kept f).moved moved.valid in
      continue-ends ran (
        Moved-trans lib o.operation_id moved
          (subst (λ t. Moved lib t f.jobs ran.1.jobs) job_id run))

  -- The answer, and the tables.
  abbrev Done : Result Raised Bool × Here → Type 0
  Done out = (out.0 ≡ ok true) × DoneWith out.1.jobs

  fail-ends :
      (raised : Raised) (g : Here)
      → MovedTo g.jobs
      → Done (continue (fail_with lib pages services env approved job raised g) (λ _. return true))
  unfolding fail_with read_clock on_jobs fail
  fail-ends raised g moved =
      let later = (services.clock g.world).0 in
      let (db', e) =
        fail-total lib env now o db valid first moved (error_code raised) (error_message raised)
          (is_retryable raised) later zero room in
      let e' : fail lib job.operation_id (error_code raised) (error_message raised)
            (is_retryable raised) later g.jobs
          ≡ ok db' =
        rw job_id e in
      rw e' (
        refl,
        ended-Finished lib env now o db valid first moved
            (failure_change lib (error_code raised) (error_message raised) (is_retryable raised)
              later)
            refl (rw job_id at e'),
      )

  settled-ends :
      (out : Result Raised (Unit {0}) × Here)
      → BodyEnds out
      → Done (
          continue
            (settled lib pages services out (fail_with lib pages services env approved job))
            (λ _. return true))
  settled-ends (ok done, g) h = (refl, h)
  settled-ends (err raised, g) h = fail-ends raised g h

  pub run_claimed-ends :
      (f : Here) → MovedTo f.jobs → Done (run_claimed lib pages services env approved (some job) f)
  unfolding run_claimed try_except
  run_claimed-ends f moved =
      settled-ends (execute_and_succeed lib pages services env approved job f) (body-ends f moved)

module _ (lib : Library) (pages : Pages) (services : Services lib pages) (env : String)
    (approved : List String) where
  claimed-ends :
      (now : lib.Real) (f : WorkerFrame lib pages services env approved)
      (r : Option (StoredOperation lib) × Store lib)
      → progress_ok lib lib.zero_real ≡ true
      → IsValid lib f.jobs
      → HasRoom lib pages services env approved f.jobs
      → claim_next_operation lib env now f.jobs ≡ ok r
      → Claims lib env now f.jobs r
      → RoundEnds lib pages services env approved f.jobs
          (run_claimed lib pages services env approved r.0 (record f { jobs = r.1 }))
  unfolding run_claimed
  claimed-ends now f (none, db') zero valid room e claims = inl (refl, claims.0, claims.1)
  claimed-ends now f (some job, db') zero valid room e claims =
      let (o, first, free, job_id, _, db_eq, _) = claims in
      let valid' : IsValid lib (claimed_store lib env now o f.jobs) =
        rw db_eq at (claim_next_operation-IsValid lib env now f.jobs e valid) in
      let moved : Moved lib o.operation_id (claimed_store lib env now o f.jobs) db' =
        rw db_eq (Moved-refl lib o.operation_id _ valid') in
      let (answer, done) =
        run_claimed-ends lib pages services env approved zero now o f.jobs valid first
          (room o first) job job_id (record f { jobs = db' }) moved in
      inr (o, first, free, answer, done.0, done.1, done.2)

  -- On valid tables where the next operation has room for its vacated key, and with a zero that is a
  -- progress, a round of the executor never raises, and does what `RoundEnds` says.
  pub run_once-total :
      (f : WorkerFrame lib pages services env approved)
      → progress_ok lib lib.zero_real ≡ true
      → IsValid lib f.jobs
      → HasRoom lib pages services env approved f.jobs
      → RoundEnds lib pages services env approved f.jobs
          (run_once lib pages services env approved f)
  unfolding run_once claim_operation read_clock
  run_once-total f zero valid room =
      let now = (services.clock f.world).0 in
      let (r, e, claims) = claim_next_operation-total lib env now f.jobs valid in
      rw e (
        claimed-ends now (record f { world = (services.clock f.world).1 }) r zero valid room e
          claims)
