-- ===== src/Executor/Tasks.antt =====
-- novo_chat/executor.py: the calls that the methods of WorkerExecutor are made of.
use novo_chat.Base.{String, Option}
use novo_chat.Base.Result.{Result, ok, err}
use novo_chat.Base.Action.{Action, ◌>>=◌, return, throw}
use novo_chat.Jobs.{Library, JobStoreError, value_error, Store}
use novo_chat.Jobs.Transition.{set_progress}
use novo_chat.Documents.{Pages, DocumentError, DocumentStore}
use novo_chat.Executor.{Services, Raised, invalid_payload, unexpected, Call, answers, reports}

-- The class of an exception of the job store: "invalid progress" is a ValueError.
abbrev pub raised_by : JobStoreError → Raised
raised_by value_error = invalid_payload
raised_by _ = unexpected

-- A method of the document store that only reads.
abbrev pub kept_with :
    {A : Type 0} (pages : Pages)
    → DocumentStore pages
    → Result DocumentError A
    → Result DocumentError (A × DocumentStore pages)
kept_with pages store (err e) = err e
kept_with pages store (ok a) = ok (a, store)

module _ (lib : Library) (pages : Pages) (services : Services lib pages) where
  open services use {World, clock, document_failure}

  -- What the methods change, and the variables of the one that runs.
  pub record Frame (Locals : Type 0) : Type 0 where
    pub jobs : Store lib
    pub documents : DocumentStore pages
    pub world : World
    pub locals : Locals

module _ (lib : Library) (pages : Pages) (services : Services lib pages) where
  open services use {World, clock, document_failure}

  abbrev pub Task : Type 0 → Type 0 → Type 0
  Task L A = Action (Frame lib pages services L) Raised A

  module _ {L : Type 0} where
    abbrev settle_jobs :
        Frame lib pages services L
        → Result JobStoreError (Store lib)
        → Result Raised (Unit {0}) × Frame lib pages services L
    settle_jobs f (err e) = (err (raised_by e), f)
    settle_jobs f (ok db) = (ok tt, record f { jobs = db })

    -- A call of the job store; one that raises is rolled back.
    unfoldable pub on_jobs : (Store lib → Result JobStoreError (Store lib)) → Task L (Unit {0})
    on_jobs call f = settle_jobs f (call f.jobs)

    abbrev settle_documents :
        {A : Type 0}
        → Frame lib pages services L
        → Result DocumentError (A × DocumentStore pages)
        → Result Raised A × Frame lib pages services L
    settle_documents f (err e) = (err (document_failure e), f)
    settle_documents f (ok (a, store)) = (ok a, record f { documents = store })

    unfoldable pub on_documents :
        {A : Type 0}
        → (DocumentStore pages → Result DocumentError (A × DocumentStore pages))
        → Task L A
    on_documents call f = settle_documents f (call f.documents)

    unfoldable pub on_world : {A : Type 0} → (World → Result Raised A × World) → Task L A
    on_world call f = ((call f.world).0, record f { world = (call f.world).1 })

    -- `self.clock()`
    unfoldable pub read_clock : Task L lib.Real
    read_clock f = (ok (clock f.world).0, record f { world = (clock f.world).1 })

    unfoldable pub read_jobs : {A : Type 0} → (Store lib → A) → Task L A
    read_jobs look f = (ok (look f.jobs), f)

    unfoldable pub read_locals : Task L L
    read_locals f = (ok f.locals, f)

    unfoldable pub write_locals : L → Task L (Unit {0})
    write_locals l f = (ok tt, record f { locals = l })

    unfoldable pub fetch_field : {A : Type 0} → Option A → Task L A
    fetch_field (Option.none) = throw invalid_payload
    fetch_field (Option.some a) = return a

    -- `self.job_store.set_progress(operation_id, …, now=self.clock())`
    unfoldable pub record_progress : String → lib.Real → Option lib.Json → Task L (Unit {0})
    unfolding on_jobs read_clock
    record_progress operation_id progress detail = do
      now ← read_clock
      on_jobs (set_progress lib operation_id progress detail now)

    -- A call that reports to a callback.
    unfoldable pub follow : {V A : Type 0} → (V → Task L (Unit {0})) → Call World V A → Task L A
    follow callback (answers answer world) f = (answer, record f { world = world })
    follow callback (reports v world next) f =
        let done = callback v (record f { world = world }) in
        follow callback (next done.0 done.1.world) done.1

    unfoldable pub call_back :
        {V A : Type 0} → (V → Task L (Unit {0})) → (World → Call World V A) → Task L A
    unfolding follow
    call_back callback call f = follow callback (call f.world) f

  -- What a handler makes of an exception.
  abbrev pub settled :
      {L A : Type 0}
      → Result Raised A × Frame lib pages services L
      → (Raised → Task L A)
      → Result Raised A × Frame lib pages services L
  settled (ok a, f) handler = (ok a, f)
  settled (err e, f) handler = handler e f

  -- `try: … except`
  unfoldable pub try_except : {L A : Type 0} → Task L A → (Raised → Task L A) → Task L A
  try_except body handler f = settled (body f) handler

  -- A call of a method that has variables of its own.
  unfoldable pub with_locals : {L K A : Type 0} → L → Task L A → Task K A
  with_locals l body f =
      let done =
        body (record { jobs = f.jobs; documents = f.documents; world = f.world; locals = l }) in
      (
        done.0,
        record {
          jobs = done.1.jobs;
          documents = done.1.documents;
          world = done.1.world;
          locals = f.locals;
        },
      )
