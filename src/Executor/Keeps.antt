-- ===== src/Executor/Keeps.antt =====
-- novo_chat/executor.py: what the tables keep while an operation runs.
pub mod Rows
use novo_chat.Base.{String, ◌≡◌, inl, inr, Option, none, some}
use novo_chat.Base.Result.{Result, ok, err, Result-cases}
use novo_chat.Base.Action.{continue, ◌>>=◌}
use novo_chat.Jobs.{Library, JobStoreError, Store}
use novo_chat.Jobs.Transition.{set_progress}
use novo_chat.Jobs.Valid.{IsValid}
use novo_chat.Documents.{Pages, DocumentError, DocumentStore}
use novo_chat.Executor.{Services, Raised, Call, answers, reports}
use novo_chat.Executor.Tasks.{
  Frame, Task, on_jobs, on_documents, on_world, read_clock, read_jobs, read_locals, write_locals,
  fetch_field, record_progress, follow, call_back, try_except, with_locals, settled,
}
use novo_chat.Executor.Keeps.Rows.{Moved, Moved-refl, Moved-trans, set_progress-Moved}

module _ (lib : Library) (pages : Pages) (services : Services lib pages) (id : String) where
  open services use {World}

  -- From valid tables, only the row of `id` moves.
  pub record Kept (db db' : Store lib) : Type 0 where
    pub moved : IsValid lib db → Moved lib id db db'

  pub record Keeps {L A : Type 0} (m : Task lib pages services L A) : Type 0 where
    pub kept : (f : Frame lib pages services L) → Kept f.jobs (m f).1.jobs

module _ {lib : Library} {pages : Pages} {services : Services lib pages} {id : String} where
  open services use {World}

  pub same : (db : Store lib) → Kept lib pages services id db db
  same db = record { moved = λ valid. Moved-refl lib id db valid }

  both :
      (db db' db'' : Store lib)
      → Kept lib pages services id db db'
      → Kept lib pages services id db' db''
      → Kept lib pages services id db db''
  both db db' db'' h k = record {
    moved = λ valid. Moved-trans lib id (h.moved valid) (k.moved (h.moved valid).valid);
  }

  module _ {L : Type 0} where
    continue-Keeps :
        {A B : Type 0} (f : Frame lib pages services L)
        (out : Result Raised A × Frame lib pages services L)
        (next : A → Task lib pages services L B)
        → Kept lib pages services id f.jobs out.1.jobs
        → ((a : A) → Keeps lib pages services id (next a))
        → Kept lib pages services id f.jobs (continue out next).1.jobs
    continue-Keeps f (err e, g) next h k = h
    continue-Keeps f (ok a, g) next h k = both f.jobs g.jobs (next a g).1.jobs h ((k a).kept g)

    pub kept_then :
        {A B : Type 0} {m : Task lib pages services L A} {next : A → Task lib pages services L B}
        → Keeps lib pages services id m
        → ((a : A) → Keeps lib pages services id (next a))
        → Keeps lib pages services id (m >>= next)
    kept_then {m = m} {next = next} h k = record {
      kept = λ f. continue-Keeps f (m f) next (h.kept f) k;
    }

    pub on_documents-Keeps :
        {A : Type 0} (call : DocumentStore pages → Result DocumentError (A × DocumentStore pages))
        → Keeps lib pages services id {L = L} (on_documents lib pages services call)
    unfolding on_documents
    on_documents-Keeps call = record {
      kept = λ f. elim (Result-cases (call f.documents)) [
        | inl (out, e) ↦ rw e (same f.jobs)
        | inr (raised, e) ↦ rw e (same f.jobs)
      ];
    }

    pub on_world-Keeps :
        {A : Type 0} (call : World → Result Raised A × World)
        → Keeps lib pages services id {L = L} (on_world lib pages services call)
    unfolding on_world
    on_world-Keeps call = record { kept = λ f. same f.jobs }

    pub read_clock-Keeps : Keeps lib pages services id {L = L} (read_clock lib pages services)
    unfolding read_clock
    read_clock-Keeps = record { kept = λ f. same f.jobs }

    pub read_jobs-Keeps :
        {A : Type 0} (look : Store lib → A)
        → Keeps lib pages services id {L = L} (read_jobs lib pages services look)
    unfolding read_jobs
    read_jobs-Keeps look = record { kept = λ f. same f.jobs }

    pub read_locals-Keeps : Keeps lib pages services id {L = L} (read_locals lib pages services)
    unfolding read_locals
    read_locals-Keeps = record { kept = λ f. same f.jobs }

    pub write_locals-Keeps :
        (l : L) → Keeps lib pages services id (write_locals lib pages services l)
    unfolding write_locals
    write_locals-Keeps l = record { kept = λ f. same f.jobs }

    pub fetch_field-Keeps :
        {A : Type 0} (field : Option A)
        → Keeps lib pages services id {L = L} (fetch_field lib pages services field)
    unfolding fetch_field
    fetch_field-Keeps none = record { kept = λ f. same f.jobs }
    fetch_field-Keeps (some a) = record { kept = λ f. same f.jobs }

    pub on_jobs-Keeps :
        (call : Store lib → Result JobStoreError (Store lib))
        → ((db db' : Store lib) → call db ≡ ok db' → Kept lib pages services id db db')
        → Keeps lib pages services id {L = L} (on_jobs lib pages services call)
    unfolding on_jobs
    on_jobs-Keeps call k = record {
      kept = λ f. elim (Result-cases (call f.jobs)) [
        | inl (db, e) ↦ rw e (k f.jobs db e)
        | inr (raised, e) ↦ rw e (same f.jobs)
      ];
    }

    pub record_progress-Keeps :
        (progress : lib.Real) (detail : Option lib.Json)
        → Keeps lib pages services id {L = L}
            (record_progress lib pages services id progress detail)
    unfolding record_progress
    record_progress-Keeps progress detail = kept_then read_clock-Keeps (λ now.
        on_jobs-Keeps (set_progress lib id progress detail now)
          (λ db db' e. record { moved = set_progress-Moved lib id progress detail now db e }))

    follow-Keeps :
        {V A : Type 0} (callback : V → Task lib pages services L (Unit {0})) (call : Call World V A)
        → ((v : V) → Keeps lib pages services id (callback v))
        → (f : Frame lib pages services L)
        → Kept lib pages services id f.jobs (follow lib pages services callback call f).1.jobs
    unfolding follow
    follow-Keeps callback (answers answer world) k f = same f.jobs
    follow-Keeps callback (reports v world next) k f =
        let g : Frame lib pages services L = record f { world = world } in
        let done = callback v g in
        both f.jobs done.1.jobs _ ((k v).kept g)
          (follow-Keeps callback (next done.0 done.1.world) k done.1)

    pub call_back-Keeps :
        {V A : Type 0} {callback : V → Task lib pages services L (Unit {0})}
        (call : World → Call World V A)
        → ((v : V) → Keeps lib pages services id (callback v))
        → Keeps lib pages services id (call_back lib pages services callback call)
    unfolding call_back
    call_back-Keeps {callback = callback} call k = record {
      kept = λ f. follow-Keeps callback (call f.world) k f;
    }

    settled-Keeps :
        {A : Type 0} (f : Frame lib pages services L)
        (out : Result Raised A × Frame lib pages services L)
        (handler : Raised → Task lib pages services L A)
        → Kept lib pages services id f.jobs out.1.jobs
        → ((raised : Raised) → Keeps lib pages services id (handler raised))
        → Kept lib pages services id f.jobs (settled lib pages services out handler).1.jobs
    settled-Keeps f (ok a, g) handler h k = h
    settled-Keeps f (err e, g) handler h k =
        both f.jobs g.jobs (handler e g).1.jobs h ((k e).kept g)

    pub try_except-Keeps :
        {A : Type 0} {body : Task lib pages services L A}
        {handler : Raised → Task lib pages services L A}
        → Keeps lib pages services id body
        → ((raised : Raised) → Keeps lib pages services id (handler raised))
        → Keeps lib pages services id (try_except lib pages services body handler)
    unfolding try_except
    try_except-Keeps {body = body} {handler = handler} h k = record {
      kept = λ f. settled-Keeps f (body f) handler (h.kept f) k;
    }

  pub with_locals-Keeps :
      {L K A : Type 0} (l : L) {body : Task lib pages services L A}
      → Keeps lib pages services id body
      → Keeps lib pages services id {L = K} (with_locals lib pages services l body)
  unfolding with_locals
  with_locals-Keeps l h = record {
    kept = λ f.
        h.kept (record { jobs = f.jobs; documents = f.documents; world = f.world; locals = l });
  }
