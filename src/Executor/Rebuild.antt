-- ===== src/Executor/Rebuild.antt =====
-- novo_chat/executor.py: `_rebuild`.
use novo_chat.Base.{
  ℕ, suc, String, Bool, ◌&&◌, none, List, [], ◌∷◌, ◌++◌, ◌+◌, max, length, if◌then◌else◌,
}
use novo_chat.Base.Result.{ok}
use novo_chat.Base.Action.{◌>>=◌, ◌>>◌, return, throw}
use novo_chat.Protocol.Types.{NotebookScope}
use novo_chat.Jobs.{Library}
use novo_chat.Jobs.Catalog.{activate_indexes}
use novo_chat.Jobs.Claim.{StoredOperation}
use novo_chat.Documents.{Pages, load}
use novo_chat.Executor.{Services, Floats}
use novo_chat.Executor.Tasks.{
  Task, on_jobs, on_documents, on_world, kept_with, read_clock, read_locals, write_locals,
  record_progress, call_back, try_except, with_locals,
}

-- `max(a, b)` and `min(a, b)`
module _ {Real : Type 0} (floats : Floats Real) where
  abbrev pub max_real : Real → Real → Real
  max_real a b = if floats.less a b then b else a

  abbrev pub min_real : Real → Real → Real
  min_real a b = if floats.less b a then b else a

-- The variables of `_rebuild`.
pub record Rebuilding (Real Candidate : Type 0) : Type 0 where
  pub last_progress : Real
  pub candidates : List Candidate

module _ (lib : Library) (pages : Pages) (services : Services lib pages) where
  open services use {
    Candidate, floats, payloads, build_candidate, chunk_count, commit_candidate, discard_candidate,
  }
  open floats use {hundredths, of_nat, add, sub, mul, div, less}

  abbrev pub RebuildTask : Type 0 → Type 0
  RebuildTask = Task lib pages services (Rebuilding lib.Real Candidate)

  abbrev pub bounded_progress : lib.Real → lib.Real → lib.Real
  bounded_progress last value = min_real floats (hundredths 90) (max_real floats last value)

  -- A step of less than 0.01 below 0.90.
  abbrev pub is_small_step : lib.Real → lib.Real → Bool
  is_small_step last bounded =
      less bounded (hundredths 90) && less (sub bounded last) (hundredths 1)

  unfoldable pub report_progress : String → lib.Real → RebuildTask (Unit {0})
  report_progress operation_id value = do
    locals ← read_locals lib pages services
    let bounded = bounded_progress locals.last_progress value
    if is_small_step locals.last_progress bounded
        then return tt
        else write_locals lib pages services (record locals { last_progress = bounded })
          >> record_progress lib pages services operation_id bounded none

  unfoldable pub add_candidate : Candidate → RebuildTask (Unit {0})
  add_candidate candidate = do
    locals ← read_locals lib pages services
    write_locals lib pages services
        (record locals { candidates = locals.candidates ++ candidate ∷ [] })

  -- The loop over the scopes, from a position on.
  unfoldable pub build_all : String → ℕ → ℕ → List NotebookScope → RebuildTask (Unit {0})
  build_all operation_id scope_count position [] = return tt
  build_all operation_id scope_count position (scope ∷ scopes) = do
    document ←
        on_documents lib pages services (λ store. kept_with pages store (load pages scope store))
    candidate ←
        call_back lib pages services
          (λ value.
            report_progress operation_id
              (div (mul (hundredths 90) (add (of_nat position) value)) (of_nat scope_count)))
          (build_candidate document operation_id)
    add_candidate candidate
    build_all operation_id scope_count (suc position) scopes

  -- The loop over the candidates, from a position on.
  unfoldable pub commit_all :
      String → ℕ → ℕ → List Candidate → RebuildTask (List (NotebookScope × String))
  commit_all operation_id scope_count position [] = return []
  commit_all operation_id scope_count position (candidate ∷ candidates) = do
    entry ← on_world lib pages services (commit_candidate candidate)
    record_progress lib pages services operation_id
        (add (hundredths 90)
          (div (mul (hundredths 9) (of_nat (position + 1))) (of_nat scope_count)))
        none
    committed ← commit_all operation_id scope_count (suc position) candidates
    return (entry ∷ committed)

  unfoldable pub discard_all : List Candidate → RebuildTask (Unit {0})
  discard_all [] = return tt
  discard_all (candidate ∷ candidates) =
      on_world lib pages services (discard_candidate candidate) >> discard_all candidates

  abbrev pub sum_chunks : List Candidate → ℕ
  sum_chunks [] = 0
  sum_chunks (candidate ∷ candidates) = chunk_count candidate + sum_chunks candidates

  -- The body of the `try`.
  unfoldable pub build_and_activate : String → StoredOperation lib → RebuildTask (Unit {0})
  unfolding build_all commit_all
  build_and_activate environment job = do
    build_all job.operation_id (max 1 (length job.scope)) 0 job.scope
    locals ← read_locals lib pages services
    committed ← commit_all job.operation_id (max 1 (length job.scope)) 0 locals.candidates
    now ← read_clock lib pages services
    on_jobs lib pages services (λ db. ok (activate_indexes lib committed environment now db))

  unfoldable pub rebuild :
      {L : Type 0} → String → StoredOperation lib → Task lib pages services L lib.Json
  unfolding build_and_activate discard_all
  rebuild environment job =
      with_locals lib pages services (record { last_progress = hundredths 0; candidates = [] })
        (do
          report_progress job.operation_id (hundredths 2)
          try_except lib pages services (build_and_activate environment job) (λ raised. do
            locals ← read_locals lib pages services
            discard_all locals.candidates
            throw raised)
          locals ← read_locals lib pages services
          return (payloads.index_result job.scope (sum_chunks locals.candidates)))
