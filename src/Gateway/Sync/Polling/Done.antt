-- ===== src/Gateway/Sync/Polling/Done.antt =====
-- novo_chat/gateway/sync.py: what `_wait_for_job` waits for.
use novo_chat.Base.{
  ℕ, zero, suc, String, ◌≡◌, refl, Bool, true, false, not, ◌||◌, ◌==◌, ◌!=◌, string_eq, eq_iff,
  arith, not-eq-false,
}
use novo_chat.Base.Result.{Result, ok, err}
use novo_chat.Base.Action.{Action, Post, Post-continue, Post-if, throw}
use novo_chat.Gateway.Sync.{SyncError, synchronization_timeout}
use novo_chat.Gateway.Sync.Polling.{
  Job, by_state, poll, wait_for_job, is_success, is_failure, is_pending,
}

or_false_parts : (a b : Bool) → (a || b) ≡ false → (a ≡ false) × (b ≡ false)
or_false_parts a b h = ground arith

same_texts : (s t s' t' : String) → (s != t || s' != t') ≡ false → (s ≡ t) × (s' ≡ t')
same_texts s t s' t' h =
    let (a, b) = or_false_parts (s != t) (s' != t') h in
    ((eq_iff s t).0 (not-eq-false (s == t) a), (eq_iff s' t').0 (not-eq-false (s' == t') b))

module _ {World : Type 0} (job_status : String → World → Result SyncError Job × World) where
  abbrev pub IsDone : String → String → Job → World → Type 0
  IsDone job_id expected job w =
      (job.job_id ≡ job_id) × (job.operation ≡ expected) × (is_success job.state ≡ true)

  by_state-IsDone :
      (job_id expected : String) (job : Job) (rest : Action World SyncError Job) (w : World)
      → (job.job_id ≡ job_id) × (job.operation ≡ expected)
      → Post (IsDone job_id expected) (rest w)
      → Post (IsDone job_id expected) (by_state job_status job rest w)
  by_state-IsDone job_id expected job rest w same h =
      Post-if (IsDone job_id expected) (is_success job.state) _ _ w (λ e. (same.0, same.1, e))
        (λ _.
          Post-if (IsDone job_id expected) (is_failure job.state) _ _ w (λ _. tt)
            (λ _.
              Post-if (IsDone job_id expected) (not (is_pending job.state)) _ _ w (λ _. tt)
                (λ _. h)))

  any_answer : (out : Result SyncError Job × World) → Post (λ _ _. Unit {0}) out
  any_answer (err e, w) = tt
  any_answer (ok job, w) = tt

  poll-IsDone :
      (polls : ℕ) (job_id expected : String) (job : Job) (w : World)
      → (job.job_id ≡ job_id) × (job.operation ≡ expected)
      → Post (IsDone job_id expected) (poll job_status polls job_id expected job w)
  unfolding poll
  poll-IsDone zero job_id expected job w same =
      by_state-IsDone job_id expected job (throw synchronization_timeout) w same tt
  poll-IsDone (suc polls) job_id expected job w same =
      by_state-IsDone job_id expected job _ w same (
        Post-continue (λ _ _. Unit {0}) (IsDone job_id expected) (job_status job_id w) _
          (any_answer (job_status job_id w))
          (λ next u _.
            Post-if (IsDone job_id expected) (next.job_id != job_id || next.operation != expected) _
              _ u (λ _. tt)
              (λ matches.
                poll-IsDone polls job_id expected next u
                  (same_texts next.job_id job_id next.operation expected matches))))

  -- A job that `_wait_for_job` returns is the submitted one, of the expected operation, in a state of
  -- success, whatever the worker answered on the way.
  pub wait_for_job-IsDone :
      (polls : ℕ) (submitted : Job) (expected : String) (w : World)
      → Post (IsDone submitted.job_id expected) (wait_for_job job_status polls submitted expected w)
  unfolding wait_for_job
  wait_for_job-IsDone polls submitted expected w =
      Post-if (IsDone submitted.job_id expected)
        (submitted.job_id == "" || submitted.operation != expected) _ _ w (λ _. tt)
        (λ e.
          let (_, same) = or_false_parts (submitted.job_id == "") _ e in
          poll-IsDone polls submitted.job_id expected submitted w
            (refl, (eq_iff _ _).0 (not-eq-false (submitted.operation == expected) same)))
