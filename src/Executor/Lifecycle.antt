-- ===== src/Executor/Lifecycle.antt =====
-- novo_chat/executor.py: `_model_lifecycle`.
use novo_chat.Base.{
  String, Bool, true, false, not, ◌&&◌, ◌||◌, Option, none, some, List, [], ◌∷◌, ◌==◌, ◌!=◌,
  string_eq, if◌then◌else◌,
}
use novo_chat.Base.Action.{◌>>=◌, ◌>>◌, return, throw}
use novo_chat.Jobs.{Library}
use novo_chat.Jobs.Claim.{StoredOperation}
use novo_chat.Documents.{Pages}
use novo_chat.Executor.{Services, ControllerStatus, Raised, controller}
use novo_chat.Executor.Tasks.{
  Task, on_world, read_locals, write_locals, record_progress, call_back, fetch_field, try_except,
  with_locals,
}

-- `in {"running", "ready"}`
abbrev pub is_started : String → Bool
is_started state = state == "running" || state == "ready"

abbrev pub switch_failed : Raised
switch_failed =
    controller "MODEL_SWITCH_FAILED" "The active model could not be stopped safely." true

abbrev pub not_started : Raised
not_started = controller "MODEL_TRANSITION_FAILED" "Model did not enter a running state." true

abbrev pub readiness_timeout : Raised
readiness_timeout =
    controller "MODEL_READINESS_TIMEOUT"
      "Model started but did not become ready before the timeout." true

abbrev pub not_reached : Raised
not_reached = controller "MODEL_TRANSITION_FAILED" "Model did not reach the requested state." true

module _ (lib : Library) (pages : Pages) (services : Services lib pages) where
  open services use {floats, payloads, status, start_model, stop_model, wait_until_ready}

  -- The loop over the approved models that stops every other one.
  unfoldable pub stop_others :
      {L : Type 0}
      → String
      → StoredOperation lib
      → List String
      → Task lib pages services L (Unit {0})
  stop_others model job [] = return tt
  stop_others model job (other ∷ others) =
      let rest = stop_others model job others in
      if other == model then rest else (do
        found ← on_world lib pages services (status other job.request_id job.actor_user_id)
        if not (is_started found.state) then rest else (do
          stopped ← on_world lib pages services (stop_model other job.request_id job.actor_user_id)
          if stopped.state != "stopped" then throw switch_failed else rest))

  -- `not 0.0 <= progress <= 1.0 or progress < last_progress`
  abbrev pub is_stale : lib.Real → lib.Real → Bool
  is_stale last progress =
      not (lib.leb_real lib.zero_real progress && lib.leb_real progress lib.one_real)
      || floats.less progress last

  abbrev pub take_progress :
      String → lib.Real → Option lib.Real → Task lib pages services lib.Real (Unit {0})
  take_progress operation_id last none = return tt
  take_progress operation_id last (some progress) =
      if is_stale last progress
      then return tt
      else write_locals lib pages services progress
        >> record_progress lib pages services operation_id progress none

  -- `except ModelControllerError: return`
  abbrev pub no_status :
      Raised → Task lib pages services lib.Real (Option (ControllerStatus lib.Real))
  no_status (controller code message retryable) = return none
  no_status raised = throw raised

  abbrev pub start_status :
      String → Option (ControllerStatus lib.Real) → Task lib pages services lib.Real (Unit {0})
  start_status operation_id none = return tt
  start_status operation_id (some found) = do
    last ← read_locals lib pages services
    take_progress operation_id last found.progress

  unfoldable pub report_start_progress :
      String → StoredOperation lib → Task lib pages services lib.Real (Unit {0})
  report_start_progress model job = do
    found ←
        try_except lib pages services
          (do
            found ← on_world lib pages services (status model job.request_id job.actor_user_id)
            return (some found))
          no_status
    start_status job.operation_id found

  unfoldable pub start_lifecycle :
      {L : Type 0} → String → List String → StoredOperation lib → Task lib pages services L lib.Json
  unfolding stop_others report_start_progress
  start_lifecycle model approved_models job = do
    stop_others model job approved_models
    response ← on_world lib pages services (start_model model job.request_id job.actor_user_id)
    if not (is_started response.state) then throw not_started else (do
      ready ← with_locals lib pages services (floats.hundredths 0) (
          call_back lib pages services (λ _. report_start_progress model job)
            (wait_until_ready model))
      if not ready then throw readiness_timeout else return (payloads.model_result model true))

  unfoldable pub stop_lifecycle :
      {L : Type 0} → String → StoredOperation lib → Task lib pages services L lib.Json
  stop_lifecycle model job = do
    response ← on_world lib pages services (stop_model model job.request_id job.actor_user_id)
    if response.state != "stopped"
        then throw not_reached
        else return (payloads.model_result model false)

  unfoldable pub model_lifecycle :
      {L : Type 0} → List String → Bool → StoredOperation lib → Task lib pages services L lib.Json
  unfolding start_lifecycle stop_lifecycle
  model_lifecycle approved_models start job = do
    model ← fetch_field lib pages services (payloads.read_model job.payload)
    if start then start_lifecycle model approved_models job else stop_lifecycle model job
