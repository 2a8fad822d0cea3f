-- ===== src/Jobs/Transition.antt =====
-- novo_chat/jobs.py: `_transition`, and `set_running`, `set_progress`, `succeed` and `fail`.
use Prim.Native.String.{◌++◌ as append_text}
use novo_chat.Base.{
  String, Bool, false, not, Option, none, some, List, [], ◌∷◌, string_eq, if◌then◌else◌, contains,
}
use novo_chat.Base.Result.{Result, ok, ◌>>=◌, ◌>>◌, raise_if}
use novo_chat.Protocol.Types.{JobState, queued, running, succeeded, failed, state_eq}
use novo_chat.Jobs.{
  Library, JobStoreError, job_not_found, invalid_transition, value_error, OperationRow, Store,
}
use novo_chat.Jobs.Tables.{is_terminal, fetch_one, progress_ok, update_operation}
use novo_chat.Jobs.Submit.{find_operation}

-- `dedupe_key || ':terminal:' || operation_id`
unfoldable pub vacated_key : String → String → String
vacated_key dedupe_key operation_id = append_text (append_text dedupe_key ":terminal:") operation_id

-- SQL's COALESCE
abbrev pub coalesce {ℓ} : {A : Type ℓ} → Option A → A → A
coalesce none a = a
coalesce (some b) a = b

abbrev pub coalesce_null {ℓ} : {A : Type ℓ} → Option A → Option A → Option A
coalesce_null none a = a
coalesce_null (some b) a = some b

module _ (lib : Library) where
  open lib use {Real, Json}

  -- The keyword arguments of `_transition` but for `operation_id`.
  pub record Change : Type 0 where
    pub allowed_from : List JobState
    pub state : JobState
    pub progress : Option Real
    pub progress_detail : Option Json
    pub result : Option Json
    pub error_code : Option String
    pub error_message : Option String
    pub retryable : Bool
    pub now : Real

module _ (lib : Library) where
  open lib use {Real, Json, one_real, utc_timestamp}

  -- The row that the UPDATE writes.
  abbrev pub changed_row : Change lib → OperationRow lib → OperationRow lib
  changed_row c o = record o {
    dedupe_key =
        if is_terminal c.state then vacated_key o.dedupe_key o.operation_id else o.dedupe_key;
    state = c.state;
    progress = coalesce c.progress o.progress;
    progress_detail = coalesce_null c.progress_detail o.progress_detail;
    result = c.result;
    error_code = c.error_code;
    error_message = c.error_message;
    retryable = c.retryable;
    updated_at = utc_timestamp c.now;
  }

  -- `progress is not None and not 0.0 <= progress <= 1.0`
  abbrev pub bad_progress : Option Real → Bool
  bad_progress none = false
  bad_progress (some p) = not (progress_ok lib p)

  unfoldable pub transition : String → Change lib → Store lib → Result JobStoreError (Store lib)
  transition operation_id c db = do
    raise_if (bad_progress c.progress) value_error
    o ← fetch_one job_not_found (find_operation lib operation_id db.operations)
    raise_if (not (contains c.allowed_from o.state)) invalid_transition
    operations ← update_operation lib (changed_row c o) db.operations
    ok (record db { operations = operations })

  abbrev pub running_change : Real → Real → Change lib
  running_change progress now = record {
    allowed_from = queued ∷ [];
    state = running;
    progress = some progress;
    progress_detail = none;
    result = none;
    error_code = none;
    error_message = none;
    retryable = false;
    now = now;
  }

  unfoldable pub set_running : String → Real → Real → Store lib → Result JobStoreError (Store lib)
  set_running operation_id progress now = transition operation_id (running_change progress now)

  abbrev pub progress_change : Real → Option Json → Real → Change lib
  progress_change progress detail now = record (running_change progress now) {
    allowed_from = running ∷ [];
    progress_detail = detail;
  }

  unfoldable pub set_progress :
      String → Real → Option Json → Real → Store lib → Result JobStoreError (Store lib)
  set_progress operation_id progress detail now =
      transition operation_id (progress_change progress detail now)

  abbrev pub success_change : Json → Real → Change lib
  success_change result now = record {
    allowed_from = queued ∷ running ∷ [];
    state = succeeded;
    progress = some one_real;
    progress_detail = none;
    result = some result;
    error_code = none;
    error_message = none;
    retryable = false;
    now = now;
  }

  unfoldable pub succeed : String → Json → Real → Store lib → Result JobStoreError (Store lib)
  succeed operation_id result now = transition operation_id (success_change result now)

  abbrev pub failure_change : String → String → Bool → Real → Change lib
  failure_change code message retryable now = record {
    allowed_from = queued ∷ running ∷ [];
    state = failed;
    progress = none;
    progress_detail = none;
    result = none;
    error_code = some code;
    error_message = some message;
    retryable = retryable;
    now = now;
  }

  unfoldable pub fail :
      String → String → String → Bool → Real → Store lib → Result JobStoreError (Store lib)
  fail operation_id code message retryable now =
      transition operation_id (failure_change code message retryable now)
