-- ===== src/ModelControl/Requests.antt =====
-- deploy/compute-host/modelctl_server.py: `parse_request` and `handle_request`. A decoded request is
-- seen through the tests that the code makes of it, and another field that is not a string is none.
use novo_chat.Base.{
  ℕ, String, Bool, not, ◌&&◌, ◌||◌, Option, none, some, List, ◌==◌, nat_eq, string_eq, leb, length,
  all, if◌then◌else◌,
}
use novo_chat.Base.Result.{Result, ok, err, ◌>>=◌, ◌>>◌, raise_if}
use novo_chat.Protocol.Tokens.{is_alphanumeric, codes}
use novo_chat.ModelControl.{ControllerError, Host}
use novo_chat.ModelControl.Config.{ModelConfig, InventoryFile, is_model_id}
use novo_chat.ModelControl.Controller
use novo_chat.ModelControl.Controller.{Status, Answer}

-- The field `action`: a text, another value that a set can look for, or a list or an object.
pub data ActionField : Type 0 where
  text : String → ActionField
  other_value unhashable : ActionField

-- What `parse_request` reads of the decoded bytes.
pub data Decoded : Type 0 where
  not_json not_an_object : Decoded
  object :
      (has_other_fields is_version_1 : Bool) (request_id actor_id : Option String)
      (action : ActionField) (model : Option String)
      → Decoded

pub data Action : Type 0 where
  status start stop : Action

pub record Request : Type 0 where
  pub request_id : String
  pub actor_id : String
  pub action : Action
  pub model : String

-- `fullmatch` of one to 128 characters of a class
abbrev pub is_run_of : (ℕ → Bool) → String → Bool
is_run_of p s = leb 1 (length (codes s)) && leb (length (codes s)) 128 && all p (codes s)

-- REQUEST_ID_RE
unfoldable pub is_request_id : String → Bool
is_request_id =
    is_run_of (λ c. is_alphanumeric c || c == b'_' || c == b'.' || c == b':' || c == b'-')

-- ACTOR_ID_RE
unfoldable pub is_actor_id : String → Bool
is_actor_id =
    is_run_of
      (λ c. is_alphanumeric c || c == b'_' || c == b'.' || c == b':' || c == b'@' || c == b'-')

-- ControllerError's default status
abbrev pub bad_request : String → String → ControllerError
bad_request code message = record { code = code; message = message; status = 400 }

-- What `handle_request` answers to any other exception, here the TypeError of the test in the set.
abbrev pub internal_error : ControllerError
internal_error = record {
  code = "INTERNAL_ERROR";
  message = "Model controller failed.";
  status = 500;
}

abbrev pub checked :
    (String → Bool) → ControllerError → Option String → Result ControllerError String
checked p e none = err e
checked p e (some s) = if p s then ok s else err e

unfoldable pub parse_action : ActionField → Result ControllerError Action
parse_action other_value = err (bad_request "UNKNOWN_ACTION" "Action is not approved.")
parse_action unhashable = err internal_error
parse_action (text a) =
    if a == "status"
    then ok status
    else if a == "start"
    then ok start
    else if a == "stop"
    then ok stop
    else err (bad_request "UNKNOWN_ACTION" "Action is not approved.")

unfoldable pub parse_request : Decoded → Result ControllerError Request
unfolding parse_action
parse_request not_json = err (bad_request "INVALID_JSON" "Request must be valid UTF-8 JSON.")
parse_request not_an_object = err (bad_request "INVALID_REQUEST" "Request must be a JSON object.")
parse_request (object others version_1 request_id actor_id action model) = do
  raise_if others (bad_request "INVALID_REQUEST" "Request contains unsupported fields.")
  raise_if (not version_1)
      (bad_request "UNSUPPORTED_VERSION" "Unsupported controller protocol version.")
  id ←
      checked is_request_id (bad_request "INVALID_REQUEST_ID" "A valid request ID is required.")
        request_id
  actor ← checked is_actor_id (bad_request "INVALID_ACTOR" "A valid actor ID is required.") actor_id
  a ← parse_action action
  m ← checked is_model_id (bad_request "INVALID_MODEL" "A valid model ID is required.") model
  ok (record { request_id = id; actor_id = actor; action = a; model = m })

-- The payload, its `version` left out; an error's `requestId` is empty until the request is parsed.
pub data Payload : Type 0 where
  success : (request : Request) (answer : Status) → Payload
  failure : (request_id : String) (error : ControllerError) → Payload

module _ (host : Host) where
  open host use {World}

  -- `controller.status`, `start` or `stop`
  unfoldable pub perform :
      List ModelConfig → Bool → Option InventoryFile → Request → World → Answer host Status
  perform configs lockable inventory request w = elim request.action [
    | status ↦ Controller.status host configs request.model w
    | start ↦ Controller.start host configs lockable inventory request.model w
    | stop ↦ Controller.stop host configs lockable request.model w
  ]

  -- The payload, the HTTP-like status and the host afterwards.
  unfoldable pub handle_request :
      List ModelConfig → Bool → Option InventoryFile → Decoded → World → Payload × ℕ × World
  unfolding perform
  handle_request configs lockable inventory raw w = elim (parse_request raw) [
    | err e ↦ (failure "" e, e.status, w)
    | ok request ↦
        let (answer, w') = perform configs lockable inventory request w in
        elim answer [
          | err e ↦ (failure request.request_id e, e.status, w')
          | ok s ↦ (success request s, 200, w')
        ]
  ]
