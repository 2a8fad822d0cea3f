-- ===== src/ModelControl/Controller.antt =====
-- deploy/compute-host/modelctl_server.py: DockerController. A call takes the host before it to its
-- answer, or the ControllerError it raises, and the host after it.
use novo_chat.Base.{
  ℕ, String, ◌+◌, Bool, true, false, not, ◌||◌, Option, none, some, List, [], ◌∷◌, ◌==◌, ◌!=◌,
  nat_eq, string_eq, any, all, contains, leb, if◌then◌else◌,
}
use novo_chat.Base.Result.{Result, ok, err}
use novo_chat.ModelControl.{
  ControllerError, Outcome, completed, timed_out, unavailable, arguments, inspect_running,
  inspect_started, logs, start_container, stop_container, Host,
}
use novo_chat.ModelControl.Config.{ModelConfig, InventoryFile, load_inventory}

abbrev pub docker_timeout : ControllerError
docker_timeout = record {
  code = "DOCKER_TIMEOUT";
  message = "Container operation timed out.";
  status = 503;
}

abbrev pub docker_unavailable : ControllerError
docker_unavailable = record {
  code = "DOCKER_UNAVAILABLE";
  message = "Container controller is unavailable.";
  status = 503;
}

abbrev pub container_unavailable : ControllerError
container_unavailable = record {
  code = "CONTAINER_UNAVAILABLE";
  message = "Configured model container is unavailable.";
  status = 503;
}

abbrev pub inventory_unavailable : ControllerError
inventory_unavailable = record {
  code = "MODEL_INVENTORY_UNAVAILABLE";
  message = "Model exclusivity inventory is unavailable.";
  status = 503;
}

abbrev pub lock_unavailable : ControllerError
lock_unavailable = record {
  code = "MODEL_LOCK_UNAVAILABLE";
  message = "Model exclusivity control is unavailable.";
  status = 503;
}

abbrev pub model_conflict : ControllerError
model_conflict = record {
  code = "MODEL_CONFLICT";
  message = "Another approved model is running; drain and stop it before switching.";
  status = 409;
}

abbrev pub start_failed : ControllerError
start_failed = record {
  code = "MODEL_START_FAILED";
  message = "Model container could not be started.";
  status = 503;
}

abbrev pub stop_failed : ControllerError
stop_failed = record {
  code = "MODEL_STOP_FAILED";
  message = "Model container could not be stopped.";
  status = 503;
}

abbrev pub unknown_model : ControllerError
unknown_model = record { code = "UNKNOWN_MODEL"; message = "Model is not approved."; status = 404 }

-- The dict that a call returns: `progress` in hundredths.
pub data Status : Type 0 where
  stopped : Status
  running : (progress : Option ℕ) → Status
  changed_to : (is_running changed : Bool) → Status

-- `_model`
unfoldable pub find_model : List ModelConfig → String → Result ControllerError ModelConfig
find_model [] model = err unknown_model
find_model (config ∷ configs) model =
    if config.model == model then ok config else find_model configs model

-- `_exclusive_containers`: a file that cannot be read is none
unfoldable pub exclusive_containers :
    List ModelConfig → Option InventoryFile → Result ControllerError (List String)
exclusive_containers configs none = err inventory_unavailable
exclusive_containers configs (some file) = elim (load_inventory file) [
  | err _ ↦ err inventory_unavailable
  | ok containers ↦
      if all (λ config. contains containers config.container) configs
      then ok containers
      else err inventory_unavailable
]

module _ (host : Host) where
  open host use {World, run, strip_lower, show_nat, is_started_at, strip, last_progress}

  abbrev pub Answer : Type 0 → Type 0
  Answer A = Result ControllerError A × World

  -- `_run`, then the caller's use of a result with its return code
  abbrev pub with_result :
      {A : Type 0} → Outcome × World → (ℕ → String → String → World → Answer A) → Answer A
  with_result (completed n out error, w) k = k n out error w
  with_result (timed_out, w) k = (err docker_timeout, w)
  with_result (unavailable, w) k = (err docker_unavailable, w)

  -- `_is_running`
  unfoldable pub is_running : String → World → Answer Bool
  is_running container w =
      with_result (run (arguments (inspect_running container)) 15 w) (λ n out error w'.
        if n == 0 then (ok (strip_lower out == "true"), w') else (err container_unavailable, w'))

  -- The list comprehension of `start`: the first error ends it.
  unfoldable pub running_containers : List String → World → Answer (List String)
  running_containers [] w = (ok [], w)
  running_containers (c ∷ cs) w =
      let (up, w1) = is_running c w in
      let (rest, w2) = running_containers cs w1 in
      elim up [
        | err e ↦ (err e, w1)
        | ok b ↦ (elim rest [ err e ↦ err e | ok names ↦ ok (if b then c ∷ names else names) ], w2)
      ]

  -- The reading of the log, in `_startup_progress`.
  abbrev pub read_progress : Outcome → Option ℕ
  read_progress (completed n out error) =
      if n == 0
      then elim (last_progress out error) [
        | none ↦ none
        | some percent ↦ if leb percent 100 then some percent else none
      ]
      else none
  read_progress timed_out = none
  read_progress unavailable = none

  abbrev pub started_log : String → Outcome → World → Option ℕ × World
  started_log container (completed n out error) w =
      if not (n == 0) || not (is_started_at (strip out))
      then (none, w)
      else let (outcome, w') = run (arguments (logs (strip out) container)) 15 w in
        (read_progress outcome, w')
  started_log container timed_out w = (none, w)
  started_log container unavailable w = (none, w)

  -- `_startup_progress`
  unfoldable pub startup_progress : String → World → Option ℕ × World
  startup_progress container w =
      let (outcome, w') = run (arguments (inspect_started container)) 15 w in
      started_log container outcome w'

  unfoldable pub status : List ModelConfig → String → World → Answer Status
  status configs model w = elim (find_model configs model) [
    | err e ↦ (err e, w)
    | ok config ↦
        let (up, w1) = is_running config.container w in
        let (progress, w2) = startup_progress config.container w1 in
        elim up [
          | err e ↦ (err e, w1)
          | ok b ↦ if b then (ok (running progress), w2) else (ok stopped, w1)
        ]
  ]

  -- `start` once the running containers are known
  unfoldable pub start_alone : ModelConfig → List String → World → Answer Status
  start_alone config up w =
      if any (λ container. container != config.container) up
      then (err model_conflict, w)
      else if contains up config.container
      then (ok (changed_to true false), w)
      else with_result (run (arguments (start_container config.container)) 60 w) (λ n out error w'.
        if n == 0 then (ok (changed_to true true), w') else (err start_failed, w'))

  -- `start` of the controller, under its locks: whether the host's lock file can be locked, and the
  -- inventory file as it is then
  unfoldable pub start :
      List ModelConfig → Bool → Option InventoryFile → String → World → Answer Status
  start configs lockable inventory model w = elim (find_model configs model) [
    | err e ↦ (err e, w)
    | ok config ↦
        if lockable
        then elim (exclusive_containers configs inventory) [
          | err e ↦ (err e, w)
          | ok containers ↦
              let (up, w1) = running_containers containers w in
              elim up [ err e ↦ (err e, w1) | ok names ↦ start_alone config names w1 ]
        ]
        else (err lock_unavailable, w)
  ]

  unfoldable pub stop_running : ModelConfig → World → Answer Status
  stop_running config w =
      with_result
        (run (arguments (stop_container (show_nat config.stop_timeout) config.container))
          (config.stop_timeout + 15) w)
        (λ n out error w'.
          if n == 0 then (ok (changed_to false true), w') else (err stop_failed, w'))

  unfoldable pub stop : List ModelConfig → Bool → String → World → Answer Status
  stop configs lockable model w = elim (find_model configs model) [
    | err e ↦ (err e, w)
    | ok config ↦
        let (up, w1) = is_running config.container w in
        if lockable
        then elim up [
          | err e ↦ (err e, w1)
          | ok b ↦ if b then stop_running config w1 else (ok (changed_to false false), w1)
        ]
        else (err lock_unavailable, w)
  ]
