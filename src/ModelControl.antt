-- ===== src/ModelControl.antt =====
-- deploy/compute-host/modelctl_server.py: the controller of the model containers. The Docker daemon
-- is a parameter; the thread lock and the host lock make each call one step.
pub mod Config
pub mod Controller
pub mod Requests
pub mod Running
pub mod Exclusive
use novo_chat.Base.{ℕ, String, ◌≡◌, ◌≢◌, Bool, true, false, Option, List, [], ◌∷◌}

pub record ControllerError : Type 0 where
  pub code : String
  pub message : String
  pub status : ℕ

-- How one `subprocess.run` ends.
pub data Outcome : Type 0 where
  completed : (returncode : ℕ) (stdout stderr : String) → Outcome
  timed_out unavailable : Outcome

-- The command lines that the controller runs.
pub data Command : Type 0 where
  inspect_running inspect_started : (container : String) → Command
  logs : (started_at container : String) → Command
  start_container : (container : String) → Command
  stop_container : (seconds container : String) → Command

abbrev pub arguments : Command → List String
arguments (inspect_running c) = "inspect" ∷ "--format" ∷ "{{.State.Running}}" ∷ c ∷ []
arguments (inspect_started c) = "inspect" ∷ "--format" ∷ "{{.State.StartedAt}}" ∷ c ∷ []
arguments (logs t c) = "logs" ∷ "--since" ∷ t ∷ "--tail" ∷ "256" ∷ c ∷ []
arguments (start_container c) = "start" ∷ c ∷ []
arguments (stop_container n c) = "stop" ∷ "--time" ∷ n ∷ c ∷ []

-- The Docker host, and the text functions that read its answers. `is_up w c` says that `c` runs. The
-- laws: `inspect` and `logs` start and stop nothing, a successful `inspect` prints whether the
-- container runs, `start` and `stop` touch the named container only, and `stop` starts nothing.
pub record Host : Type 1 where
  pub World : Type 0
  pub run : List String → ℕ → World → Outcome × World
  pub is_up : World → String → Bool
  pub strip_lower : String → String
  pub show_nat : ℕ → String
  pub is_started_at : String → Bool
  pub strip : String → String
  pub last_progress : String → String → Option ℕ
  pub inspect_running_keeps :
      (c : String) (t : ℕ) (w : World) (d : String)
      → is_up (run (arguments (inspect_running c)) t w).1 d ≡ is_up w d
  pub inspect_started_keeps :
      (c : String) (t : ℕ) (w : World) (d : String)
      → is_up (run (arguments (inspect_started c)) t w).1 d ≡ is_up w d
  pub logs_keeps :
      (s c : String) (t : ℕ) (w : World) (d : String)
      → is_up (run (arguments (logs s c)) t w).1 d ≡ is_up w d
  pub inspect_running_tells :
      (c : String) (t : ℕ) (w : World) {out error : String}
      → (run (arguments (inspect_running c)) t w).0 ≡ completed 0 out error
      → (strip_lower out ≡ "true" → is_up w c ≡ true)
        × (strip_lower out ≢ "true" → is_up w c ≡ false)
  pub start_others :
      (c : String) (t : ℕ) (w : World) (d : String)
      → d ≢ c
      → is_up (run (arguments (start_container c)) t w).1 d ≡ is_up w d
  pub stop_others :
      (n c : String) (t : ℕ) (w : World) (d : String)
      → is_up w d ≡ false
      → is_up (run (arguments (stop_container n c)) t w).1 d ≡ false
