-- ===== src/Tests/Models.antt =====
-- deploy/compute-host/modelctl_server.py: a Docker host that holds the running containers.
use novo_chat.Base.{
  ℕ, String, ◌≡◌, ◌≢◌, refl, sym, ◌∙◌, Bool, true, false, not, none, some, List, [], ◌∷◌, ◌==◌,
  string_eq, eq_iff, contains, keep_if, arith, if◌then◌else◌,
}
use novo_chat.Base.Result.{ok}
use novo_chat.ModelControl.{Host, Outcome, completed}
use novo_chat.ModelControl.Config.{
  InventoryFile, ModelConfig, load_inventory, is_container, is_model_id,
}
use novo_chat.ModelControl.Controller
use novo_chat.ModelControl.Requests.{
  object, text, handle_request, parse_request, is_request_id, is_actor_id,
}
use novo_chat.ModelControl.Running.{Exclusive}
use novo_chat.ModelControl.Exclusive.{Connection, serve_all, serve_all-Exclusive}

abbrev up_text : Bool → String
up_text true = "true"
up_text false = "false"

abbrev without : String → List String → List String
without c = keep_if (λ d. not (d == c))

abbrev simulate : List String → ℕ → List String → Outcome × List String
simulate (verb ∷ c ∷ []) t w = (completed 0 "" "", c ∷ w)
simulate (verb ∷ flag ∷ format ∷ c ∷ []) t w =
    if verb == "stop"
    then (completed 0 "" "", without c w)
    else (completed 0 (up_text (contains w c)) "", w)
simulate _ t w = (completed 1 "" "", w)

abbrev is_up : List String → String → Bool
is_up w c = contains w c

told :
    (b : Bool) {out error : String}
    → ◌≡◌ {A = Outcome} (completed 0 (up_text b) "") (completed 0 out error)
    → up_text b ≡ out
told b h = cc

up_text-yes : (b : Bool) → up_text b ≡ "true" → b ≡ true
up_text-yes true h = refl
up_text-yes false h = ground (arith, eq_iff "false" "true")

up_text-no : (b : Bool) → up_text b ≢ "true" → b ≡ false
up_text-no true h = absurd (h refl)
up_text-no false h = refl

contains-without :
    (c d : String) (w : List String) → contains w d ≡ false → contains (without c w) d ≡ false
contains-without c d [] h = h
contains-without c d (x ∷ w) h = ground (arith, contains-without c d w)

abbrev docker : Host
docker = record {
  World = List String;
  run = simulate;
  is_up = is_up;
  strip_lower = λ s. s;
  show_nat = λ n. "30";
  is_started_at = λ s. false;
  strip = λ s. s;
  last_progress = λ out error. none;
  inspect_running_keeps = λ c t w d. refl;
  inspect_started_keeps = λ c t w d. refl;
  logs_keeps = λ s c t w d. refl;
  inspect_running_tells = λ c t w {out} {error} h. (
    λ e. up_text-yes (contains w c) (told (contains w c) h ∙ e),
    λ n. up_text-no (contains w c) (λ e. n (sym (told (contains w c) h) ∙ e)),
  );
  start_others = λ c t w d apart. ground (arith, eq_iff d c);
  stop_others = λ n c t w d h. contains-without c d w h;
}

abbrev inventory : InventoryFile
inventory = record { is_version_1 = true; containers = some (some "llama" ∷ some "qwen" ∷ []) }

inventory_loads : load_inventory inventory ≡ ok ("llama" ∷ "qwen" ∷ [])
unfolding load_inventory is_container
inventory_loads = refl

abbrev model : String → ModelConfig
model name = record { model = name; container = name; stop_timeout = 30 }

abbrev connection : String → String → Connection docker
connection action name = record {
  models = model name ∷ [];
  lockable = true;
  raw = object false true (some "r1") (some "u1") (text action) (some name);
}

-- The second start is refused, and the last one follows a stop.
abbrev connections : List (Connection docker)
connections =
    connection "start" "llama"
    ∷ connection "start" "qwen"
    ∷ connection "stop" "llama"
    ∷ connection "start" "qwen"
    ∷ []

nothing_up : Exclusive docker ("llama" ∷ "qwen" ∷ []) []
nothing_up c d in_c in_d up_c up_d = cc

serve_all-Exclusive_example :
    Exclusive docker ("llama" ∷ "qwen" ∷ []) (serve_all docker inventory connections [])
serve_all-Exclusive_example =
    serve_all-Exclusive docker ("llama" ∷ "qwen" ∷ []) inventory connections [] inventory_loads
      nothing_up

served : serve_all docker inventory connections [] ≡ "qwen" ∷ []
unfolding serve_all handle_request parse_request is_request_id is_actor_id is_model_id
    Controller.start Controller.find_model Controller.exclusive_containers load_inventory
    is_container Controller.running_containers Controller.is_running Controller.start_alone
    Controller.stop Controller.stop_running
served = refl
