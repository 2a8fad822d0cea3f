-- ===== src/ModelControl/Config.antt =====
-- deploy/compute-host/modelctl_server.py: the shared inventory and the configuration. A decoded file
-- is seen through the tests that the code makes of it.
use novo_chat.Base.{
  ℕ, String, Bool, not, ◌||◌, Option, none, some, List, [], ◌∷◌, ◌==◌, nat_eq, string_eq, ltb,
  contains, if◌then◌else◌,
}
use novo_chat.Base.Result.{Result, ok, err, ◌>>=◌, ◌>>◌, raise_if}
use novo_chat.Protocol.Tokens.{token_match, is_alphanumeric, codes}

-- CONTAINER_RE
unfoldable pub is_container : String → Bool
unfolding token_match
is_container s =
    token_match is_alphanumeric (λ c. is_alphanumeric c || c == b'_' || c == b'.' || c == b'-') 127
      (codes s)

-- MODEL_ID_RE
unfoldable pub is_model_id : String → Bool
unfolding token_match
is_model_id s =
    token_match is_alphanumeric
      (λ c. is_alphanumeric c || c == b'.' || c == b'_' || c == b':' || c == b'-') 127 (codes s)

pub data ConfigError : Type 0 where
  unsupported_version no_containers invalid_container duplicate_container : ConfigError
  no_models invalid_model uninventoried_container invalid_stop_timeout : ConfigError

-- The decoded inventory: is it an object of version 1; its container list, an entry being none where
-- it is not a string.
pub record InventoryFile : Type 0 where
  pub is_version_1 : Bool
  pub containers : Option (List (Option String))

-- The loop of `load_inventory`, `seen` being the names so far.
unfoldable pub normalize_containers :
    List String → List (Option String) → Result ConfigError (List String)
normalize_containers seen [] = ok []
normalize_containers seen (none ∷ entries) = err invalid_container
normalize_containers seen (some container ∷ entries) = do
  raise_if (not (is_container container)) invalid_container
  raise_if (contains seen container) duplicate_container
  rest ← normalize_containers (container ∷ seen) entries
  ok (container ∷ rest)

unfoldable pub load_inventory : InventoryFile → Result ConfigError (List String)
unfolding normalize_containers
load_inventory file = do
  raise_if (not file.is_version_1) unsupported_version
  elim file.containers [
    | none ↦ err no_containers
    | some [] ↦ err no_containers
    | some (c ∷ cs) ↦ normalize_containers [] (c ∷ cs)
  ]

-- A value of `models` in the decoded configuration; `stop_timeout` is `int(...)`, 30 by default.
pub record RawModel : Type 0 where
  pub container : Option String
  pub stop_timeout : ℕ

pub record ModelConfig : Type 0 where
  pub model : String
  pub container : String
  pub stop_timeout : ℕ

unfoldable pub normalize_models :
    List String → List (String × Option RawModel) → Result ConfigError (List ModelConfig)
normalize_models inventory [] = ok []
normalize_models inventory ((model, none) ∷ entries) = err invalid_model
normalize_models inventory ((model, some raw) ∷ entries) = do
  raise_if (not (is_model_id model)) invalid_model
  container ← elim raw.container [
    | none ↦ err invalid_container
    | some c ↦ if is_container c then ok c else err invalid_container
  ]
  raise_if (not (contains inventory container)) uninventoried_container
  raise_if (ltb raw.stop_timeout 1 || ltb 120 raw.stop_timeout) invalid_stop_timeout
  rest ← normalize_models inventory entries
  ok (record { model = model; container = container; stop_timeout = raw.stop_timeout } ∷ rest)

pub record ConfigFile : Type 0 where
  pub is_version_1 : Bool
  pub models : Option (List (String × Option RawModel))

-- `load_config`: the models
unfoldable pub load_config : InventoryFile → ConfigFile → Result ConfigError (List ModelConfig)
unfolding load_inventory normalize_models
load_config inventory file = do
  exclusive_containers ← load_inventory inventory
  raise_if (not file.is_version_1) unsupported_version
  elim file.models [
    | none ↦ err no_models
    | some [] ↦ err no_models
    | some (m ∷ ms) ↦ normalize_models exclusive_containers (m ∷ ms)
  ]
