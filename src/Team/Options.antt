-- ===== src/Team/Options.antt =====
-- crates/agentmosaic-runtime/src/driver_factory.rs: the options in an agent's `driver_config_json`, and
-- `validate_driver_config`.
--
-- `Reader` has what the third-party JSON parser answers for a text, as far as the code looks into
-- the value: the fields of an object in the order of the parser's map, with the kind of each; and the
-- parser of an array of texts. A number is what `as_u64` makes of it. `Paths` is the system's
-- reading of a path.
use Prim.Native.Char.{code}
use Prim.Native.String.{◌++◌}
use mathlib.Core.Option
use research_agent_system.Common.{
  ℕ, ◌+◌, String, Bool, true, false, ◌&&◌, ◌||◌, Option, none, some, List, [], ◌∷◌, any, find,
  if◌then◌else◌, leb, ◌==◌, nat_eq, string_eq, Result, ok, err, map_err, map_ok, ok_or,
}
use research_agent_system.Common.Fallible.{◌>>=◌, ◌>>◌, refuse_if, collect}
use research_agent_system.Team.Errors.{
  DriverFactoryError, invalid_driver_config, secret_like_config_key,
}
use research_agent_system.Team.Records.{given}

pub data Field : Type 0 where
  null : Field
  number : Option ℕ → Field
  text : String → Field
  array : List (Option String) → Field  -- its texts, and `none` for what is no text
  other : Field

pub data Value : Type 0 where
  object : List (String × Field) → Value
  no_object : Value

-- `std::path::Component`
pub data Component : Type 0 where
  prefix root_dir cur_dir parent_dir normal : Component

pub record Paths : Type 0 where
  pub is_absolute : String → Bool
  pub components : String → List Component

pub record AgentOptions : Type 0 where
  pub auth_method : Option String
  pub timeout_seconds : Option ℕ
  pub max_prompt_bytes : Option ℕ
  pub max_result_bytes : Option ℕ
  pub artifact_paths : List String
  pub mcp_command : Option String
  pub max_events : Option ℕ
  pub overrides : List String
  pub model : Option String
  pub max_answer_bytes : Option ℕ
  pub output_schema : Option String

abbrev pub default_options : AgentOptions
default_options = record {
  auth_method = none;
  timeout_seconds = none;
  max_prompt_bytes = none;
  max_result_bytes = none;
  artifact_paths = [];
  mcp_command = none;
  max_events = none;
  overrides = [];
  model = none;
  max_answer_bytes = none;
  output_schema = none;
}

abbrev pub secret_key_markers : List String
secret_key_markers = "token" ∷ "key" ∷ "secret" ∷ "password" ∷ "endpoint" ∷ []

-- `char::to_ascii_lowercase`, on code points
abbrev pub lower : ℕ → ℕ
lower n = if leb 65 n && leb n 90 then n + 32 else n

-- `key.to_ascii_lowercase().starts_with(marker)`
unfoldable pub starts_lowered : String → String → Bool
starts_lowered key String.[] = true
starts_lowered String.[] (String.◌∷◌ d marker) = false
starts_lowered (String.◌∷◌ c key) (String.◌∷◌ d marker) =
    lower (code c) == code d && starts_lowered key marker

-- `key.to_ascii_lowercase().contains(marker)`
unfoldable pub contains_lowered : String → String → Bool
contains_lowered String.[] marker = starts_lowered String.[] marker
contains_lowered (String.◌∷◌ c key) marker =
    starts_lowered (String.◌∷◌ c key) marker || contains_lowered key marker

unfoldable pub is_secret_like : String → Bool
is_secret_like key = any (contains_lowered key) secret_key_markers

abbrev pub Options : Type 0 → Type 0
Options A = Result DriverFactoryError A

module _ (agent : String) where
  abbrev pub quoted : String → String → DriverFactoryError
  quoted key rest = invalid_driver_config agent ("`" ++ key ++ rest)

  -- the loop over the keys
  unfoldable pub check_keys : List (String × Field) → Options (Unit {0})
  check_keys [] = ok tt
  check_keys ((key, _) ∷ fields) =
      refuse_if (is_secret_like key) (secret_like_config_key agent key) >> check_keys fields

  -- `map.get(key)`, where an absent field is like a null
  abbrev pub field : List (String × Field) → String → Field
  field fields key = Option.get_or (Option.map (λ e. e.1) (find (λ e. e.0 == key) fields)) null

  unfoldable pub optional_string : List (String × Field) → String → Options (Option String)
  optional_string fields key = elim (field fields key) [
    | null ↦ ok none
    | text value ↦ ok (some value)
    | _ ↦ err (quoted key "` must be a string or null")
  ]

  unfoldable pub optional_u64 : List (String × Field) → String → Options (Option ℕ)
  optional_u64 fields key = elim (field fields key) [
    | null ↦ ok none
    | number n ↦ map_ok some (ok_or n (quoted key "` must be a non-negative number"))
    | _ ↦ err (quoted key "` must be a number")
  ]

  -- a usize has 64 bits, so no u64 is too large for it
  unfoldable pub optional_usize : List (String × Field) → String → Options (Option ℕ)
  optional_usize fields key = optional_u64 fields key

  unfoldable pub string_item : String → Option String → Options String
  string_item key item = ok_or item (quoted key "` must be an array of strings")

  unfoldable pub string_array : List (String × Field) → String → Options (List String)
  string_array fields key = elim (field fields key) [
    | null ↦ ok []
    | array items ↦ collect (string_item key) items
    | _ ↦ err (quoted key "` must be an array of strings")
  ]

  unfoldable pub read_fields : List (String × Field) → Options AgentOptions
  read_fields fields = do
    auth_method ← optional_string fields "auth_method"
    timeout ← optional_u64 fields "timeout_seconds"
    prompt ← optional_usize fields "max_prompt_bytes"
    result ← optional_usize fields "max_result_bytes"
    paths ← string_array fields "artifact_paths"
    mcp ← optional_string fields "mcp_command"
    events ← optional_usize fields "max_events"
    overrides ← string_array fields "overrides"
    model ← optional_string fields "model"
    answer ← optional_usize fields "max_answer_bytes"
    schema ← optional_string fields "output_schema"
    ok (record {
      auth_method = auth_method;
      timeout_seconds = timeout;
      max_prompt_bytes = prompt;
      max_result_bytes = result;
      artifact_paths = paths;
      mcp_command = mcp;
      max_events = events;
      overrides = overrides;
      model = model;
      max_answer_bytes = answer;
      output_schema = schema;
    })

  unfoldable pub read_object : Value → Options AgentOptions
  read_object no_object =
      err (invalid_driver_config agent "driver_config_json must be a JSON object")
  read_object (object fields) = check_keys fields >> read_fields fields

  unfoldable pub parse_agent_options :
      (String → Result String Value) → Option String → Options AgentOptions
  parse_agent_options from_str raw = elim (given raw) [
    | none ↦ ok default_options
    | some body ↦
        map_err (λ e. invalid_driver_config agent ("driver_config_json is not valid JSON: " ++ e))
          (from_str body)
        >>= read_object
  ]
