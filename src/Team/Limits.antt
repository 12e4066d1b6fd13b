-- ===== src/Team/Limits.antt =====
-- crates/agentmosaic-runtime/src/driver_factory.rs: the rules on the values of the options, and
-- `validate_driver_config`, which applies those of the row's driver kind.
use mathlib.Core.Option
use research_agent_system.Common.{
  ℕ, String, Bool, true, false, ◌||◌, Option, none, some, List, [], ◌∷◌, any, ◌==◌, nat_eq, Result,
  ok, map_err, map_ok,
}
use research_agent_system.Common.Fallible.{◌>>=◌, ◌>>◌, refuse_if}
use research_agent_system.Common.Trim.{trim, is_empty_text}
use research_agent_system.Registry.DriverKind
use research_agent_system.Registry.DriverKind.{DriverKind}
use research_agent_system.Storage.Agents.{AgentRegistryRecord}
use research_agent_system.Team.Errors.{
  invalid_driver_config, invalid_artifact_path, show_driver_error,
}
use research_agent_system.Team.Records.{given}
use research_agent_system.Team.Options.{
  Value, Component, normal, Paths, AgentOptions, Options, parse_agent_options,
}

abbrev pub default_acp_timeout_seconds : ℕ
default_acp_timeout_seconds = 300

abbrev pub default_acp_max_prompt_bytes : ℕ
default_acp_max_prompt_bytes = 32768

abbrev pub default_acp_max_result_bytes : ℕ
default_acp_max_result_bytes = 16384

abbrev pub default_codex_max_events : ℕ
default_codex_max_events = 200

pub record AcpOptionValues : Type 0 where
  pub timeout_seconds : ℕ
  pub max_prompt_bytes : ℕ
  pub max_result_bytes : ℕ

pub record CodexOptionValues : Type 0 where
  pub max_events : ℕ

-- every component but an ordinary name
abbrev pub is_special : Component → Bool
is_special normal = false
is_special _ = true

module _ (paths : Paths) (agent : String) where
  unfoldable pub validate_artifact_path : String → Options (Unit {0})
  validate_artifact_path path =
      refuse_if (is_empty_text (trim path) || paths.is_absolute path)
        (invalid_artifact_path agent path)
      >> refuse_if (any is_special (paths.components path)) (invalid_artifact_path agent path)

  -- `for path in &options.artifact_paths`
  unfoldable pub validate_artifact_paths : List String → Options (Unit {0})
  validate_artifact_paths [] = ok tt
  validate_artifact_paths (path ∷ rest) =
      validate_artifact_path path >> validate_artifact_paths rest

  unfoldable pub acp_option_values : AgentOptions → Options AcpOptionValues
  acp_option_values options =
      let timeout = Option.get_or options.timeout_seconds default_acp_timeout_seconds in
      let prompt = Option.get_or options.max_prompt_bytes default_acp_max_prompt_bytes in
      let result = Option.get_or options.max_result_bytes default_acp_max_result_bytes in
      refuse_if (timeout == 0)
        (invalid_driver_config agent "timeout_seconds must be greater than zero")
      >> (refuse_if (prompt == 0 || result == 0) (
            invalid_driver_config agent
              "max_prompt_bytes and max_result_bytes must be greater than zero")
          >> (validate_artifact_paths options.artifact_paths
              >> ok (record {
                timeout_seconds = timeout;
                max_prompt_bytes = prompt;
                max_result_bytes = result;
              })))

  unfoldable pub codex_option_values : AgentOptions → Options CodexOptionValues
  codex_option_values options =
      let events = Option.get_or options.max_events default_codex_max_events in
      refuse_if (events == 0) (invalid_driver_config agent "max_events must be greater than zero")
      >> (validate_artifact_paths options.artifact_paths >> ok (record { max_events = events }))

  -- the schema that `build_codex_exec` and `build_claude_cli` join to the repository
  unfoldable pub output_schema : (String → String) → Option String → Options (Option String)
  output_schema join none = ok none
  output_schema join (some path) = validate_artifact_path path >> ok (some (join path))

  -- what `build_codex_exec` and `build_claude_cli` take from the options, after the launch
  unfoldable pub build_values :
      (String → String) → AgentOptions → Options (AcpOptionValues × Option String)
  build_values join options = do
    values ← acp_option_values options
    schema ← output_schema join options.output_schema
    ok (values, schema)

  -- the rules of a driver kind; a kind that cannot drive a run, or none, has none
  unfoldable pub kind_rules : Option DriverKind → AgentOptions → Options (Unit {0})
  kind_rules (some DriverKind.acp) options = map_ok (λ _. tt) (acp_option_values options)
  kind_rules (some DriverKind.codex_app_server) options =
      map_ok (λ _. tt) (codex_option_values options)
  kind_rules (some DriverKind.codex_exec) options = map_ok (λ _. tt) (acp_option_values options)
  kind_rules (some DriverKind.claude_cli) options = map_ok (λ _. tt) (acp_option_values options)
  kind_rules (some DriverKind.native) options = ok tt
  kind_rules (some DriverKind.cli) options = ok tt
  kind_rules none options = ok tt

unfoldable pub validate_driver_config :
    Paths → (String → Result String Value) → AgentRegistryRecord → Result String (Unit {0})
validate_driver_config paths from_str r = do
  options ← map_err show_driver_error (parse_agent_options r.id from_str r.driver_config_json)
  map_err show_driver_error
      (kind_rules paths r.id (Option.bind (given r.driver_kind) DriverKind.restore) options)
