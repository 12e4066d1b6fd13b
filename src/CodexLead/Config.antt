-- ===== src/CodexLead/Config.antt =====
-- `CodexLeadConfig` and the constants of crates/agentmosaic-runtime/src/codex_lead.rs, and
-- `LaunchSpec` of launch.rs. Paths are the system's: `P` is their type.
use research_agent_system.Common.{
  ℕ, String, Bool, ◌||◌, not, Option, none, some, List, ◌==◌, nat_eq, ltb, Result, ok,
}
use research_agent_system.Common.Fallible.{◌>>◌, refuse_if}
use research_agent_system.Common.Trim.{trim, is_empty_text}

-- What the code asks of a path.
pub record Paths (P : Type 0) : Type 0 where
  pub is_dir : P → Bool
  pub to_str : P → Option String
  pub to_string_lossy : P → String
  pub has_no_name : P → Bool

pub record LaunchSpec (P : Type 0) : Type 0 where
  pub program : P
  pub args : List String

pub record CodexLeadConfig (P : Type 0) : Type 0 where
  pub launch : LaunchSpec P
  pub working_directory : P
  pub model : Option String
  pub overrides : List String
  pub max_prompt_bytes : ℕ
  pub max_answer_bytes : ℕ
  pub max_events : ℕ

abbrev pub lead_sandbox : String
lead_sandbox = "read-only"

abbrev pub lead_approval_policy : String
lead_approval_policy = "never"

abbrev pub max_delegated_tasks : ℕ
max_delegated_tasks = 32

abbrev pub max_selected_ids : ℕ
max_selected_ids = 256

abbrev pub max_selected_artifacts : ℕ
max_selected_artifacts = 256

abbrev pub sha256_hex_len : ℕ
sha256_hex_len = 64

abbrev pub min_prompt_bytes : ℕ
min_prompt_bytes = 1024

module _ {P : Type 0} (paths : Paths P) where
  -- `LaunchSpec::validate`
  unfoldable pub validate_launch : LaunchSpec P → Result String (Unit {0})
  validate_launch launch =
      refuse_if
        (paths.has_no_name launch.program
          || is_empty_text (trim (paths.to_string_lossy launch.program)))
        "launch program is required"

  unfoldable pub validate_model : Option String → Result String (Unit {0})
  validate_model none = ok tt
  validate_model (some model) =
      refuse_if (is_empty_text (trim model)) "Codex lead model must be non-empty when set"

  -- `CodexLeadConfig::validate`
  unfoldable pub validate : CodexLeadConfig P → Result String (Unit {0})
  validate config = do
    validate_launch config.launch
    refuse_if (not (paths.is_dir config.working_directory))
        "Codex lead working directory must exist"
    validate_model config.model
    refuse_if (ltb config.max_prompt_bytes min_prompt_bytes)
        "Codex lead max_prompt_bytes must be at least 1024"
    refuse_if (config.max_answer_bytes == 0) "Codex lead max_answer_bytes must be positive"
    refuse_if (config.max_events == 0) "Codex lead max_events must be positive"
