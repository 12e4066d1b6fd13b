-- ===== src/Team/Errors.antt =====
-- `TeamRunnerError` of crates/agentmosaic-runtime/src/team_runner.rs and its `Display`, with those of the
-- errors inside it: `DriverFactoryError` of driver_factory.rs, `LeadError` and `LeadBrainError` of
-- crates/agentmosaic-team/src/lead.rs, and `BoardError` of board.rs.
--
-- A path is the text that it is displayed as. The standard library's `Debug` of a text, which a
-- derived `Debug` calls, is the parameter `debug_text`.
use Prim.Native.String.{◌++◌}
use research_agent_system.Common.{ℕ, String}
use research_agent_system.Common.Decimal.{decimal}
use research_agent_system.Registry.AgentTier.{AgentTier}
use research_agent_system.Registry.TaskKind.{TaskKind, as_str}
use research_agent_system.Registry.Agents.{
  RegistryError, duplicate_id, zero_concurrency, missing_tier,
}
use research_agent_system.Board.Data.{BoardError, unknown_task, storage}
use research_agent_system.Scheduler.Run.{ScheduleError}
use research_agent_system.Lead.Data.{LeadBrainError, LeadError}

pub data DriverFactoryError : Type 0 where
  missing_driver_kind : String → DriverFactoryError
  unsupported_driver_kind : (agent kind : String) → DriverFactoryError
  missing_executable : String → DriverFactoryError
  invalid_driver_args : (agent detail : String) → DriverFactoryError
  invalid_driver_config : (agent detail : String) → DriverFactoryError
  secret_like_config_key : (agent key : String) → DriverFactoryError
  invalid_artifact_path : (agent path : String) → DriverFactoryError
  driver_refused : (agent detail : String) → DriverFactoryError

pub data TeamRunnerError : Type 0 where
  repo_missing : String → TeamRunnerError
  empty_objective : TeamRunnerError
  registry_storage : String → TeamRunnerError
  unsupported_tier : (agent tier : String) → TeamRunnerError
  invalid_agent_field : (agent detail : String) → TeamRunnerError
  registry : RegistryError → TeamRunnerError
  lead_selection : String → TeamRunnerError
  missing_lead_executable : String → TeamRunnerError
  unsupported_lead_runtime : (agent kind : String) → TeamRunnerError
  driver : DriverFactoryError → TeamRunnerError
  lead_brain : LeadBrainError → TeamRunnerError
  lead : LeadError → TeamRunnerError
  board : BoardError → TeamRunnerError
  unknown_root : ℕ → TeamRunnerError
  root_not_reasoning : (root : ℕ) (kind : TaskKind) → TeamRunnerError
  lead_and_settle_failed : (cause settle : String) → TeamRunnerError

unfoldable pub show_driver_error : DriverFactoryError → String
show_driver_error (missing_driver_kind agent) = "agent `" ++ agent ++ "` has no driver kind"
show_driver_error (unsupported_driver_kind agent kind) =
    "agent `" ++ agent ++ "` has driver kind `" ++ kind
    ++ "`, which cannot drive an automatic team run"
show_driver_error (missing_executable agent) = "agent `" ++ agent ++ "` has no executable"
show_driver_error (invalid_driver_args agent detail) =
    "agent `" ++ agent ++ "` has invalid driver args: " ++ detail
show_driver_error (invalid_driver_config agent detail) =
    "agent `" ++ agent ++ "` has an invalid driver config: " ++ detail
show_driver_error (secret_like_config_key agent key) =
    "agent `" ++ agent ++ "` driver config key `" ++ key
    ++ "` looks like a credential; driver configs must never carry secrets"
show_driver_error (invalid_artifact_path agent path) =
    "agent `" ++ agent ++ "` artifact path `" ++ path
    ++ "` must be a non-empty path inside the repository"
show_driver_error (driver_refused agent detail) =
    "agent `" ++ agent ++ "` driver could not be constructed: " ++ detail

unfoldable pub show_brain_error : LeadBrainError → String
show_brain_error (LeadBrainError.unavailable m) = "lead brain unavailable: " ++ m
show_brain_error (LeadBrainError.invalid_decision m) =
    "lead brain produced an invalid decision: " ++ m
show_brain_error (LeadBrainError.rejected m) = "lead brain rejected the decision: " ++ m

unfoldable pub show_board_error : BoardError → String
show_board_error (unknown_task task) = "no task " ++ decimal task ++ " exists on the board"
show_board_error (storage detail) = "the task board storage failed: " ++ detail

unfoldable pub show_lead_error : LeadError → String
show_lead_error (LeadError.schedule (ScheduleError.board e)) =
    "the lead could not schedule its work: " ++ show_board_error e
show_lead_error (LeadError.schedule ScheduleError.join_failed) =
    "a scheduled task did not finish cleanly"
show_lead_error (LeadError.board e) = "a task board operation failed: " ++ show_board_error e
show_lead_error (LeadError.brain e) = show_brain_error e
show_lead_error LeadError.max_rounds = "the lead reached its round limit without a final answer"
show_lead_error LeadError.too_many_tasks = "the lead reached its task limit without a final answer"
show_lead_error LeadError.follow_up_without_result =
    "the lead asked for a follow-up before any worker result existed"
show_lead_error LeadError.completion_not_grounded =
    "the lead completed without grounding the answer in completed tasks"

-- the derived `Debug` of a tier
unfoldable pub debug_tier : AgentTier → String
debug_tier AgentTier.reasoner = "Reasoner"
debug_tier AgentTier.worker = "Worker"
debug_tier AgentTier.utility = "Utility"

module _ (debug_text : String → String) where
  unfoldable pub show_registry_error : RegistryError → String
  show_registry_error (missing_tier tier) =
      "no agent is registered for the "
      ++ debug_tier tier
      ++ " tier; a team run needs at least one reasoner and one worker; utility agents are optional"
  show_registry_error (zero_concurrency agent) =
      "agent `" ++ agent
      ++ "` has a max-concurrency of zero; every registered Agent needs a positive concurrency"
  show_registry_error (duplicate_id agent) =
      "the agent registry is not runnable: DuplicateId(" ++ debug_text agent ++ ")"

  unfoldable pub show_error : TeamRunnerError → String
  show_error (repo_missing path) = "repository " ++ path ++ " is not an existing directory"
  show_error empty_objective = "the team objective must not be empty"
  show_error (registry_storage detail) = "reading the agent registry failed: " ++ detail
  show_error (unsupported_tier agent tier) =
      "agent `" ++ agent ++ "` has unknown tier `" ++ tier ++ "`"
  show_error (invalid_agent_field agent detail) =
      "agent `" ++ agent ++ "` has an invalid registry field: " ++ detail
  show_error (registry e) = show_registry_error e
  show_error (lead_selection detail) = "the team lead could not be resolved: " ++ detail
  show_error (missing_lead_executable agent) = "lead agent `" ++ agent ++ "` has no executable"
  show_error (unsupported_lead_runtime agent kind) =
      "lead agent `" ++ agent ++ "` has runtime `" ++ kind
      ++ "`, which is not supported for the Lead role"
  show_error (driver e) = show_driver_error e
  show_error (lead_brain e) = show_brain_error e
  show_error (lead e) = "the lead run failed: " ++ show_lead_error e
  show_error (board e) = "a task board operation failed: " ++ show_board_error e
  show_error (unknown_root root) = "no task " ++ decimal root ++ " exists to resume"
  show_error (root_not_reasoning root kind) =
      "task "
      ++ decimal root
      ++ " is a "
      ++ as_str kind
      ++ " task, not the reasoning root of a team run"
  show_error (lead_and_settle_failed cause settle) =
      "the lead run failed (" ++ cause ++ ") and the root task could not be settled as failed: "
      ++ settle
