-- ===== src/Lead/Context.antt =====
-- `build_context` of crates/agentmosaic-team/src/lead.rs.
use research_agent_system.Common.{
  ℕ, String, Option, none, some, List, [], ◌∷◌, ◌++◌, ◌>>=◌, pure, raise,
}
use research_agent_system.Board.TaskStatus.{TaskStatus}
use research_agent_system.Board.Data.{
  TaskRecord, TaskAttempt, ArtifactMeta, storage, AgentTaskResult,
}
use research_agent_system.Board.Trait.{TaskBoard, last_with}
use research_agent_system.Events.Text.{bounded_event_text}
use research_agent_system.Registry.Agents.{agent_ids}
use research_agent_system.Scheduler.Run.{or_text}
use research_agent_system.Lead.Data.{LeadError, Lead, LeadContext, LeadStep, on_store}

-- The three lists that the loop over the Lead's tasks fills.
pub record Facts : Type 0 where
  pub results : List (ℕ × AgentTaskResult)
  pub artifacts : List ArtifactMeta
  pub failures : List (ℕ × String)

abbrev pub result_of : ℕ → Option TaskAttempt → List (ℕ × AgentTaskResult)
result_of id none = []
result_of id (some a) = elim a.result [
  | none ↦ []
  | some summary ↦
      (id, record { task_id = id; summary = summary; artifacts = []; message = none }) ∷ []
]

-- `bounded_error` is `bounded_event_text`.
abbrev pub failure_of : ℕ → Option TaskAttempt → List (ℕ × String)
failure_of id none = []
failure_of id (some a) =
    (id, bounded_event_text (or_text a.error "task failed without an error")) ∷ []

abbrev pub no_facts : Facts
no_facts = record { results = []; artifacts = []; failures = [] }

abbrev pub rootless_text : String
rootless_text = "lead context without a root"

module _ {B S : Type 0} (board : TaskBoard B) where
  unfoldable pub add_status : Facts → ℕ → TaskStatus → LeadStep B S Facts
  add_status facts id TaskStatus.succeeded = do
    rows ← on_store (board.attempts id)
    pure (record facts {
      results = facts.results ++ result_of id (last_with TaskStatus.succeeded rows);
    })
  add_status facts id TaskStatus.failed = do
    rows ← on_store (board.attempts id)
    pure (record facts {
      failures = facts.failures ++ failure_of id (last_with TaskStatus.failed rows);
    })
  add_status facts id _ = pure facts

  unfoldable pub add_record : Facts → ℕ → Option TaskRecord → LeadStep B S Facts
  add_record facts id none = pure facts
  add_record facts id (some r) = do
    facts' ← add_status facts id r.status
    found ← on_store (board.artifacts id)
    pure (record facts' { artifacts = facts'.artifacts ++ found })

  unfoldable pub add_tasks : Facts → List ℕ → LeadStep B S Facts
  add_tasks facts [] = pure facts
  add_tasks facts (id ∷ ids) = do
    found ← on_store (board.task id)
    facts' ← add_record facts id found
    add_tasks facts' ids

  unfoldable pub context_of : Lead B S → String → ℕ → Option ℕ → List ℕ → LeadStep B S LeadContext
  context_of lead objective round none ids = raise (LeadError.board (storage rootless_text))
  context_of lead objective round (some root) ids = do
    facts ← add_tasks no_facts ids
    messages ← on_store (board.messages_to lead.lead_agent)
    pure (record {
      root_task_id = root;
      objective = objective;
      round = round;
      candidates = agent_ids lead.scheduler.registry;
      results = facts.results;
      artifacts = facts.artifacts;
      failures = facts.failures;
      messages = messages;
    })

  unfoldable pub build_context : Lead B S → String → ℕ → LeadStep B S LeadContext
  build_context lead objective round s = context_of lead objective round s.root_id s.task_ids s
