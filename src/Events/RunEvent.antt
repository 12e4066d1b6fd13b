-- ===== src/Events/RunEvent.antt =====
-- `LeadPhase` and `RunEvent` of crates/agentmosaic-team/src/run_event.rs.
use research_agent_system.Common.{ℕ, String, Option, List, if◌then◌else◌, ◌==◌, nat_eq}
use research_agent_system.Registry.TaskKind.{TaskKind}

pub data LeadPhase : Type 0 where
  planning reviewing : LeadPhase

-- `LeadPhase::for_round`
unfoldable pub for_round : ℕ → LeadPhase
for_round round = if round == 0 then planning else reviewing

pub data RunEvent : Type 0 where
  run_started : (root_task_id : ℕ) (lead_agent : String) → RunEvent
  lead_round_started : (root_task_id round : ℕ) (phase : LeadPhase) → RunEvent
  task_delegated :
      (root_task_id task_id : ℕ) (kind : TaskKind) (requested_target : Option String)
      (objective : String)
      → RunEvent
  attempt_started : (task_id attempt : ℕ) (agent_id : String) → RunEvent
  attempt_failed : (task_id attempt : ℕ) (agent_id error : String) → RunEvent
  task_succeeded : (task_id : ℕ) (agent_id : String) (artifact_count : ℕ) → RunEvent
  task_failed : (task_id : ℕ) (error : String) → RunEvent
  artifact_recorded : (task_id : ℕ) (path sha256 : String) → RunEvent
  run_completed : (root_task_id : ℕ) (selected_task_ids : List ℕ) (artifact_count : ℕ) → RunEvent
  run_failed : (root_task_id : ℕ) (error : String) → RunEvent
  run_resumed : (root_task_id : ℕ) → RunEvent
