-- ===== src/Lead/Final.antt =====
-- `verify_completion`, `persist_final` and `reconstruct_team_result` of
-- crates/agentmosaic-team/src/lead.rs: how the final answer of a run is checked, stored and read.
use research_agent_system.Common.{
  ℕ, String, Bool, true, false, not, Option, none, some, List, ◌==◌, nat_eq, any, contains,
  is_empty, Exec, ◌>>=◌, ◌>>◌, pure, raise, for_each,
}
use research_agent_system.Board.TaskStatus.{TaskStatus, status_eq}
use research_agent_system.Board.Data.{
  TaskAttempt, BoardError, SelectedArtifactRef, storage, artifact_eq,
}
use research_agent_system.Board.Trait.{TaskBoard, last_with}
use research_agent_system.Lead.Data.{
  LeadError, completion_not_grounded, TeamResult, LeadStep, on_store,
}
use research_agent_system.Scheduler.Schedule.{summary_of}
use research_agent_system.Lead.Tree.{grounded, descends_from}

-- An early `return Err(LeadError::CompletionNotGrounded)`.
abbrev pub require : {B S : Type 0} → Bool → LeadStep B S Unit
require true = pure tt
require false = raise completion_not_grounded

abbrev pub final_attempt : ℕ → String → TeamResult → TaskAttempt
final_attempt root lead_agent result = record {
  task_id = root;
  attempt = 1;
  agent_id = lead_agent;
  status = TaskStatus.succeeded;
  result = some result.answer;
  error = none;
}

module _ {B S : Type 0} (board : TaskBoard B) where
  -- One round of the loop over `task_refs`.
  unfoldable pub verify_task : ℕ → ℕ → LeadStep B S Unit
  verify_task root id = do
    require (not (id == root))
    found ← on_store (board.task id)
    r ← grounded found
    require (r.status == TaskStatus.succeeded)
    below ← descends_from board root id
    require below

  -- One round of the loop over `artifact_refs`.
  unfoldable pub verify_artifact : List ℕ → SelectedArtifactRef → LeadStep B S Unit
  verify_artifact refs selected = do
    require (contains selected.task_id refs)
    found ← on_store (board.artifacts selected.task_id)
    require (any (λ a. a == selected.artifact) found)

  unfoldable pub verify_refs : TeamResult → Option ℕ → LeadStep B S Unit
  verify_refs result none = raise (LeadError.board (storage "completion without a root"))
  verify_refs result (some root) = do
    for_each (verify_task root) result.task_refs
    for_each (verify_artifact result.task_refs) result.artifact_refs

  unfoldable pub verify_completion : TeamResult → LeadStep B S Unit
  verify_completion result s =
      (require (not (is_empty result.task_refs)) >> verify_refs result s.root_id) s

  -- The Lead's attempt row is settled if the runner has written it, and inserted otherwise.
  unfoldable pub settle_final : TaskAttempt → Bool → LeadStep B S Unit
  settle_final a true = on_store (board.complete_attempt a)
  settle_final a false = on_store (board.record_attempt a)

  unfoldable pub persist_final : String → ℕ → TeamResult → LeadStep B S Unit
  persist_final lead_agent root result = do
    on_store (board.record_final_refs root result.task_refs result.artifact_refs)
    existing ← on_store (board.attempts root)
    settle_final (final_attempt root lead_agent result) (any (λ a. a.attempt == 1) existing)
    on_store (board.set_status root TaskStatus.succeeded)

module _ {B : Type 0} (board : TaskBoard B) where
  unfoldable pub answer_of : Option String → Exec B BoardError String
  answer_of none = raise (storage "no successful root result")
  answer_of (some answer) = pure answer

  unfoldable pub reconstruct_team_result : ℕ → Exec B BoardError TeamResult
  reconstruct_team_result root = do
    rows ← board.attempts root
    answer ← answer_of (summary_of (last_with TaskStatus.succeeded rows))
    (task_refs, artifact_refs) ← board.final_refs root
    pure (record { answer = answer; task_refs = task_refs; artifact_refs = artifact_refs })
