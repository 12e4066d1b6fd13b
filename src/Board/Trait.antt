-- ===== src/Board/Trait.antt =====
-- The trait `TaskBoard` of crates/agentmosaic-team/src/board.rs: its methods over a board of type
-- `B`, and the two methods that it implements by the others.
use research_agent_system.Common.{
  ℕ, String, Bool, ◌||◌, not, Option, none, some, List, if◌then◌else◌, ◌==◌, nat_eq, find, reverse,
  Exec, ◌>>=◌, ◌>>◌, pure, raise, for_each,
}
use research_agent_system.Registry.TaskKind.{TaskKind}
use research_agent_system.Board.TaskStatus.{TaskStatus, status_eq}
use research_agent_system.Board.Data.{
  TaskRecord, TaskAttempt, AgentMessage, ArtifactMeta, SelectedArtifactRef, BoardError, storage,
  AgentTaskResult,
}

pub record TaskBoard (B : Type 0) : Type 0 where
  pub create_task : String → Option ℕ → TaskKind → Option String → Exec B BoardError ℕ
  pub assign : ℕ → String → Exec B BoardError Unit
  pub set_status : ℕ → TaskStatus → Exec B BoardError Unit
  pub record_attempt : TaskAttempt → Exec B BoardError Unit
  pub complete_attempt : TaskAttempt → Exec B BoardError Unit
  pub recover_interrupted_attempt : ℕ → Exec B BoardError (Option TaskAttempt)
  pub commit_successful_result : TaskAttempt → AgentTaskResult → Exec B BoardError Unit
  pub record_message : AgentMessage → Exec B BoardError Unit
  pub record_artifact : ℕ → ArtifactMeta → Exec B BoardError Unit
  pub record_final_refs : ℕ → List ℕ → List SelectedArtifactRef → Exec B BoardError Unit
  pub final_refs : ℕ → Exec B BoardError (List ℕ × List SelectedArtifactRef)
  pub task : ℕ → Exec B BoardError (Option TaskRecord)
  pub attempts : ℕ → Exec B BoardError (List TaskAttempt)
  pub messages_to : String → Exec B BoardError (List AgentMessage)
  pub messages : Exec B BoardError (List AgentMessage)
  pub artifacts : ℕ → Exec B BoardError (List ArtifactMeta)
  pub task_ids : Exec B BoardError (List ℕ)

abbrev pub interrupted_text : String
interrupted_text = "interrupted before terminal driver result; explicit resume required"

abbrev pub mismatch_text : String
mismatch_text = "successful result does not match succeeded attempt"

-- `attempts.into_iter().rev().find(..)` for the last attempt of a status
abbrev pub last_with : TaskStatus → List TaskAttempt → Option TaskAttempt
last_with status rows = find (λ a. a.status == status) (reverse rows)

-- the row that closes an interrupted attempt
abbrev pub close_interrupted : TaskAttempt → TaskAttempt
close_interrupted a = record a { status = TaskStatus.failed; error = some interrupted_text }

-- the guard of `commit_successful_result`
abbrev pub mismatched : TaskAttempt → AgentTaskResult → Bool
mismatched attempt result =
    not (attempt.task_id == result.task_id) || not (attempt.status == TaskStatus.succeeded)

module _ {B : Type 0} (board : TaskBoard B) where
  recover_row : ℕ → Option TaskAttempt → Exec B BoardError (Option TaskAttempt)
  recover_row task none = pure none
  recover_row task (some a) = do
    board.complete_attempt (close_interrupted a)
    board.set_status task TaskStatus.failed
    pure (some (close_interrupted a))

  unfoldable pub default_recover_interrupted_attempt : ℕ → Exec B BoardError (Option TaskAttempt)
  unfolding recover_row
  default_recover_interrupted_attempt task = do
    rows ← board.attempts task
    recover_row task (last_with TaskStatus.running rows)

  record_message_of : Option AgentMessage → Exec B BoardError Unit
  record_message_of none = pure tt
  record_message_of (some message) = board.record_message message

  unfoldable pub default_commit_successful_result :
      TaskAttempt → AgentTaskResult → Exec B BoardError Unit
  unfolding record_message_of
  default_commit_successful_result attempt result =
      if mismatched attempt result then raise (storage mismatch_text) else do
        record_message_of result.message
        for_each (board.record_artifact attempt.task_id) result.artifacts
        board.complete_attempt attempt
        board.set_status attempt.task_id TaskStatus.succeeded
