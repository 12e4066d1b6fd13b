-- ===== src/Storage/Results.antt =====
-- crates/agentmosaic-storage/src/board.rs: `commit_successful_result`.
use research_agent_system.Common.{
  Option, none, some, if◌then◌else◌, nat_eq, string_eq, Exec, ◌>>=◌, ◌>>◌, pure, raise, for_each,
}
use research_agent_system.Board.Data.{
  TaskAttempt, AgentMessage, BoardError, storage, AgentTaskResult,
}
use research_agent_system.Board.Trait.{mismatched, mismatch_text}
use research_agent_system.Storage.Database.{
  transaction_as, Engine, Database, execute, Ending, committed, transaction,
}
use research_agent_system.Storage.Writes.{
  found, update_task, complete_attempt, record_message, record_artifact,
}

module _ (engine : Engine) where
  unfoldable pub insert_message_of : Option AgentMessage → Exec Database BoardError Unit
  unfolding record_message
  insert_message_of none = pure tt
  insert_message_of (some m) = record_message engine m

  -- The statements of `commit_successful_result`, between BEGIN and COMMIT.
  unfoldable pub write_result :
      TaskAttempt → AgentTaskResult → Exec Database BoardError (Ending (Unit {0}))
  unfolding insert_message_of record_artifact complete_attempt update_task found
  write_result attempt result = do
    insert_message_of result.message
    for_each (record_artifact engine attempt.task_id) result.artifacts
    complete_attempt engine attempt
    n ← execute engine (update_task attempt.task_id (λ r. record r { status = "succeeded" }))
    found attempt.task_id n
    pure (committed tt)

  unfoldable pub commit_successful_result :
      TaskAttempt → AgentTaskResult → Exec Database BoardError Unit
  unfolding write_result transaction_as
  commit_successful_result attempt result =
      if mismatched attempt result
      then raise (storage mismatch_text)
      else transaction engine (write_result attempt result)
