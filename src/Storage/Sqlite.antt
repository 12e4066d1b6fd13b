-- ===== src/Storage/Sqlite.antt =====
-- crates/agentmosaic-storage/src/board.rs: `impl TaskBoard for SqliteTaskBoard`.
use research_agent_system.Common.{nat_eq, string_eq}
use research_agent_system.Board.Trait.{TaskBoard}
use research_agent_system.Storage.Database.{Engine, Database}
use research_agent_system.Storage.Writes.{
  create_task, assign, set_status, record_attempt, complete_attempt, record_message,
  record_artifact,
}
use research_agent_system.Storage.Results.{commit_successful_result}
use research_agent_system.Storage.Reads.{task, attempts, messages_to, messages, artifacts, task_ids}
use research_agent_system.Storage.Recovery.{recover_interrupted_attempt}
use research_agent_system.Storage.Refs.{record_final_refs, final_refs}

module _ (engine : Engine) where
  -- `impl TaskBoard for SqliteTaskBoard`
  abbrev pub sqlite_board : TaskBoard Database
  sqlite_board = record {
    create_task = create_task engine;
    assign = assign engine;
    set_status = set_status engine;
    record_attempt = record_attempt engine;
    complete_attempt = complete_attempt engine;
    recover_interrupted_attempt = recover_interrupted_attempt engine;
    commit_successful_result = commit_successful_result engine;
    record_message = record_message engine;
    record_artifact = record_artifact engine;
    record_final_refs = record_final_refs engine;
    final_refs = final_refs engine;
    task = task engine;
    attempts = attempts engine;
    messages_to = messages_to engine;
    messages = messages engine;
    artifacts = artifacts engine;
    task_ids = task_ids engine;
  }
