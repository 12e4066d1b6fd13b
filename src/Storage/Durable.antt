-- ===== src/Storage/Durable.antt =====
-- A task that `run_one` ends with success on the SQLite board: what is in the tables then.
use research_agent_system.Common.{
  ℕ, ◌<◌, String, ◌≡◌, ap, ◌∙◌, sym, List, [], ◌∷◌, Option, some, ok, All, get_last?, count_where,
  ◌==◌, nat_eq,
}
use research_agent_system.Board.Data.{TaskAttempt, AgentTask, AgentTaskResult}
use research_agent_system.Board.TaskStatus.{TaskStatus}
use research_agent_system.Board.Trait.{TaskBoard}
use research_agent_system.Events.RunEvent.{RunEvent}
use research_agent_system.Scheduler.Run.{Team, Observed, run_one}
use research_agent_system.Scheduler.Extends.{Kept}
use research_agent_system.Scheduler.Promise.{Concluded, succeeded, run_one-Finished}
use research_agent_system.Storage.Database.{Engine, Database, Tables}
use research_agent_system.Storage.Writes.{is_run}
use research_agent_system.Storage.Sqlite.{sqlite_board}
use research_agent_system.Storage.Commit.{with_result, commit_successful_result-eq-ok}

All-allowed : (names : List String) → All {0, 0} (λ _. Unit) names
All-allowed [] = tt
All-allowed (a ∷ rest) = (tt, All-allowed rest)

module _ {B : Type 0} (board : TaskBoard B) (team : Team B) (task : AgentTask)
    (Allowed : String → Type 0) where
  success_Kept :
      {attempts : List TaskAttempt} {told reported : List RunEvent} {s : Observed B}
      {last : Option AgentTaskResult} {r : AgentTaskResult}
      → Concluded board team task Allowed attempts told s last (ok r) reported
      → Kept board team task Allowed attempts r s.store
  success_Kept (succeeded r k) = k

-- The tables hold a task's whole result: `last` is a succeeded attempt of the task, whose row was
-- there, and the tables are some earlier ones with the message, the artifacts, the settled attempt
-- and the succeeded task of `r` written into them.
pub record IsDurable (task : ℕ) (attempts : List TaskAttempt) (r : AgentTaskResult) (t : Tables)
    : Type 0 where
  pub last : TaskAttempt
  pub before : Tables
  pub is_last : get_last? attempts ≡ some last
  pub of_task : last.task_id ≡ task
  pub result_of_task : r.task_id ≡ task
  pub is_success : last.status ≡ TaskStatus.succeeded
  pub summary : last.result ≡ some r.summary
  pub had_run : 0 < count_where (is_run last) before.team_task_runs
  pub had_task : 0 < count_where (λ row. row.id == last.task_id) before.team_tasks
  pub written : t ≡ with_result last r before

module _ (engine : Engine) (team : Team Database) (task : AgentTask) where
  -- On the SQLite board, a `run_one` that returns a result has left it in the tables as a whole.
  pub run_one-IsDurable :
      (candidates : List String) (s s' : Observed Database) (attempts : List TaskAttempt)
      (r : AgentTaskResult)
      → run_one (sqlite_board engine) team task candidates s ≡ (ok (attempts, ok r), s')
      → IsDurable task.id attempts r s'.store.tables
  run_one-IsDurable candidates s s' attempts r h =
      let x =
        run_one-Finished (sqlite_board engine) team task (λ _. Unit) candidates s s' attempts (ok r)
          (All-allowed candidates) h in
      let k = success_Kept (sqlite_board engine) team task (λ _. Unit) x.concluded in
      let (earlier, put) = k.held in
      let (same, status, run, row, tables) =
        commit_successful_result-eq-ok engine k.last r earlier s'.store put in
      let own : k.last.task_id ≡ task.id = ap (λ a. a.task_id) k.is_success in
      record {
        last = k.last;
        before = earlier.tables;
        is_last = k.is_last;
        of_task = own;
        result_of_task = sym same ∙ own;
        is_success = status;
        summary = ap (λ a. a.result) k.is_success;
        had_run = run;
        had_task = row;
        written = tables;
      }
