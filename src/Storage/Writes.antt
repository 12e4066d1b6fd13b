-- ===== src/Storage/Writes.antt =====
-- crates/agentmosaic-storage/src/board.rs: `create_task`, `assign`, `set_status`,
-- `record_attempt`, `complete_attempt`, `record_message` and `record_artifact`, each one statement.
use research_agent_system.Common.{
  ℕ, ◌+◌, String, Bool, ◌&&◌, not, Option, none, some, [], ◌∷◌, ◌++◌, if◌then◌else◌, ◌==◌, nat_eq,
  string_eq, any, update_where, count_where, ok, err, Exec, ◌>>=◌, pure, raise,
}
use research_agent_system.Registry.TaskKind
use research_agent_system.Registry.TaskKind.{TaskKind}
use research_agent_system.Board.TaskStatus
use research_agent_system.Board.TaskStatus.{TaskStatus}
use research_agent_system.Board.Data.{
  TaskAttempt, AgentMessage, ArtifactMeta, BoardError, unknown_task,
}
use research_agent_system.Storage.Database.{
  TaskRow, RunRow, Tables, Engine, Database, Statement, execute,
}

-- `changes == 0`, after a statement that has to find its row
unfoldable pub found : ℕ → ℕ → Exec Database BoardError Unit
found task n = if n == 0 then raise (unknown_task task) else pure tt

-- INSERT INTO team_tasks
unfoldable pub insert_task : String → Option ℕ → TaskKind → Option String → Statement ℕ
insert_task objective parent kind target t =
    let id = t.last_task_id + 1 in
    ok (
      id,
      record t {
        team_tasks =
            t.team_tasks
            ++ (record {
              id = id;
              objective = objective;
              parent_task = parent;
              kind = TaskKind.as_str kind;
              target = target;
              assignee = none;
              status = "pending";
            })
              ∷ [];
        last_task_id = id;
      },
    )

-- UPDATE team_tasks SET .. WHERE id = ?1
unfoldable pub update_task : ℕ → (TaskRow → TaskRow) → Statement ℕ
update_task task f t = ok (
  count_where (λ r. r.id == task) t.team_tasks,
  record t { team_tasks = update_where (λ r. r.id == task) f t.team_tasks },
)

-- UPDATE team_task_runs SET status, result, error WHERE task_id = ?1 AND attempt = ?2
abbrev pub is_run : TaskAttempt → RunRow → Bool
is_run a r = r.task_id == a.task_id && r.attempt == a.attempt

abbrev pub settle_run : TaskAttempt → RunRow → RunRow
settle_run a r = record r {
  status = TaskStatus.as_str a.status;
  result = a.result;
  error = a.error;
}

unfoldable pub update_run : TaskAttempt → Statement ℕ
update_run a t = ok (
  count_where (is_run a) t.team_task_runs,
  record t { team_task_runs = update_where (is_run a) (settle_run a) t.team_task_runs },
)

-- INSERT INTO messages
unfoldable pub insert_message : AgentMessage → Statement Unit
insert_message m t = ok (tt, record t { messages = t.messages ++ m ∷ [] })

-- INSERT INTO artifacts
unfoldable pub insert_artifact : ℕ → ArtifactMeta → Statement Unit
insert_artifact task a t = ok (
  tt,
  record t {
    artifacts = t.artifacts ++ (record { task_id = task; path = a.path; sha256 = a.sha256 }) ∷ [];
  },
)

module _ (engine : Engine) where
  -- A row may be refused for a reference to a task that is not there.
  abbrev pub dangling : ℕ → Tables → Bool
  dangling task t = engine.foreign_keys && not (any (λ r. r.id == task) t.team_tasks)

  unfoldable pub create_task :
      String → Option ℕ → TaskKind → Option String → Exec Database BoardError ℕ
  unfolding insert_task
  create_task objective parent kind target =
      execute engine (insert_task objective parent kind target)

  unfoldable pub assign : ℕ → String → Exec Database BoardError Unit
  unfolding update_task found
  assign task agent = do
    n ←
        execute engine
          (update_task task (λ r. record r { assignee = some agent; status = "assigned" }))
    found task n

  unfoldable pub set_status : ℕ → TaskStatus → Exec Database BoardError Unit
  unfolding update_task found
  set_status task status = do
    n ← execute engine (update_task task (λ r. record r { status = TaskStatus.as_str status }))
    found task n

  -- INSERT INTO team_task_runs
  unfoldable pub insert_run : TaskAttempt → Statement Unit
  insert_run a t =
      if dangling a.task_id t
      then err engine.constraint_text
      else ok (
        tt,
        record t {
          team_task_runs =
              t.team_task_runs
              ++ (record {
                task_id = a.task_id;
                attempt = a.attempt;
                agent_id = a.agent_id;
                status = TaskStatus.as_str a.status;
                result = a.result;
                error = a.error;
              })
                ∷ [];
        },
      )

  unfoldable pub record_attempt : TaskAttempt → Exec Database BoardError Unit
  unfolding insert_run
  record_attempt a = execute engine (insert_run a)

  unfoldable pub complete_attempt : TaskAttempt → Exec Database BoardError Unit
  unfolding update_run found
  complete_attempt a = do n ← execute engine (update_run a); found a.task_id n

  unfoldable pub record_message : AgentMessage → Exec Database BoardError Unit
  unfolding insert_message
  record_message m = execute engine (insert_message m)

  unfoldable pub record_artifact : ℕ → ArtifactMeta → Exec Database BoardError Unit
  unfolding insert_artifact
  record_artifact task a = execute engine (insert_artifact task a)
