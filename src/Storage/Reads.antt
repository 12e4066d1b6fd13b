-- ===== src/Storage/Reads.antt =====
-- crates/agentmosaic-storage/src/board.rs: `task`, `attempts`, `messages_to`, `messages`,
-- `artifacts` and `task_ids`.
use research_agent_system.Common.{
  ℕ, String, ◌≡◌, arith, Option, none, some, List, map, ◌==◌, nat_eq, string_eq, filter, find,
  sort_by, map_ok, Result, ok, err, Exec,
}
use research_agent_system.Board.Data.{
  TaskRecord, TaskAttempt, AgentMessage, ArtifactMeta, BoardError,
}
use research_agent_system.Storage.Database.{
  execute_as, TaskRow, RunRow, Tables, Engine, Database, Statement, execute,
}
use research_agent_system.Storage.Rows.{row_to_task, row_to_attempt, collect_rows, by_attempt}

-- SELECT: a query changes nothing, and fails on a row that cannot be read.
unfoldable pub query : {A : Type 0} → (Tables → Result String A) → Statement A
query read t = elim (read t) [ ok a ↦ ok (a, t) | err text ↦ err text ]

-- the rows of `task`, ORDER BY attempt
abbrev pub runs_of : ℕ → Tables → List RunRow
runs_of id t = sort_by by_attempt (filter (λ r. r.task_id == id) t.team_task_runs)

module _ (engine : Engine) where
  unfoldable pub read_task : Option TaskRow → Result String (Option TaskRecord)
  read_task none = ok none
  read_task (some r) = map_ok some (row_to_task engine.invalid_query_text r)

  unfoldable pub task : ℕ → Exec Database BoardError (Option TaskRecord)
  unfolding query read_task
  task id = execute engine (query (λ t. read_task (find (λ r. r.id == id) t.team_tasks)))

  unfoldable pub attempts : ℕ → Exec Database BoardError (List TaskAttempt)
  unfolding query
  attempts id =
      execute engine
        (query (λ t. collect_rows (row_to_attempt engine.invalid_query_text) (runs_of id t)))

  unfoldable pub messages_to : String → Exec Database BoardError (List AgentMessage)
  unfolding query
  messages_to agent =
      execute engine (query (λ t. ok (filter (λ m. m.to_agent == agent) t.messages)))

  unfoldable pub messages : Exec Database BoardError (List AgentMessage)
  unfolding query
  messages = execute engine (query (λ t. ok t.messages))

  unfoldable pub artifacts : ℕ → Exec Database BoardError (List ArtifactMeta)
  unfolding query
  artifacts id = execute engine (
      query (λ t. ok (
        map (λ r. record { path = r.path; sha256 = r.sha256 })
          (filter (λ r. r.task_id == id) t.artifacts))))

  unfoldable pub task_ids : Exec Database BoardError (List ℕ)
  unfolding query
  task_ids = execute engine (query (λ t. ok (map (λ r. r.id) t.team_tasks)))

  -- A query leaves the tables alone.
  pub query_tables :
      {A : Type 0} (read : Tables → Result String A) (db : Database)
      → (execute engine (query read) db).1.tables ≡ db.tables
  unfolding execute_as query
  query_tables read db = ground arith

  pub query-eq-ok :
      {A : Type 0} (read : Tables → Result String A) (db : Database) {a : A} {db' : Database}
      → execute engine (query read) db ≡ (ok a, db')
      → (read db.tables ≡ ok a) × (db'.tables ≡ db.tables)
  unfolding execute_as query
  query-eq-ok read db h = ground arith

  pub attempts_tables : (id : ℕ) (db : Database) → (attempts id db).1.tables ≡ db.tables
  unfolding attempts
  attempts_tables id db = query_tables _ db
