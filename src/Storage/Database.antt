-- ===== src/Storage/Database.antt =====
-- The tables of crates/agentmosaic-storage/src/schema.rs that the task board uses, and the
-- execution of a statement and of a transaction on them.
--
-- SQLite is not part of the repository. `Engine` has what the board sees of it: whether and with
-- which text the n-th statement of a connection fails, whether foreign keys are enforced, and the
-- texts of a violated constraint and of an unreadable row. A statement that fails changes nothing,
-- and a transaction that is dropped before its commit succeeded leaves its tables as they were.
-- Rows stand in the order of their AUTOINCREMENT ids.
use research_agent_system.Common.{
  ℕ, suc, ℤ, String, Bool, Option, none, some, List, [], Result, ok, err, Exec, ◌>>◌, ◌≡◌, ◌⊎◌,
  bind-eq-ok, ◌∙◌, inl, inr, arith,
}
use research_agent_system.Board.Data.{AgentMessage, BoardError, storage}

-- `team_tasks`; `kind` and `status` are TEXT columns.
pub record TaskRow : Type 0 where
  pub id : ℕ
  pub objective : String
  pub parent_task : Option ℕ
  pub kind : String
  pub target : Option String
  pub assignee : Option String
  pub status : String

-- `team_task_runs`
pub record RunRow : Type 0 where
  pub task_id : ℕ
  pub attempt : ℕ
  pub agent_id : String
  pub status : String
  pub result : Option String
  pub error : Option String

-- `artifacts`, whose `session_id` the board leaves NULL
pub record ArtifactRow : Type 0 where
  pub task_id : ℕ
  pub path : String
  pub sha256 : String

-- `team_final_task_refs`
pub record TaskRefRow : Type 0 where
  pub root_task_id : ℕ
  pub selected_task_id : ℕ

-- `team_final_artifact_refs`
pub record ArtifactRefRow : Type 0 where
  pub root_task_id : ℕ
  pub task_id : ℕ
  pub path : String
  pub sha256 : String

-- `external_runtime_bindings`
pub record BindingRow : Type 0 where
  pub team_task_id : ℕ
  pub attempt : ℕ
  pub agent_id : String
  pub runtime_kind : String
  pub native_thread_id : Option String
  pub native_turn_id : Option String
  pub lifecycle_state : String
  pub runtime_name : Option String
  pub runtime_version : Option String
  pub protocol_kind : Option String
  pub protocol_version : Option String
  pub capabilities_json : Option String
  pub started_at : Option String
  pub finished_at : Option String

-- `runtime_collaboration_records`
pub record CollaborationRow : Type 0 where
  pub team_task_id : ℕ
  pub attempt : ℕ
  pub runtime_kind : String
  pub native_call_id : String
  pub kind : String
  pub payload_summary : String
  pub response_summary : Option String

-- `runtime_events`
pub record EventRow : Type 0 where
  pub team_task_id : ℕ
  pub attempt : ℕ
  pub sequence : ℕ
  pub event_kind : String
  pub payload_json : String
  pub created_at : String

-- `agent_registry`, which a row stores as the program has it (`AgentRegistryRecord` of
-- registry_store.rs), but for the column `max_concurrency`, which is NOT NULL.
pub record AgentRow : Type 0 where
  pub id : String
  pub name : String
  pub tier : String
  pub driver_kind : Option String
  pub executable : Option String
  pub runtime_version : Option String
  pub driver_args_json : Option String
  pub max_concurrency : ℤ
  pub tags_json : Option String
  pub driver_config_json : Option String

pub record Tables : Type 0 where
  pub team_tasks : List TaskRow
  pub last_task_id : ℕ  -- the AUTOINCREMENT counter of `team_tasks`
  pub team_task_runs : List RunRow
  pub messages : List AgentMessage
  pub artifacts : List ArtifactRow
  pub final_task_refs : List TaskRefRow
  pub final_artifact_refs : List ArtifactRefRow
  pub bindings : List BindingRow
  pub collaborations : List CollaborationRow
  pub runtime_events : List EventRow
  pub agent_registry : List AgentRow

abbrev pub empty_tables : Tables
empty_tables = record {
  team_tasks = [];
  last_task_id = 0;
  team_task_runs = [];
  messages = [];
  artifacts = [];
  final_task_refs = [];
  final_artifact_refs = [];
  bindings = [];
  collaborations = [];
  runtime_events = [];
  agent_registry = [];
}

pub record Engine : Type 0 where
  pub fails : ℕ → Option String
  pub foreign_keys : Bool
  pub constraint_text : String
  pub invalid_query_text : String

-- A connection: its tables, and how many statements it has executed.
pub record Database : Type 0 where
  pub tables : Tables
  pub executed : ℕ

abbrev pub Statement : Type 0 → Type 0
Statement A = Tables → Result String (A × Tables)

-- What a statement answers: the engine's failure, a violated constraint, or its effect. The caller
-- wraps the text of an error into its own type of errors.
abbrev pub settle :
    {E A : Type 0}
    → (String → E)
    → Option String
    → Result String (A × Tables)
    → Tables
    → Result E A × Tables
settle wrap (some text) r t = (err (wrap text), t)
settle wrap none (err text) t = (err (wrap text), t)
settle wrap none (ok (a, t')) t = (ok a, t')

-- How the body of a transaction ends without an error: with a commit, or by an early return that
-- drops the transaction.
pub data Ending (A : Type 0) : Type 0 where
  committed : A → Ending A
  dropped : A → Ending A

-- A transaction's body ended with a commit or with a drop, from the tables of the start.
abbrev pub Ended : {E A : Type 0} → Exec Database E (Ending A) → Database → A → Database → Type 0
Ended body db a db' =
    (start : Database) × (end : Database) × (start.tables ≡ db.tables)
    × ((body start ≡ (ok (committed a), end)) × (db'.tables ≡ end.tables)
        ⊎ (body start ≡ (ok (dropped a), end)) × (db'.tables ≡ db.tables))

module _ {E : Type 0} (wrap : String → E) (engine : Engine) where
  unfoldable pub execute_as : {A : Type 0} → Statement A → Exec Database E A
  execute_as statement db =
      let (r, t) = settle wrap (engine.fails db.executed) (statement db.tables) db.tables in
      (r, record { tables = t; executed = suc db.executed })

  -- BEGIN and COMMIT
  abbrev control : Statement (Unit {0})
  control t = ok (tt, t)

  abbrev finish_commit :
      {A : Type 0} → Tables → A → Result E (Unit {0}) → Database → Result E A × Database
  finish_commit before a (ok _) db = (ok a, db)
  finish_commit before a (err e) db = (err e, record db { tables = before })

  finish : {A : Type 0} → Tables → Result E (Ending A) → Database → Result E A × Database
  unfolding execute_as
  finish before (err e) db = (err e, record db { tables = before })
  finish before (ok (dropped a)) db = (ok a, record db { tables = before })
  finish before (ok (committed a)) db =
      let (r, db') = execute_as control db in finish_commit before a r db'

  run_body : {A : Type 0} → Exec Database E (Ending A) → Exec Database E A
  unfolding finish
  run_body body db = let (r, db') = body db in finish db.tables r db'

  unfoldable pub transaction_as : {A : Type 0} → Exec Database E (Ending A) → Exec Database E A
  unfolding execute_as run_body
  transaction_as body = do execute_as control; run_body body

  pub execute_as-err :
      {A : Type 0} (statement : Statement A) (db : Database) (e : E)
      → (execute_as statement db).0 ≡ err e
      → (execute_as statement db).1.tables ≡ db.tables
  unfolding execute_as
  execute_as-err statement db e h = ground arith

  finish-err :
      {A : Type 0} (before : Tables) (r : Result E (Ending A)) (db : Database) (e : E)
      → (finish before r db).0 ≡ err e
      → (finish before r db).1.tables ≡ before
  unfolding finish
  finish-err before r db e h = ground arith

  -- Whatever the body does, a transaction that fails leaves the tables as they were.
  pub transaction_as-err :
      {A : Type 0} (body : Exec Database E (Ending A)) (db : Database) (e : E)
      → (transaction_as body db).0 ≡ err e
      → (transaction_as body db).1.tables ≡ db.tables
  unfolding transaction_as
  transaction_as-err body db e h = ground (
    arith,
    finish-err (execute_as control db).1.tables (body (execute_as control db).1).0
        (body (execute_as control db).1).1 e,
  )

  -- A statement that succeeds had the engine's leave, and its effect.
  pub execute_as-eq-ok :
      {A : Type 0} (statement : Statement A) (db : Database) {a : A} {db' : Database}
      → execute_as statement db ≡ (ok a, db')
      → statement db.tables ≡ ok (a, db'.tables)
  unfolding execute_as
  execute_as-eq-ok statement db h = ground arith

  finish-eq-ok :
      {A : Type 0} (before : Tables) (r : Result E (Ending A)) (db : Database) {a : A}
      {db' : Database}
      → finish before r db ≡ (ok a, db')
      → (r ≡ ok (committed a)) × (db'.tables ≡ db.tables)
        ⊎ (r ≡ ok (dropped a)) × (db'.tables ≡ before)
  unfolding finish
  finish-eq-ok before (err e) db h = absurd (ground arith)
  finish-eq-ok before (ok (dropped b)) db h = inr (cc, ground arith)
  finish-eq-ok before (ok (committed b)) db h = inl (ground arith, ground arith)

  -- A transaction that succeeds has the effect of its body if that ends with a commit, and none if
  -- it ends with a drop.
  pub transaction_as-eq-ok :
      {A : Type 0} (body : Exec Database E (Ending A)) (db : Database) {a : A} {db' : Database}
      → transaction_as body db ≡ (ok a, db')
      → Ended body db a db'
  unfolding transaction_as
  transaction_as-eq-ok body db {a} {db'} h =
      let (_, u, p, q) = bind-eq-ok (execute_as control) (λ _. run_body body) h in
      let began : u.tables ≡ db.tables = ground (arith, execute_as-eq-ok control db p) in
      elim (finish-eq-ok u.tables (body u).0 (body u).1 q) [
        | inl (r, t) ↦ (u, (body u).1, began, inl ((λ i. (r i, (body u).1)), t))
        | inr (r, t) ↦ (u, (body u).1, began, inr ((λ i. (r i, (body u).1)), t ∙ began))
      ]

-- The board's own methods turn an error into `BoardError::Storage` with its text.
module _ (engine : Engine) where
  abbrev pub execute : {A : Type 0} → Statement A → Exec Database BoardError A
  execute = execute_as storage engine

  abbrev pub transaction :
      {A : Type 0} → Exec Database BoardError (Ending A) → Exec Database BoardError A
  transaction = transaction_as storage engine

  pub execute-err :
      {A : Type 0} (statement : Statement A) (db : Database) (e : BoardError)
      → (execute statement db).0 ≡ err e
      → (execute statement db).1.tables ≡ db.tables
  execute-err = execute_as-err storage engine

  pub transaction-err :
      {A : Type 0} (body : Exec Database BoardError (Ending A)) (db : Database) (e : BoardError)
      → (transaction body db).0 ≡ err e
      → (transaction body db).1.tables ≡ db.tables
  transaction-err = transaction_as-err storage engine

  pub execute-eq-ok :
      {A : Type 0} (statement : Statement A) (db : Database) {a : A} {db' : Database}
      → execute statement db ≡ (ok a, db')
      → statement db.tables ≡ ok (a, db'.tables)
  execute-eq-ok = execute_as-eq-ok storage engine

  pub transaction-eq-ok :
      {A : Type 0} (body : Exec Database BoardError (Ending A)) (db : Database) {a : A}
      {db' : Database}
      → transaction body db ≡ (ok a, db')
      → Ended body db a db'
  transaction-eq-ok = transaction_as-eq-ok storage engine
