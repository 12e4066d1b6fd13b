-- ===== src/Samples/Fixture.antt =====
-- A team of two agents, a quiet engine, and boards with a few rows.
use research_agent_system.Common.{if◌then◌else◌, ◌==◌, nat_eq, true, none, some, List, [], ◌∷◌, ok}
use research_agent_system.Registry.AgentTier.{AgentTier}
use research_agent_system.Registry.TaskKind.{TaskKind}
use research_agent_system.Registry.Agents.{AgentConfig, AgentRegistry}
use research_agent_system.Board.TaskStatus.{TaskStatus}
use research_agent_system.Board.Data.{AgentTask, AgentTaskResult, TaskAttempt, ArtifactMeta}
use research_agent_system.Storage.Database.{Engine, Database, TaskRow, RunRow, empty_tables}
use research_agent_system.Scheduler.Run.{Driver, Team, Observed, replied}

abbrev pub thinker : AgentConfig
thinker = record {
  id = "a";
  name = "Thinker";
  tier = AgentTier.reasoner;
  tags = [];
  max_concurrency = 1;
  driver_kind = none;
  executable = none;
  driver_args = [];
}

abbrev pub builder : AgentConfig
builder = record {
  id = "b";
  name = "Builder";
  tier = AgentTier.worker;
  tags = [];
  max_concurrency = 2;
  driver_kind = none;
  executable = none;
  driver_args = [];
}

abbrev pub pair : List AgentConfig
pair = thinker ∷ builder ∷ []

abbrev pub pair_registry : AgentRegistry
pair_registry = record { agents = ("a", thinker) ∷ ("b", builder) ∷ []; default = none }

abbrev pub quiet : Engine
quiet = record {
  fails = λ _. none;
  foreign_keys = true;
  constraint_text = "constraint";
  invalid_query_text = "invalid";
}

-- An engine whose statement number 2 fails.
abbrev pub failing : Engine
failing = record {
  fails = λ n. if n == 2 then some "disk full" else none;
  foreign_keys = true;
  constraint_text = "constraint";
  invalid_query_text = "invalid";
}

abbrev pub root_row : TaskRow
root_row = record {
  id = 1;
  objective = "root";
  parent_task = none;
  kind = "reasoning";
  target = none;
  assignee = none;
  status = "running";
}

abbrev pub child_row : TaskRow
child_row = record {
  id = 2;
  objective = "part";
  parent_task = some 1;
  kind = "bulk";
  target = none;
  assignee = none;
  status = "running";
}

abbrev pub child_run : RunRow
child_run = record {
  task_id = 2;
  attempt = 1;
  agent_id = "b";
  status = "running";
  result = none;
  error = none;
}

abbrev pub busy : Database
busy = record {
  tables = record empty_tables {
    team_tasks = root_row ∷ child_row ∷ [];
    last_task_id = 2;
    team_task_runs = child_run ∷ [];
  };
  executed = 0;
}

-- A board with the tasks and without attempts.
abbrev pub fresh : Database
fresh = record {
  tables = record empty_tables { team_tasks = root_row ∷ child_row ∷ []; last_task_id = 2 };
  executed = 0;
}

abbrev pub report : ArtifactMeta
report = record { path = "report.md"; sha256 = "abc" }

abbrev pub child_result : AgentTaskResult
child_result = record { task_id = 2; summary = "done"; artifacts = report ∷ []; message = none }

abbrev pub child_attempt : TaskAttempt
child_attempt = record {
  task_id = 2;
  attempt = 1;
  agent_id = "b";
  status = TaskStatus.succeeded;
  result = some "done";
  error = none;
}

abbrev pub child_task : AgentTask
child_task = record { id = 2; objective = "part"; kind = TaskKind.bulk; context = [] }

-- A driver that succeeds at once.
abbrev pub able : Driver Database
able task db = (replied (ok child_result), db)

abbrev pub able_team : Team Database
able_team = record {
  drivers = ("b", able) ∷ [];
  semaphores = ("b", 2) ∷ [];
  max_retries = 2;
  waiting = λ _ db. db;
}

abbrev pub observed : Database → Observed Database
observed db = record { store = db; events = [] }
