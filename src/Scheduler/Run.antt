-- ===== src/Scheduler/Run.antt =====
-- `run_one` of crates/agentmosaic-team/src/scheduler.rs: one task, from its first candidate to its
-- end. Between two of its critical sections on the board other tasks and the drivers change it:
-- at `sem.acquire().await` by `waiting`, and at `driver.run_task(..).await` by the driver itself,
-- whose answer comes with the board as it is then.
use Prim.Native.String
use research_agent_system.Common.{
  ℕ, zero, suc, ◌+◌, ◌%◌, String, Option, none, some, List, [], ◌∷◌, ◌++◌, map, length, get_last?,
  Result, ok, err, Exec, ◌>>=◌, ◌>>◌, pure, map_err, for_each,
}
use research_agent_system.Common.TreeMap
use research_agent_system.Common.TreeMap.{TreeMap}
use research_agent_system.Board.TaskStatus.{TaskStatus}
use research_agent_system.Board.Data.{
  TaskAttempt, AgentMessage, ArtifactMeta, BoardError, AgentTask, AgentTaskResult,
}
use research_agent_system.Board.Trait.{TaskBoard}
use research_agent_system.Events.Text.{bounded_event_text}
use research_agent_system.Events.RunEvent.{
  RunEvent, attempt_started, attempt_failed, task_succeeded, task_failed, artifact_recorded,
}

-- `JoinFailed` stands for a driver that panics.
pub data ScheduleError : Type 0 where
  board : BoardError → ScheduleError
  join_failed : ScheduleError

-- What a driver's future ends with.
pub data Reply : Type 0 where
  replied : Result String AgentTaskResult → Reply
  panicked : Reply

abbrev pub Driver : Type 0 → Type 0
Driver B = AgentTask → B → Reply × B

-- The board, and the events that the sink was given so far.
pub record Observed (B : Type 0) : Type 0 where
  pub store : B
  pub events : List RunEvent

-- What `run_one` is handed besides the task.
pub record Team (B : Type 0) : Type 0 where
  pub drivers : TreeMap (Driver B)
  pub semaphores : TreeMap ℕ
  pub max_retries : ℕ
  pub waiting : String → B → B

-- The attempts of this run, the number of the last attempt, and the result if there is one.
pub record Progress : Type 0 where
  pub attempts : List TaskAttempt
  pub attempt_seq : ℕ
  pub last_result : Option AgentTaskResult

abbrev pub u32 : ℕ → ℕ
u32 n = n % 4294967296

abbrev pub running_attempt : ℕ → ℕ → String → TaskAttempt
running_attempt task seq agent = record {
  task_id = task;
  attempt = seq;
  agent_id = agent;
  status = TaskStatus.running;
  result = none;
  error = none;
}

-- `let terminal = match &outcome`
abbrev pub terminal_attempt : ℕ → ℕ → String → Result String AgentTaskResult → TaskAttempt
terminal_attempt task seq agent (ok r) = record {
  task_id = task;
  attempt = seq;
  agent_id = agent;
  status = TaskStatus.succeeded;
  result = some r.summary;
  error = none;
}
terminal_attempt task seq agent (err e) = record {
  task_id = task;
  attempt = seq;
  agent_id = agent;
  status = TaskStatus.failed;
  result = none;
  error = some e;
}

abbrev artifact_event : ℕ → ArtifactMeta → RunEvent
artifact_event task a = artifact_recorded task a.path a.sha256

-- The events that report a terminal attempt.
abbrev pub terminal_events : ℕ → ℕ → String → Result String AgentTaskResult → List RunEvent
terminal_events task seq agent (ok r) =
    map (artifact_event task) r.artifacts ++ task_succeeded task agent (length r.artifacts) ∷ []
terminal_events task seq agent (err e) = attempt_failed task seq agent (bounded_event_text e) ∷ []

abbrev pub or_text : Option String → String → String
or_text none t = t
or_text (some s) t = s

-- `format!("[{}] {}", m.from_agent, m.body)`
abbrev pub message_line : AgentMessage → String
message_line m = String.◌++◌ "[" (String.◌++◌ m.from_agent (String.◌++◌ "] " m.body))

abbrev pub with_messages : AgentTask → List AgentMessage → AgentTask
with_messages task messages = record task { context = task.context ++ map message_line messages }

abbrev pub ok_result : Result String AgentTaskResult → Option AgentTaskResult
ok_result (ok r) = some r
ok_result (err e) = none

abbrev answer : Reply → Result ScheduleError (Result String AgentTaskResult)
answer (replied r) = ok r
answer panicked = err join_failed

-- `attempts.last().and_then(|a| a.error.clone()).unwrap_or_else(..)`
abbrev error_of : Option TaskAttempt → Option String
error_of none = none
error_of (some a) = a.error

abbrev pub last_error : List TaskAttempt → String
last_error attempts = or_text (error_of (get_last? attempts)) "no candidate agent"

abbrev pub Future : Type 0 → Type 0 → Type 0
Future B A = Exec (Observed B) ScheduleError A

module _ {B : Type 0} where
  -- A critical section on the board.
  unfoldable pub on_board : {A : Type 0} → Exec B BoardError A → Future B A
  on_board m s = let (r, b) = m s.store in (map_err ScheduleError.board r, record s { store = b })

  unfoldable pub emit : RunEvent → Future B Unit
  emit e s = (ok tt, record s { events = s.events ++ e ∷ [] })

  unfoldable pub wait : (B → B) → Future B Unit
  wait f s = (ok tt, record s { store = f s.store })

  unfoldable pub call : Driver B → AgentTask → Future B (Result String AgentTaskResult)
  call driver task s =
      let (reply, b) = driver task s.store in (answer reply, record s { store = b })

module _ {B : Type 0} (board : TaskBoard B) where
  unfoldable pub settle_attempt :
      TaskAttempt → Result String AgentTaskResult → Exec B BoardError Unit
  settle_attempt terminal (ok r) = board.commit_successful_result terminal r
  settle_attempt terminal (err e) = board.complete_attempt terminal

module _ {B : Type 0} (board : TaskBoard B) (team : Team B) (task : AgentTask) where
  -- One round of the loop over the retries.
  unfoldable pub attempt_once : Driver B → String → Progress → Future B Progress
  attempt_once driver agent p = do
    let seq = u32 (p.attempt_seq + 1)
    wait (team.waiting agent)
    on_board (board.record_attempt (running_attempt task.id seq agent))
    on_board (board.set_status task.id TaskStatus.running)
    emit (attempt_started task.id seq agent)
    messages ← on_board (board.messages_to agent)
    outcome ← call driver (with_messages task messages)
    on_board (settle_attempt board (terminal_attempt task.id seq agent outcome) outcome)
    for_each emit (terminal_events task.id seq agent outcome)
    pure (record {
      attempts = p.attempts ++ terminal_attempt task.id seq agent outcome ∷ [];
      attempt_seq = seq;
      last_result = ok_result outcome;
    })

  unfoldable pub retry : Driver B → String → ℕ → Progress → Future B Progress
  retry driver agent zero p = pure p
  retry driver agent (suc n) p = do
    p' ← attempt_once driver agent p
    elim p'.last_result [ some _ ↦ pure p' | none ↦ retry driver agent n p' ]

  -- An agent with no driver or no semaphore is passed over.
  unfoldable pub try_agent : String → Option (Driver B) → Option ℕ → Progress → Future B Progress
  try_agent agent none _ p = pure p
  try_agent agent (some driver) none p = pure p
  try_agent agent (some driver) (some _) p = do
    on_board (board.assign task.id agent)
    retry driver agent team.max_retries p

  unfoldable pub walk : List String → Progress → Future B Progress
  walk [] p = pure p
  walk (agent ∷ rest) p = do
    p' ← try_agent agent (TreeMap.get agent team.drivers) (TreeMap.get agent team.semaphores) p
    elim p'.last_result [ some _ ↦ pure p' | none ↦ walk rest p' ]

  unfoldable pub conclude :
      Progress
      → Option AgentTaskResult
      → Future B (List TaskAttempt × Result String AgentTaskResult)
  conclude p (some r) = pure (p.attempts, ok r)
  conclude p none = do
    on_board (board.set_status task.id TaskStatus.failed)
    emit (task_failed task.id (bounded_event_text (last_error p.attempts)))
    pure (p.attempts, err (last_error p.attempts))

  abbrev pub start : List TaskAttempt → Progress
  start prior = record { attempts = []; attempt_seq = u32 (length prior); last_result = none }

  unfoldable pub run_one : List String → Future B (List TaskAttempt × Result String AgentTaskResult)
  run_one candidates = do
    prior ← on_board (board.attempts task.id)
    p ← walk candidates (start prior)
    conclude p p.last_result
