-- ===== src/Scheduler/Schedule.antt =====
-- `schedule`, `resume_existing`, `run_existing` and `parent_summary` of
-- crates/agentmosaic-team/src/scheduler.rs.
--
-- The tasks of a batch are spawned and run at the same time. Here they are run in the order in
-- which they were spawned; what another task writes meanwhile is what `Team.waiting` and the
-- drivers do to the board. The results are collected in that order, and the first error is
-- returned, after every task of the batch has run.
use Prim.Native.String
use research_agent_system.Common.{
  ℕ, String, not, Option, none, some, List, [], ◌∷◌, ◌++◌, if◌then◌else◌, ◌==◌, Result, ok, err,
  Exec, ◌>>=◌, ◌>>◌, pure, raise,
}
use research_agent_system.Common.Decimal.{decimal}
use research_agent_system.Common.TreeMap.{TreeMap}
use research_agent_system.Registry.TaskKind.{TaskKind}
use research_agent_system.Registry.Agents.{AgentRegistry}
use research_agent_system.Board.TaskStatus.{TaskStatus, status_eq}
use research_agent_system.Board.Data.{
  TaskRecord, TaskAttempt, BoardError, unknown_task, storage, AgentTask, AgentTaskResult,
}
use research_agent_system.Board.Trait.{TaskBoard, last_with}
use research_agent_system.Events.Text.{bounded_event_text}
use research_agent_system.Events.RunEvent.{task_delegated}
use research_agent_system.Scheduler.Order.{candidate_order, build_semaphores}
use research_agent_system.Scheduler.Run.{
  ScheduleError, Driver, Observed, Team, Future, on_board, emit, run_one,
}

pub record TaskSpec : Type 0 where
  pub objective : String
  pub kind : TaskKind
  pub target : Option String
  pub parent : Option ℕ
  pub context : List String

pub record ScheduledResult : Type 0 where
  pub task_id : ℕ
  pub result : Result String AgentTaskResult
  pub attempts : List TaskAttempt

pub record Scheduler (B : Type 0) : Type 0 where
  pub registry : AgentRegistry
  pub team : Team B

-- `Scheduler::new`; `waiting` is what other tasks do while one waits for a permit.
unfoldable pub new :
    {B : Type 0} → AgentRegistry → TreeMap (Driver B) → ℕ → (String → B → B) → Scheduler B
new registry drivers max_retries waiting = record {
  registry = registry;
  team = record {
    drivers = drivers;
    semaphores = build_semaphores registry;
    max_retries = max_retries;
    waiting = waiting;
  };
}

abbrev pub or_id : Option ℕ → ℕ → ℕ
or_id none id = id
or_id (some parent) id = parent

-- the summary of the last succeeded attempt
abbrev pub summary_of : Option TaskAttempt → Option String
summary_of none = none
summary_of (some a) = a.result

abbrev parent_line : ℕ → Option String → List String
parent_line parent none = []
parent_line parent (some s) =
    String.◌++◌ "parent[" (String.◌++◌ (decimal parent) (String.◌++◌ "]: " s)) ∷ []

-- A job is a task with its candidates, as it is handed to `tokio::spawn`.
abbrev pub Job : Type 0
Job = AgentTask × List String

abbrev pub Outcome : Type 0
Outcome = Result ScheduleError (List TaskAttempt × Result String AgentTaskResult)

-- Results in order; the first failed one ends the collection.
unfoldable pub collect_results : List ℕ → List Outcome → Result ScheduleError (List ScheduledResult)
collect_results [] outcomes = ok []
collect_results (id ∷ ids) [] = ok []
collect_results (id ∷ ids) (err e ∷ outcomes) = err e
collect_results (id ∷ ids) (ok (attempts, result) ∷ outcomes) =
    elim (collect_results ids outcomes) [
      | ok rest ↦ ok ((record { task_id = id; result = result; attempts = attempts }) ∷ rest)
      | err e ↦ err e
    ]

abbrev pub not_resumed_text : String
not_resumed_text = "resume_existing requires an explicitly resumed pending task"

module _ {B : Type 0} (board : TaskBoard B) where
  unfoldable pub parent_summary : ℕ → Exec B BoardError (Option String)
  parent_summary parent = do
    rows ← board.attempts parent
    pure (summary_of (last_with TaskStatus.succeeded rows))

  -- `if let Ok(Some(s)) = summary`: a failed read is passed over.
  unfoldable pub ignore_err : {A : Type 0} → Exec B BoardError (Option A) → Future B (Option A)
  ignore_err m s =
      let (r, b) = m s.store in (ok (elim r [ ok o ↦ o | err _ ↦ none ]), record s { store = b })

  unfoldable pub parent_context : Option ℕ → Future B (List String)
  parent_context none = pure []
  parent_context (some parent) = do
    summary ← ignore_err (parent_summary parent)
    pure (parent_line parent summary)

  module _ (scheduler : Scheduler B) where
    -- The loop that builds the jobs of a batch.
    unfoldable pub build_jobs : List ℕ → List TaskSpec → Future B (List Job)
    build_jobs [] specs = pure []
    build_jobs (id ∷ ids) [] = pure []
    build_jobs (id ∷ ids) (spec ∷ specs) = do
      parent_lines ← parent_context spec.parent
      rest ← build_jobs ids specs
      pure (
          (
            record {
              id = id;
              objective = spec.objective;
              kind = spec.kind;
              context = spec.context ++ parent_lines;
            },
            candidate_order scheduler.registry spec.kind spec.target,
          )
          ∷ rest)

    -- Every job of a batch runs to its end, whatever the others return.
    unfoldable pub run_jobs : List Job → Observed B → List Outcome × Observed B
    run_jobs [] s = ([], s)
    run_jobs ((task, candidates) ∷ jobs) s =
        let (outcome, s') = run_one board scheduler.team task candidates s in
        let (outcomes, end) = run_jobs jobs s' in (outcome ∷ outcomes, end)

    unfoldable pub gather : List ℕ → List Job → Future B (List ScheduledResult)
    gather ids jobs s = let (outcomes, s') = run_jobs jobs s in (collect_results ids outcomes, s')

    unfoldable pub run_existing : List ℕ → List TaskSpec → Future B (List ScheduledResult)
    run_existing ids specs = do jobs ← build_jobs ids specs; gather ids jobs

    unfoldable pub create_all : List TaskSpec → Future B (List ℕ)
    create_all [] = pure []
    create_all (spec ∷ specs) = do
      id ← on_board (board.create_task spec.objective spec.parent spec.kind spec.target)
      ids ← create_all specs
      pure (id ∷ ids)

    unfoldable pub report_all : List ℕ → List TaskSpec → Future B Unit
    report_all [] specs = pure tt
    report_all (id ∷ ids) [] = pure tt
    report_all (id ∷ ids) (spec ∷ specs) = do
      emit (
          task_delegated (or_id spec.parent id) id spec.kind spec.target
            (bounded_event_text spec.objective))
      report_all ids specs

    unfoldable pub schedule : List TaskSpec → Future B (List ScheduledResult)
    schedule specs = do ids ← create_all specs; report_all ids specs; run_existing ids specs

    -- `ok_or(BoardError::UnknownTask(task_id))?`
    unfoldable pub known : ℕ → Option TaskRecord → Future B TaskRecord
    known id none = raise (ScheduleError.board (unknown_task id))
    known id (some record_of) = pure record_of

    -- `results.remove(0)`, of a batch with one task
    unfoldable pub first_result : List ScheduledResult → Future B ScheduledResult
    first_result [] = raise ScheduleError.join_failed
    first_result (r ∷ rest) = pure r

    unfoldable pub resume_existing : ℕ → Future B ScheduledResult
    resume_existing id = do
      found ← on_board (board.task id)
      r ← known id found
      if not (r.status == TaskStatus.pending)
          then raise (ScheduleError.board (storage not_resumed_text))
          else do
            results ← run_existing (id ∷ []) (
                (record {
                  objective = r.objective;
                  kind = r.kind;
                  target = r.target;
                  parent = r.parent_task;
                  context = [];
                })
                ∷ [])
            first_result results
