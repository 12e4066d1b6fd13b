-- ===== src/Samples/Runs.antt =====
-- The theorems on the scheduler and the Lead, at a run of one task and a run of two rounds.
use native.Mathlib.Omega.{arith}
use research_agent_system.Common.{
  some, ℕ, ◌≤◌, ◌≡◌, refl, String, none, [], ◌∷◌, length, ok, if◌then◌else◌, ◌==◌, nat_eq,
}
use research_agent_system.Common.TreeMap
use research_agent_system.Registry.TaskKind
use research_agent_system.Registry.TaskKind.{TaskKind}
use research_agent_system.Board.TaskStatus
use research_agent_system.Board.TaskStatus.{TaskStatus}
use research_agent_system.Storage.Database.{Database, execute, empty_tables}
use research_agent_system.Storage.Rows.{collect_rows, row_to_attempt, row_to_task}
use research_agent_system.Storage.Reads
use research_agent_system.Storage.Writes
use research_agent_system.Storage.Results.{commit_successful_result}
use research_agent_system.Storage.Refs
use research_agent_system.Scheduler.Run
use research_agent_system.Scheduler.Schedule
use research_agent_system.Scheduler.Order.{candidate_order}
use research_agent_system.Lead.Data
use research_agent_system.Lead.Data.{Lead, LeadState, LeadDecision, LeadContext, TeamResult, Brain}
use research_agent_system.Lead.Tree
use research_agent_system.Lead.Context
use research_agent_system.Lead.Final
use research_agent_system.Lead.Loop
use research_agent_system.Lead.Answered.{IsAnswered}
use research_agent_system.Lead.Answer.{run-length, run-IsAnswered}
use research_agent_system.Storage.Durable.{IsDurable, run_one-IsDurable}
use research_agent_system.Storage.Sqlite.{sqlite_board}
use research_agent_system.Scheduler.Run.{Observed, run_one}
use research_agent_system.Scheduler.Promise.{Finished, run_one-Finished}
use research_agent_system.Storage.Runs as StoredRuns
use research_agent_system.Lead.Descendants.{descendants_of-on_store}
use research_agent_system.Samples.Fixture.{
  busy, pair_registry, quiet, fresh, able_team, child_task, child_result, child_attempt, observed,
}

-- the board and the events after the task has run
abbrev ran : Observed Database
ran = (run_one (sqlite_board quiet) able_team child_task ("b" ∷ []) (observed fresh)).1

runs :
    run_one (sqlite_board quiet) able_team child_task ("b" ∷ []) (observed fresh)
    ≡ (ok (child_attempt ∷ [], ok child_result), ran)
unfolding run_one Run.on_board Run.walk Run.try_agent Run.retry Run.attempt_once Run.wait Run.emit
    Run.call Run.settle_attempt Run.conclude TreeMap.get execute collect_rows row_to_attempt
    TaskStatus.as_str TaskStatus.restore Reads.attempts Reads.messages_to Reads.query Writes.assign
    Writes.set_status Writes.record_attempt commit_successful_result
runs = refl

abbrev IsBuilder : String → Type 0
IsBuilder id = id ≡ "b"

run_one-Finished_example :
    Finished
      (sqlite_board quiet)
      able_team
      child_task
      IsBuilder
      ("b" ∷ [])
      (observed fresh)
      ran
      (child_attempt ∷ [])
      (ok child_result)
run_one-Finished_example =
    run_one-Finished (sqlite_board quiet) able_team child_task IsBuilder ("b" ∷ []) (observed fresh)
      ran (child_attempt ∷ []) (ok child_result) (refl, tt) runs

run_one-IsDurable_example :
    IsDurable child_task.id (child_attempt ∷ []) child_result ran.store.tables
run_one-IsDurable_example =
    run_one-IsDurable quiet able_team child_task ("b" ∷ []) (observed fresh) ran
      (child_attempt ∷ []) child_result runs

-- A brain that delegates one task first and then completes with it.
abbrev first_or_later : ℕ → LeadDecision
first_or_later round =
    if round == 0
    then LeadDecision.delegate (
        (record {
          objective = "part";
          kind = TaskKind.bulk;
          target = none;
          parent = none;
          context = [];
        })
        ∷ [])
    else LeadDecision.complete
        (record { answer = "all done"; task_refs = 2 ∷ []; artifact_refs = [] })

abbrev brain : Brain Database (Unit {0})
brain ctx s = (ok (first_or_later ctx.round), s)

abbrev lead : Lead Database (Unit {0})
lead = record {
  decide = brain;
  scheduler = record { registry = pair_registry; team = able_team };
  max_rounds = 3;
  max_tasks = 5;
  lead_agent = "a";
}

abbrev begin : LeadState Database (Unit {0})
begin = record {
  observed = observed (record { tables = empty_tables; executed = 0 });
  mind = tt;
  task_ids = [];
  root_id = none;
}

abbrev answered : TeamResult
answered = record { answer = "all done"; task_refs = 2 ∷ []; artifact_refs = [] }

abbrev end : LeadState Database (Unit {0})
end = (Loop.run (sqlite_board quiet) lead "goal" begin).1

leads : Loop.run (sqlite_board quiet) lead "goal" begin ≡ (ok answered, end)
unfolding run_one Run.on_board Loop.run Loop.run_rounds Loop.rounds Loop.from_root Loop.set_root
    Loop.extend_tasks Loop.remember Loop.finish Data.on_store Data.on_scheduler Data.announce
    Data.think Context.build_context Context.context_of Context.add_tasks Context.add_record
    Context.add_status Final.verify_completion Final.verify_refs Final.verify_task
    Final.verify_artifact Final.persist_final Final.settle_final Tree.descends_from Tree.climb
    Schedule.schedule Schedule.create_all Schedule.report_all Schedule.run_existing
    Schedule.build_jobs Schedule.gather Schedule.run_jobs Schedule.collect_results
    Schedule.parent_context Schedule.ignore_err Schedule.parent_summary candidate_order row_to_task
    Writes.create_task Writes.complete_attempt Reads.task Reads.artifacts Refs.record_final_refs
    Refs.delete_task_refs Refs.delete_artifact_refs Refs.insert_task_ref Refs.insert_artifact_ref
    TaskKind.as_str TaskKind.restore TaskKind.tier Run.walk Run.try_agent Run.retry Run.attempt_once
    Run.wait Run.emit Run.call Run.settle_attempt Run.conclude TreeMap.get execute collect_rows
    row_to_attempt TaskStatus.as_str TaskStatus.restore Reads.attempts Reads.messages_to Reads.query
    Writes.assign Writes.set_status Writes.record_attempt commit_successful_result
leads = refl

run-length_example : length (Loop.run (sqlite_board quiet) lead "goal" begin).1.task_ids ≤ 5
run-length_example = run-length (sqlite_board quiet) lead "goal" begin (omega arith)

run-IsAnswered_example :
    (root : ℕ) × (u : LeadState Database (Unit {0})) × (Data.on_store
        (Writes.create_task quiet "goal" none TaskKind.reasoning none)
        begin
      ≡ (ok root, u))
    × (round : ℕ) × IsAnswered
        (sqlite_board quiet)
        lead
        root
        "goal"
        (record u { root_id = some root })
        round
        answered
        end
run-IsAnswered_example =
    run-IsAnswered (sqlite_board quiet) lead "goal" begin end answered (omega arith) leads

-- the state of a Lead over a board with a root and a subtask
abbrev resumed : LeadState Database (Unit {0})
resumed = record begin { observed = observed busy }

descendants_of-on_store_example :
    Tree.descendants_of (sqlite_board quiet) 1 resumed
    ≡ Data.on_store (StoredRuns.descendants_of quiet 1) resumed
descendants_of-on_store_example = descendants_of-on_store quiet 1 resumed
