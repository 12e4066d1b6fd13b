-- ===== src/Lead/Loop.antt =====
-- `extend_tasks`, `run_rounds`, `run` and `run_on_root` of crates/agentmosaic-team/src/lead.rs. The
-- loop counts `round` up to `max_rounds`; here it recurs on the rounds that are left, so it needs
-- no fuel.
use research_agent_system.Common.{
  ℕ, zero, suc, ◌+◌, String, Option, none, some, List, ◌++◌, map, length, leb, if◌then◌else◌, ◌==◌,
  nat_eq, is_empty, ok, ◌>>=◌, ◌>>◌, pure, raise,
}
use research_agent_system.Registry.TaskKind.{TaskKind}
use research_agent_system.Board.Data.{TaskRecord, storage, unknown_task}
use research_agent_system.Board.Trait.{TaskBoard}
use research_agent_system.Events.RunEvent.{lead_round_started, for_round}
use research_agent_system.Scheduler.Schedule.{TaskSpec, ScheduledResult, schedule}
use research_agent_system.Lead.Data.{
  LeadError, max_rounds, too_many_tasks, follow_up_without_result, completion_not_grounded, Lead,
  LeadContext, delegate, follow_up, complete, TeamResult, LeadStep, on_store, on_scheduler,
  announce, think,
}
use research_agent_system.Lead.Tree.{descendants_of}
use research_agent_system.Lead.Context.{build_context}
use research_agent_system.Lead.Final.{verify_completion, persist_final}

module _ {B S : Type 0} (board : TaskBoard B) (lead : Lead B S) where
  unfoldable pub set_root : ℕ → LeadStep B S Unit
  set_root root s = (ok tt, record s { root_id = some root })

  unfoldable pub set_tasks : List ℕ → LeadStep B S Unit
  set_tasks ids s = (ok tt, record s { task_ids = ids })

  unfoldable pub remember : List ScheduledResult → LeadStep B S Unit
  remember results s = (ok tt, record s { task_ids = s.task_ids ++ map (λ r. r.task_id) results })

  -- Every subtask of the Lead hangs off the root.
  abbrev pub under : ℕ → TaskSpec → TaskSpec
  under root spec = record spec { parent = some root }

  unfoldable pub extend_tasks : List TaskSpec → ℕ → LeadStep B S Unit
  extend_tasks specs root s =
      if leb (length s.task_ids + length specs) lead.max_tasks
      then (do
        results ← on_scheduler (schedule board lead.scheduler (map (under root) specs))
        remember results)
          s
      else raise too_many_tasks s

  unfoldable pub finish : ℕ → ℕ → TeamResult → LeadStep B S TeamResult
  finish root round result = if round == 0 then raise completion_not_grounded else do
    verify_completion board result
    persist_final board lead.lead_agent root result
    pure result

  unfoldable pub follow : ℕ → LeadContext → List TaskSpec → LeadStep B S Unit
  follow root ctx specs =
      if is_empty ctx.results then raise follow_up_without_result else extend_tasks specs root

  -- The loop, with `left` rounds to go.
  unfoldable pub rounds : ℕ → String → ℕ → ℕ → LeadStep B S TeamResult
  rounds root objective zero round = raise max_rounds
  rounds root objective (suc left) round = do
    ctx ← build_context board lead objective round
    announce (lead_round_started root round (for_round round))
    decision ← think lead.decide ctx
    elim decision [
      | delegate specs ↦ do extend_tasks specs root; rounds root objective left (round + 1)
      | follow_up specs ↦ do follow root ctx specs; rounds root objective left (round + 1)
      | complete result ↦ finish root round result
    ]

  unfoldable pub from_root : String → Option ℕ → LeadStep B S TeamResult
  from_root objective none = raise (LeadError.board (storage "lead loop started without a root"))
  from_root objective (some root) = rounds root objective lead.max_rounds 0

  unfoldable pub run_rounds : String → LeadStep B S TeamResult
  run_rounds objective s = from_root objective s.root_id s

  unfoldable pub run : String → LeadStep B S TeamResult
  run objective = do
    root ← on_store (board.create_task objective none TaskKind.reasoning none)
    set_root root
    run_rounds objective

  unfoldable pub known : ℕ → Option TaskRecord → LeadStep B S Unit
  known root none = raise (LeadError.board (unknown_task root))
  known root (some _) = pure tt

  unfoldable pub run_on_root : ℕ → String → LeadStep B S TeamResult
  run_on_root root objective = do
    found ← on_store (board.task root)
    known root found
    ids ← descendants_of board root
    set_tasks ids
    set_root root
    run_rounds objective
