-- ===== src/Lead/Data.antt =====
-- The types of crates/agentmosaic-team/src/lead.rs, and the Lead's state. The brain is an
-- interface: it decides from the context, keeps a state of its own, and while it decides others
-- may change the board.
use research_agent_system.Common.{ℕ, String, Option, List, ◌++◌, [], ◌∷◌, Result, ok, Exec, map_err}
use research_agent_system.Board.Data.{
  ArtifactMeta, AgentMessage, BoardError, SelectedArtifactRef, AgentTaskResult,
}
use research_agent_system.Events.RunEvent.{RunEvent}
use research_agent_system.Scheduler.Run.{ScheduleError, Observed, Future}
use research_agent_system.Scheduler.Schedule.{TaskSpec, Scheduler}

pub record TeamResult : Type 0 where
  pub answer : String
  pub task_refs : List ℕ
  pub artifact_refs : List SelectedArtifactRef

pub data LeadDecision : Type 0 where
  delegate : List TaskSpec → LeadDecision
  follow_up : List TaskSpec → LeadDecision
  complete : TeamResult → LeadDecision

pub record LeadContext : Type 0 where
  pub root_task_id : ℕ
  pub objective : String
  pub round : ℕ
  pub candidates : List String
  pub results : List (ℕ × AgentTaskResult)
  pub artifacts : List ArtifactMeta
  pub failures : List (ℕ × String)
  pub messages : List AgentMessage

pub data LeadBrainError : Type 0 where
  unavailable : String → LeadBrainError
  invalid_decision : String → LeadBrainError
  rejected : String → LeadBrainError

pub data LeadError : Type 0 where
  schedule : ScheduleError → LeadError
  board : BoardError → LeadError
  brain : LeadBrainError → LeadError
  max_rounds : LeadError
  too_many_tasks : LeadError
  follow_up_without_result : LeadError
  completion_not_grounded : LeadError

-- `LeadBrain::decide`
abbrev pub Brain : Type 0 → Type 0 → Type 0
Brain B S = LeadContext → S × B → Result LeadBrainError LeadDecision × (S × B)

-- What stays the same while the Lead runs.
pub record Lead (B : Type 0) (S : Type 0) : Type 0 where
  pub decide : Brain B S
  pub scheduler : Scheduler B
  pub max_rounds : ℕ
  pub max_tasks : ℕ
  pub lead_agent : String

-- What changes: the board and the events, the brain's own state, and the Lead's two fields.
pub record LeadState (B : Type 0) (S : Type 0) : Type 0 where
  pub observed : Observed B
  pub mind : S
  pub task_ids : List ℕ
  pub root_id : Option ℕ

abbrev pub LeadStep : Type 0 → Type 0 → Type 0 → Type 0
LeadStep B S A = Exec (LeadState B S) LeadError A

module _ {B S A : Type 0} where
  -- A critical section on the board, with `map_err(LeadError::Board)`.
  unfoldable pub on_store : Exec B BoardError A → LeadStep B S A
  on_store m s =
      let (r, b) = m s.observed.store in
      (map_err LeadError.board r, record s { observed = record (s.observed) { store = b } })

  unfoldable pub on_scheduler : Future B A → LeadStep B S A
  on_scheduler m s =
      let (r, o) = m s.observed in (map_err LeadError.schedule r, record s { observed = o })

module _ {B S : Type 0} where
  unfoldable pub announce : RunEvent → LeadStep B S Unit
  announce e s =
      (ok tt, record s { observed = record (s.observed) { events = s.observed.events ++ e ∷ [] } })

  unfoldable pub think : Brain B S → LeadContext → LeadStep B S LeadDecision
  think decide ctx s =
      let (r, (mind, store)) = decide ctx (s.mind, s.observed.store) in
      (
        map_err LeadError.brain r,
        record s { mind = mind; observed = record (s.observed) { store = store } },
      )
