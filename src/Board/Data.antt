-- ===== src/Board/Data.antt =====
-- The plain data of crates/agentmosaic-team/src/board.rs, and the task and result types of
-- registry.rs that carry it. A u64 id and a u32 attempt number are natural numbers.
use text.Mathlib.TextEquality.{eq_iff}
use research_agent_system.Common.{
  ℕ, String, ◌≡◌, ◌↔◌, Bool, true, ◌&&◌, Option, List, arith, ◌==◌, PartialEq, nat_eq, string_eq,
}
use research_agent_system.Registry.TaskKind.{TaskKind}
use research_agent_system.Board.TaskStatus.{TaskStatus}

pub record TaskRecord : Type 0 where
  pub id : ℕ
  pub objective : String
  pub parent_task : Option ℕ
  pub kind : TaskKind
  pub target : Option String
  pub assignee : Option String
  pub status : TaskStatus

pub record TaskAttempt : Type 0 where
  pub task_id : ℕ
  pub attempt : ℕ
  pub agent_id : String
  pub status : TaskStatus
  pub result : Option String
  pub error : Option String

pub record AgentMessage : Type 0 where
  pub from_agent : String
  pub to_agent : String
  pub body : String

pub record ArtifactMeta : Type 0 where
  pub path : String
  pub sha256 : String

pub record SelectedArtifactRef : Type 0 where
  pub task_id : ℕ
  pub artifact : ArtifactMeta

pub data BoardError : Type 0 where
  unknown_task : ℕ → BoardError
  storage : String → BoardError

pub record AgentTask : Type 0 where
  pub id : ℕ
  pub objective : String
  pub kind : TaskKind
  pub context : List String

pub record AgentTaskResult : Type 0 where
  pub task_id : ℕ
  pub summary : String
  pub artifacts : List ArtifactMeta
  pub message : Option AgentMessage

-- The derived `PartialEq` of `ArtifactMeta`.
abbrev pub artifact_beq : ArtifactMeta → ArtifactMeta → Bool
artifact_beq a b = a.path == b.path && a.sha256 == b.sha256

pub artifact_beq_iff : (a b : ArtifactMeta) → (artifact_beq a b ≡ true) ↔ (a ≡ b)
artifact_beq_iff a b = ground (arith, eq_iff a.path b.path, eq_iff a.sha256 b.sha256)

instance abbrev pub artifact_eq : PartialEq ArtifactMeta
artifact_eq = record { same = artifact_beq; same_iff = artifact_beq_iff }
