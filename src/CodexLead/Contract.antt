-- ===== src/CodexLead/Contract.antt =====
-- The decision contract of crates/agentmosaic-runtime/src/codex_lead.rs, stated apart from the
-- code that checks it: which decision a reply stands for, if it stands for one.
use Prim.Native.String.{len}
use research_agent_system.Common.{
  ℕ, ◌≤◌, String, true, Option, none, some, List, [], ◌∷◌, length, contains, IsNodup, ◌≡◌, ◌≢◌,
  ◌==◌, any, nat_eq, string_eq,
}
use research_agent_system.Common.Trim.{trim}
use research_agent_system.Board.Data.{SelectedArtifactRef}
use research_agent_system.Scheduler.Schedule.{TaskSpec}
use research_agent_system.Lead.Data.{TeamResult, LeadDecision}
use research_agent_system.CodexLead.Wire.{
  TaskWire, to_task_kind, ArtifactWire, DecisionWire, delegate, follow_up, complete, is_sha256_hex,
}

-- Two lists of the same length whose elements belong together, each to each.
abbrev pub Pairwise {ℓ κ} : {A : Type ℓ} {B : Type κ} → (A → B → Type 0) → List A → List B → Type 0
Pairwise R [] [] = Unit
Pairwise R [] (y ∷ ys) = ⊥
Pairwise R (x ∷ xs) [] = ⊥
Pairwise R (x ∷ xs) (y ∷ ys) = R x y × Pairwise R xs ys

-- a target is no name, or the name of a candidate
abbrev pub IsRoutable : List String → Option String → Type 0
IsRoutable candidates none = Unit
IsRoutable candidates (some target) = any (λ c. c == target) candidates ≡ true

-- The task that a delegated task stands for: the trimmed objective, which is not empty, the kind,
-- a target that can be routed to, no parent and no context.
abbrev pub IsSpecOf : List String → TaskWire → TaskSpec → Type 0
IsSpecOf candidates task spec =
    (trim task.objective ≢ "")
    × IsRoutable candidates task.target
    × (spec ≡ record {
      objective = trim task.objective;
      kind = to_task_kind task.kind;
      target = task.target;
      parent = none;
      context = [];
    })

-- The reference that a selected artifact stands for: its task is selected, its path is not empty
-- and its digest is 64 lowercase hex characters.
abbrev pub IsRefOf : List ℕ → ArtifactWire → SelectedArtifactRef → Type 0
IsRefOf ids artifact reference =
    (trim artifact.path ≢ "")
    × (contains artifact.task_id ids ≡ true)
    × (is_sha256_hex artifact.sha256 ≡ true)
    × (reference ≡ record {
      task_id = artifact.task_id;
      artifact = record { path = trim artifact.path; sha256 = artifact.sha256 };
    })

-- The result that a completion stands for.
pub record IsResultOf (max_answer_bytes : ℕ) (text : String) (ids : List ℕ)
    (artifacts : List ArtifactWire) (result : TeamResult) : Type 0 where
  pub answer : result.answer ≡ trim text
  pub is_answered : trim text ≢ ""
  pub bounded : len (trim text) ≤ max_answer_bytes
  pub task_refs : result.task_refs ≡ ids
  pub grounded : 1 ≤ length ids
  pub few_ids : length ids ≤ 256
  pub distinct : IsNodup ids
  pub few_artifacts : length artifacts ≤ 256
  pub artifact_refs : Pairwise (IsRefOf ids) artifacts result.artifact_refs

abbrev pub IsDecisionOf : List String → ℕ → DecisionWire → LeadDecision → Type 0
IsDecisionOf candidates max_answer_bytes (delegate tasks) decision =
    (specs : List TaskSpec) × (decision ≡ LeadDecision.delegate specs)
    × (1 ≤ length tasks)
    × (length tasks ≤ 32)
    × Pairwise (IsSpecOf candidates) tasks specs
IsDecisionOf candidates max_answer_bytes (follow_up task) decision =
    (spec : TaskSpec) × (decision ≡ LeadDecision.follow_up (spec ∷ []))
    × IsSpecOf candidates task spec
IsDecisionOf candidates max_answer_bytes (complete text ids artifacts) decision =
    (result : TeamResult) × (decision ≡ LeadDecision.complete result)
    × IsResultOf max_answer_bytes text ids artifacts result
