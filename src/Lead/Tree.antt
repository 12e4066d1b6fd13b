-- ===== src/Lead/Tree.antt =====
-- `descends_from` and `descendants_of` of crates/agentmosaic-team/src/lead.rs. The number of hops
-- is bounded, so that a cycle of parents cannot hold the walk.
use research_agent_system.Common.{
  ℕ, zero, suc, Bool, true, false, Option, none, some, List, [], ◌∷◌, if◌then◌else◌, ◌==◌, nat_eq,
  ◌>>=◌, pure, raise,
}
use research_agent_system.Board.Data.{TaskRecord}
use research_agent_system.Board.Trait.{TaskBoard}
use research_agent_system.Lead.Data.{completion_not_grounded, LeadStep, on_store}

abbrev pub max_hops : ℕ
max_hops = 1024

-- `ok_or(LeadError::CompletionNotGrounded)`
abbrev pub grounded : {B S : Type 0} → Option TaskRecord → LeadStep B S TaskRecord
grounded none = raise completion_not_grounded
grounded (some r) = pure r

module _ {B S : Type 0} (board : TaskBoard B) (root : ℕ) where
  -- The loop of `descends_from`.
  unfoldable pub climb : ℕ → ℕ → LeadStep B S Bool
  climb zero current = pure false
  climb (suc hops) current = do
    found ← on_store (board.task current)
    r ← grounded found
    elim r.parent_task [
      | none ↦ pure false
      | some parent ↦ if parent == root then pure true else climb hops parent
    ]

  unfoldable pub descends_from : ℕ → LeadStep B S Bool
  descends_from task = climb max_hops task

  -- The inner loop of `descendants_of`, where a task that is not there ends the walk.
  unfoldable pub reaches : ℕ → ℕ → LeadStep B S Bool
  reaches zero current = pure false
  reaches (suc hops) current = do
    found ← on_store (board.task current)
    elim found [
      | none ↦ pure false
      | some r ↦ elim r.parent_task [
        | none ↦ pure false
        | some parent ↦ if parent == root then pure true else reaches hops parent
      ]
    ]

  unfoldable pub select : List ℕ → LeadStep B S (List ℕ)
  select [] = pure []
  select (id ∷ ids) = if id == root then select ids else do
    below ← reaches max_hops id
    rest ← select ids
    pure (if below then id ∷ rest else rest)

  unfoldable pub descendants_of : LeadStep B S (List ℕ)
  descendants_of = do ids ← on_store board.task_ids; select ids
