-- ===== src/Storage/Runs.antt =====
-- crates/agentmosaic-storage/src/board.rs: `root_tasks`, `latest_root_task` and `descendants_of`, the
-- methods of the SQLite board that are not in the trait.
use research_agent_system.Common.{
  ℕ, zero, suc, Bool, true, false, ◌&&◌, Option, none, some, List, [], ◌∷◌, if◌then◌else◌, ◌==◌,
  nat_eq, string_eq, filter, get_last?, Exec, ◌>>=◌, pure,
}
use research_agent_system.Registry.TaskKind
use research_agent_system.Registry.TaskKind.{TaskKind}
use research_agent_system.Board.Data.{TaskRecord, BoardError}
use research_agent_system.Storage.Database.{TaskRow, Engine, Database, execute}
use research_agent_system.Storage.Rows.{row_to_task, collect_rows}
use research_agent_system.Storage.Reads.{query, task, task_ids}

-- WHERE parent_task IS NULL AND kind = ?1
abbrev pub is_root_row : TaskRow → Bool
is_root_row r =
    elim r.parent_task [ none ↦ true | some _ ↦ false ]
    && r.kind == TaskKind.as_str TaskKind.reasoning

abbrev pub max_descendant_hops : ℕ
max_descendant_hops = 1024

module _ (engine : Engine) where
  unfoldable pub root_tasks : Exec Database BoardError (List TaskRecord)
  root_tasks = execute engine (
      query (λ t.
        collect_rows (row_to_task engine.invalid_query_text) (filter is_root_row t.team_tasks)))

  unfoldable pub latest_root_task : Exec Database BoardError (Option TaskRecord)
  latest_root_task = do rows ← root_tasks; pure (get_last? rows)

  module _ (root : ℕ) where
    -- The inner loop of `descendants_of`.
    unfoldable pub chain_reaches : ℕ → ℕ → Exec Database BoardError Bool
    chain_reaches zero current = pure false
    chain_reaches (suc hops) current = do
      found ← task engine current
      elim found [
        | none ↦ pure false
        | some r ↦ elim r.parent_task [
          | none ↦ pure false
          | some parent ↦ if parent == root then pure true else chain_reaches hops parent
        ]
      ]

    unfoldable pub select_descendants : List ℕ → Exec Database BoardError (List ℕ)
    select_descendants [] = pure []
    select_descendants (id ∷ ids) = if id == root then select_descendants ids else do
      below ← chain_reaches max_descendant_hops id
      rest ← select_descendants ids
      pure (if below then id ∷ rest else rest)

    unfoldable pub descendants_of : Exec Database BoardError (List ℕ)
    descendants_of = do ids ← task_ids engine; select_descendants ids
