-- ===== src/Storage/Refs.antt =====
-- crates/agentmosaic-storage/src/board.rs: `record_final_refs` and `final_refs`.
use research_agent_system.Common.{
  ℕ, Bool, ◌&&◌, ◌||◌, not, List, [], ◌∷◌, ◌++◌, map, if◌then◌else◌, ◌==◌, nat_eq, string_eq, any,
  filter, sort_by, leb, ok, err, Exec, ◌>>=◌, ◌>>◌, pure, raise, for_each,
}
use research_agent_system.Board.Data.{SelectedArtifactRef, BoardError, unknown_task}
use research_agent_system.Storage.Database.{
  transaction_as, ArtifactRefRow, Tables, Engine, Database, Statement, execute, Ending, committed,
  transaction,
}
use research_agent_system.Storage.Rows.{by_artifact}
use research_agent_system.Storage.Writes.{dangling}
use research_agent_system.Storage.Reads.{query}

-- DELETE FROM team_final_task_refs and team_final_artifact_refs
unfoldable pub delete_task_refs : ℕ → Statement Unit
delete_task_refs root t = ok (
  tt,
  record t { final_task_refs = filter (λ r. not (r.root_task_id == root)) t.final_task_refs },
)

unfoldable pub delete_artifact_refs : ℕ → Statement Unit
delete_artifact_refs root t = ok (
  tt,
  record t {
    final_artifact_refs = filter (λ r. not (r.root_task_id == root)) t.final_artifact_refs;
  },
)

abbrev pub is_ref : ℕ → SelectedArtifactRef → ArtifactRefRow → Bool
is_ref root s r =
    r.root_task_id == root
    && r.task_id == s.task_id
    && r.path == s.artifact.path
    && r.sha256 == s.artifact.sha256

abbrev pub selected_tasks : ℕ → Tables → List ℕ
selected_tasks root t =
    sort_by leb
      (map (λ r. r.selected_task_id) (filter (λ r. r.root_task_id == root) t.final_task_refs))

abbrev pub selected_artifacts : ℕ → Tables → List SelectedArtifactRef
selected_artifacts root t =
    map
      (λ r. record { task_id = r.task_id; artifact = record { path = r.path; sha256 = r.sha256 } })
      (sort_by by_artifact (filter (λ r. r.root_task_id == root) t.final_artifact_refs))

module _ (engine : Engine) where
  -- INSERT INTO team_final_task_refs, whose key is the whole row
  unfoldable pub insert_task_ref : ℕ → ℕ → Statement Unit
  insert_task_ref root task t =
      if dangling engine root t
        || dangling engine task t
        || any (λ r. r.root_task_id == root && r.selected_task_id == task) t.final_task_refs
      then err engine.constraint_text
      else ok (
        tt,
        record t {
          final_task_refs =
              t.final_task_refs ++ (record { root_task_id = root; selected_task_id = task }) ∷ [];
        },
      )

  unfoldable pub insert_artifact_ref : ℕ → SelectedArtifactRef → Statement Unit
  insert_artifact_ref root s t =
      if dangling engine root t
        || dangling engine s.task_id t
        || any (is_ref root s) t.final_artifact_refs
      then err engine.constraint_text
      else ok (
        tt,
        record t {
          final_artifact_refs =
              t.final_artifact_refs
              ++ (record {
                root_task_id = root;
                task_id = s.task_id;
                path = s.artifact.path;
                sha256 = s.artifact.sha256;
              })
                ∷ [];
        },
      )

  -- The statements of `record_final_refs`, between BEGIN and COMMIT.
  unfoldable pub write_refs :
      ℕ → List ℕ → List SelectedArtifactRef → Exec Database BoardError (Ending (Unit {0}))
  write_refs root tasks selected = do
    exists ← execute engine (query (λ t. ok (any (λ r. r.id == root) t.team_tasks)))
    if not exists then raise (unknown_task root) else do
      execute engine (delete_task_refs root)
      execute engine (delete_artifact_refs root)
      for_each (λ task. execute engine (insert_task_ref root task)) tasks
      for_each (λ s. execute engine (insert_artifact_ref root s)) selected
      pure (committed tt)

  unfoldable pub record_final_refs :
      ℕ → List ℕ → List SelectedArtifactRef → Exec Database BoardError Unit
  unfolding write_refs transaction_as
  record_final_refs root tasks selected = transaction engine (write_refs root tasks selected)

  unfoldable pub final_refs : ℕ → Exec Database BoardError (List ℕ × List SelectedArtifactRef)
  final_refs root = do
    tasks ← execute engine (query (λ t. ok (selected_tasks root t)))
    selected ← execute engine (query (λ t. ok (selected_artifacts root t)))
    pure (tasks, selected)
