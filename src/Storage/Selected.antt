-- ===== src/Storage/Selected.antt =====
-- The final selection of a run on the SQLite board: `final_refs` reads back what was written.
use research_agent_system.Common.{
  suc, none, bind-run, eq_self, ℕ, ◌≡◌, refl, ap, ◌∙◌, Bool, not, List, [], ◌∷◌, ◌++◌, map, filter,
  arith, ok, ◌==◌, nat_eq, string_eq, sort_by, leb,
}
use research_agent_system.Board.Data.{SelectedArtifactRef}
use research_agent_system.Storage.Database.{
  execute_as, TaskRefRow, ArtifactRefRow, Tables, Engine, Database, execute,
}
use research_agent_system.Storage.Rows.{by_artifact}
use research_agent_system.Storage.Reads.{query}
use research_agent_system.Storage.Refs.{
  record_final_refs, final_refs, selected_tasks, selected_artifacts,
}
use research_agent_system.Storage.Selection.{
  with_selection, task_ref, artifact_ref, record_final_refs-eq-ok,
}

abbrev pub selected_of : ArtifactRefRow → SelectedArtifactRef
selected_of r = record {
  task_id = r.task_id;
  artifact = record { path = r.path; sha256 = r.sha256 };
}

ours_of_others :
    {A : Type 0} (own : A → Bool) (rows : List A) → filter own (filter (λ r. not (own r)) rows) ≡ []
ours_of_others own [] = refl
ours_of_others own (r ∷ rest) = ground (arith, ours_of_others own rest)

filter-append :
    {A : Type 0} (p : A → Bool) (xs ys : List A) → filter p (xs ++ ys) ≡ filter p xs ++ filter p ys
filter-append p [] ys = refl
filter-append p (x ∷ xs) ys = ground (arith, filter-append p xs ys)

module _ (engine : Engine) (root : ℕ) where
  own_tasks :
      (tasks : List ℕ)
      → filter (λ r. r.root_task_id == root) (map (task_ref root) tasks) ≡ map (task_ref root) tasks
  own_tasks [] = refl
  own_tasks (t ∷ rest) = ground (arith, eq_self root, own_tasks rest)

  own_artifacts :
      (selected : List SelectedArtifactRef)
      → filter (λ r. r.root_task_id == root) (map (artifact_ref root) selected)
        ≡ map (artifact_ref root) selected
  own_artifacts [] = refl
  own_artifacts (s ∷ rest) = ground (arith, eq_self root, own_artifacts rest)

  selected_ids :
      (tasks : List ℕ) → map (λ r. r.selected_task_id) (map (task_ref root) tasks) ≡ tasks
  selected_ids [] = refl
  selected_ids (t ∷ rest) = ap (λ l. t ∷ l) (selected_ids rest)

  tasks_back :
      (tasks : List ℕ) (selected : List SelectedArtifactRef) (t : Tables)
      → selected_tasks root (with_selection root tasks selected t) ≡ sort_by leb tasks
  tasks_back tasks selected t =
      ap {A = List TaskRefRow} (λ rows. sort_by leb (map (λ r. r.selected_task_id) rows))
        (filter-append (λ r. r.root_task_id == root) _ (map (task_ref root) tasks) ∙ (λ i.
          ours_of_others (λ r. r.root_task_id == root) t.final_task_refs i ++ own_tasks tasks i))
      ∙ ap (sort_by leb) (selected_ids tasks)

  artifacts_back :
      (tasks : List ℕ) (selected : List SelectedArtifactRef) (t : Tables)
      → selected_artifacts root (with_selection root tasks selected t)
        ≡ map selected_of (sort_by by_artifact (map (artifact_ref root) selected))
  artifacts_back tasks selected t =
      ap {A = List ArtifactRefRow} (λ rows. map selected_of (sort_by by_artifact rows))
        (filter-append (λ r. r.root_task_id == root) _ (map (artifact_ref root) selected) ∙ (λ i.
          ours_of_others (λ r. r.root_task_id == root) t.final_artifact_refs i
          ++ own_artifacts selected i))

  -- A query that the engine lets through answers from the tables.
  query_total :
      {A : Type 0} (read : Tables → A) (db : Database)
      → engine.fails db.executed ≡ none
      → execute engine (query (λ t. ok (read t))) db
        ≡ (ok (read db.tables), record { tables = db.tables; executed = suc db.executed })
  unfolding execute_as query
  query_total read db h = rw h

  -- After `record_final_refs` succeeded, `final_refs` returns the selection that was recorded, its
  -- tasks in order of their ids and its artifacts in order of task, path and digest, provided that
  -- the engine lets both queries through.
  pub record_final_refs-final_refs :
      (tasks : List ℕ) (selected : List SelectedArtifactRef) (db db' : Database)
      → record_final_refs engine root tasks selected db ≡ (ok tt, db')
      → engine.fails db'.executed ≡ none
      → engine.fails (suc db'.executed) ≡ none
      → (final_refs engine root db').0
        ≡ ok (
          sort_by leb tasks,
          map selected_of (sort_by by_artifact (map (artifact_ref root) selected)),
        )
  unfolding final_refs
  record_final_refs-final_refs tasks selected db db' h f g =
      let (_, put) = record_final_refs-eq-ok engine root tasks selected db db' h in
      let first = query_total (selected_tasks root) db' f in
      let second =
        query_total (selected_artifacts root)
          (record { tables = db'.tables; executed = suc db'.executed }) g in
      ap (λ o. o.0)
        (bind-run (execute engine (query (λ t. ok (selected_tasks root t)))) _ first
          ∙ bind-run (execute engine (query (λ t. ok (selected_artifacts root t)))) _ second)
      ∙ (λ i. ok (
        (ap (selected_tasks root) put ∙ tasks_back tasks selected db.tables) i,
        (ap (selected_artifacts root) put ∙ artifacts_back tasks selected db.tables) i,
      ))
