-- ===== src/Storage/Selection.antt =====
-- The final selection of a run on the SQLite board: what `record_final_refs` writes.
use research_agent_system.Common.{
  Result, String, ℕ, ◌≡◌, ap, ◌∙◌, Bool, true, false, not, List, [], ◌∷◌, ◌++◌, map, filter,
  append-nil, append_assoc, arith, ok, Bool-cases, inl, inr, ◌>>◌, pure, bind-eq-ok, pure-eq-ok,
  for_each, ◌==◌, nat_eq, string_eq, any,
}
use research_agent_system.Board.Data.{SelectedArtifactRef}
use research_agent_system.Storage.Database.{
  TaskRefRow, ArtifactRefRow, Tables, Engine, Database, execute, execute-eq-ok, Ending, committed,
  transaction-eq-ok,
}
use research_agent_system.Storage.Reads.{query, query-eq-ok}
use research_agent_system.Storage.Refs.{
  delete_task_refs, delete_artifact_refs, insert_task_ref, insert_artifact_ref, write_refs,
  record_final_refs,
}

abbrev pub task_ref : ℕ → ℕ → TaskRefRow
task_ref root task = record { root_task_id = root; selected_task_id = task }

abbrev pub artifact_ref : ℕ → SelectedArtifactRef → ArtifactRefRow
artifact_ref root s = record {
  root_task_id = root;
  task_id = s.task_id;
  path = s.artifact.path;
  sha256 = s.artifact.sha256;
}

-- The tables with a new selection in place of the old one of `root`.
abbrev pub with_selection : ℕ → List ℕ → List SelectedArtifactRef → Tables → Tables
with_selection root tasks selected t = record t {
  final_task_refs =
      filter (λ r. not (r.root_task_id == root)) t.final_task_refs ++ map (task_ref root) tasks;
  final_artifact_refs =
      filter (λ r. not (r.root_task_id == root)) t.final_artifact_refs
      ++ map (artifact_ref root) selected;
}

seen : (a b : Bool) → ◌≡◌ {A = Result String Bool} (ok b) (ok a) → not a ≡ false → b ≡ true
seen a b h n = ground arith

module _ (engine : Engine) (root : ℕ) where
  one_task :
      (task : ℕ) (db db' : Database)
      → execute engine (insert_task_ref engine root task) db ≡ (ok tt, db')
      → db'.tables ≡ record (db.tables) {
        final_task_refs = db.tables.final_task_refs ++ task_ref root task ∷ [];
      }
  unfolding insert_task_ref
  one_task task db db' h =
      ground (arith, execute-eq-ok engine (insert_task_ref engine root task) db h)

  one_artifact :
      (s : SelectedArtifactRef) (db db' : Database)
      → execute engine (insert_artifact_ref engine root s) db ≡ (ok tt, db')
      → db'.tables ≡ record (db.tables) {
        final_artifact_refs = db.tables.final_artifact_refs ++ artifact_ref root s ∷ [];
      }
  unfolding insert_artifact_ref
  one_artifact s db db' h =
      ground (arith, execute-eq-ok engine (insert_artifact_ref engine root s) db h)

  all_tasks :
      (tasks : List ℕ) (db db' : Database)
      → for_each (λ task. execute engine (insert_task_ref engine root task)) tasks db ≡ (ok tt, db')
      → db'.tables ≡ record (db.tables) {
        final_task_refs = db.tables.final_task_refs ++ map (task_ref root) tasks;
      }
  all_tasks [] db db' h = ground (arith, append-nil db.tables.final_task_refs)
  all_tasks (task ∷ rest) db db' h =
      let (_, u, h1, h2) =
        bind-eq-ok (execute engine (insert_task_ref engine root task))
          (λ _. for_each (λ x. execute engine (insert_task_ref engine root x)) rest) h in
      let one = one_task task db u h1 in
      ground (
        arith,
        all_tasks rest u db' h2,
        append_assoc db.tables.final_task_refs (task_ref root task ∷ []) (map (task_ref root) rest),
      )

  all_artifacts :
      (selected : List SelectedArtifactRef) (db db' : Database)
      → for_each (λ s. execute engine (insert_artifact_ref engine root s)) selected db
        ≡ (ok tt, db')
      → db'.tables ≡ record (db.tables) {
        final_artifact_refs = db.tables.final_artifact_refs ++ map (artifact_ref root) selected;
      }
  all_artifacts [] db db' h = ground (arith, append-nil db.tables.final_artifact_refs)
  all_artifacts (s ∷ rest) db db' h =
      let (_, u, h1, h2) =
        bind-eq-ok (execute engine (insert_artifact_ref engine root s))
          (λ _. for_each (λ x. execute engine (insert_artifact_ref engine root x)) rest) h in
      let one = one_artifact s db u h1 in
      ground (
        arith,
        all_artifacts rest u db' h2,
        append_assoc db.tables.final_artifact_refs (artifact_ref root s ∷ [])
            (map (artifact_ref root) rest),
      )

  dropped_tasks :
      (db db' : Database)
      → execute engine (delete_task_refs root) db ≡ (ok tt, db')
      → db'.tables ≡ record (db.tables) {
        final_task_refs = filter (λ r. not (r.root_task_id == root)) db.tables.final_task_refs;
      }
  unfolding delete_task_refs
  dropped_tasks db db' h = ground (arith, execute-eq-ok engine (delete_task_refs root) db h)

  dropped_artifacts :
      (db db' : Database)
      → execute engine (delete_artifact_refs root) db ≡ (ok tt, db')
      → db'.tables ≡ record (db.tables) {
        final_artifact_refs =
            filter (λ r. not (r.root_task_id == root)) db.tables.final_artifact_refs;
      }
  unfolding delete_artifact_refs
  dropped_artifacts db db' h = ground (arith, execute-eq-ok engine (delete_artifact_refs root) db h)

  replaced :
      (tasks : List ℕ) (selected : List SelectedArtifactRef) (db end : Database) {v : Ending Unit}
      → (do
        execute engine (delete_task_refs root)
        execute engine (delete_artifact_refs root)
        for_each (λ task. execute engine (insert_task_ref engine root task)) tasks
        for_each (λ s. execute engine (insert_artifact_ref engine root s)) selected
        pure (committed tt))
          db
        ≡ (ok v, end)
      → (v ≡ committed tt) × (end.tables ≡ with_selection root tasks selected db.tables)
  replaced tasks selected db end h =
      let (_, s1, p1, q1) = bind-eq-ok (execute engine (delete_task_refs root)) _ h in
      let (_, s2, p2, q2) = bind-eq-ok (execute engine (delete_artifact_refs root)) _ q1 in
      let (_, s3, p3, q3) =
        bind-eq-ok (for_each (λ task. execute engine (insert_task_ref engine root task)) tasks) _
          q2 in
      let (_, s4, p4, q4) =
        bind-eq-ok (for_each (λ s. execute engine (insert_artifact_ref engine root s)) selected) _
          q3 in
      let (e, d) = pure-eq-ok q4 in
      (
        e,
        ap (λ o. o.tables) d
            ∙ all_artifacts selected s3 s4 p4
            ∙ ap {A = Tables} {B = Tables}
                (λ t. record t {
                  final_artifact_refs = t.final_artifact_refs ++ map (artifact_ref root) selected;
                })
                (all_tasks tasks s2 s3 p3
                  ∙ ap {A = Tables} {B = Tables}
                      (λ t. record t {
                        final_task_refs = t.final_task_refs ++ map (task_ref root) tasks;
                      })
                      (dropped_artifacts s1 s2 p2
                        ∙ ap {A = Tables} {B = Tables}
                            (λ t. record t {
                              final_artifact_refs =
                                  filter (λ r. not (r.root_task_id == root)) t.final_artifact_refs;
                            })
                            (dropped_tasks db s1 p1))),
      )

  write_refs-eq-ok :
      (tasks : List ℕ) (selected : List SelectedArtifactRef) (db end : Database) {v : Ending Unit}
      → write_refs engine root tasks selected db ≡ (ok v, end)
      → (v ≡ committed tt)
        × (any (λ r. r.id == root) db.tables.team_tasks ≡ true)
        × (end.tables ≡ with_selection root tasks selected db.tables)
  unfolding write_refs
  write_refs-eq-ok tasks selected db end {v} h =
      let (exists, u, h1, h2) =
        bind-eq-ok (execute engine (query (λ t. ok (any (λ r. r.id == root) t.team_tasks)))) _ h in
      let (found, same) =
        query-eq-ok engine (λ t. ok (any (λ r. r.id == root) t.team_tasks)) db h1 in
      elim (Bool-cases (not exists)) [
        | inl missing ↦ absurd (cc (rw missing at h2))
        | inr there ↦
            let (e, t) = replaced tasks selected u end (rw there at h2) in
            (e, seen exists _ found there, t ∙ ap (with_selection root tasks selected) same)
      ]

  -- A success of `record_final_refs` means that the root was there, and that exactly its selection
  -- was replaced.
  pub record_final_refs-eq-ok :
      (tasks : List ℕ) (selected : List SelectedArtifactRef) (db db' : Database)
      → record_final_refs engine root tasks selected db ≡ (ok tt, db')
      → (any (λ r. r.id == root) db.tables.team_tasks ≡ true)
        × (db'.tables ≡ with_selection root tasks selected db.tables)
  unfolding record_final_refs
  record_final_refs-eq-ok tasks selected db db' h =
      let (start, end, began, ended) =
        transaction-eq-ok engine (write_refs engine root tasks selected) db h in
      elim ended [
        | inl (p, same) ↦
            let (_, there, t) = write_refs-eq-ok tasks selected start end p in
            (ground arith, ground arith)
        | inr (p, _) ↦ absurd (cc (write_refs-eq-ok tasks selected start end p).0)
      ]
