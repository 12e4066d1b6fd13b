-- ===== src/Storage/Commit.antt =====
-- What `commit_successful_result` of the SQLite board has written when it succeeds.
use research_agent_system.Storage.Results.{commit_successful_result}
use research_agent_system.Storage.Database.{transaction-eq-ok}
use research_agent_system.Board.Trait.{mismatched}
use research_agent_system.Board.TaskStatus.{TaskStatus}
use research_agent_system.Common.{Bool-cases, inl, inr}
use research_agent_system.Common.{
  ℕ, ◌<◌, ◌≡◌, Option, none, some, List, [], ◌∷◌, ◌++◌, arith, ok, ◌>>=◌, ◌>>◌, pure, bind-eq-ok,
  map, append-nil, append_assoc, for_each, update_where, count_where, ◌==◌, nat_eq,
}
use research_agent_system.Board.Data.{TaskAttempt, AgentTaskResult, ArtifactMeta, AgentMessage}
use research_agent_system.Board.TaskStatus.{status_eq}
use research_agent_system.Storage.Database.{
  Engine, Database, Tables, ArtifactRow, execute-eq-ok, Ending, committed, execute,
}
use research_agent_system.Storage.Writes.{
  found, update_task, is_run, settle_run, update_run, complete_attempt, record_artifact,
  insert_artifact, record_message, insert_message,
}
use research_agent_system.Storage.Results.{write_result, insert_message_of}

abbrev pub sent : Option AgentMessage → List AgentMessage
sent none = []
sent (some m) = m ∷ []

abbrev pub artifact_row : ℕ → ArtifactMeta → ArtifactRow
artifact_row task a = record { task_id = task; path = a.path; sha256 = a.sha256 }

-- The tables with a worker's whole result in them.
abbrev pub with_result : TaskAttempt → AgentTaskResult → Tables → Tables
with_result attempt result t = record t {
  messages = t.messages ++ sent result.message;
  artifacts = t.artifacts ++ map (artifact_row attempt.task_id) result.artifacts;
  team_task_runs = update_where (is_run attempt) (settle_run attempt) t.team_task_runs;
  team_tasks =
      update_where (λ r. r.id == attempt.task_id) (λ r. record r { status = "succeeded" })
        t.team_tasks;
}

module _ (engine : Engine) where
  insert_message_of-eq-ok :
      (m : Option AgentMessage) (db db' : Database)
      → insert_message_of engine m db ≡ (ok tt, db')
      → db'.tables ≡ record (db.tables) { messages = db.tables.messages ++ sent m }
  unfolding insert_message_of record_message insert_message
  insert_message_of-eq-ok none db db' h = ground (arith, append-nil db.tables.messages)
  insert_message_of-eq-ok (some m) db db' h =
      ground (arith, execute-eq-ok engine (insert_message m) db h)

  artifacts-eq-ok :
      (task : ℕ) (produced : List ArtifactMeta) (db db' : Database)
      → for_each (record_artifact engine task) produced db ≡ (ok tt, db')
      → db'.tables
        ≡ record (db.tables) { artifacts = db.tables.artifacts ++ map (artifact_row task) produced }
  unfolding record_artifact insert_artifact
  artifacts-eq-ok task [] db db' h = ground (arith, append-nil db.tables.artifacts)
  artifacts-eq-ok task (a ∷ rest) db db' h =
      let (_, u, p, q) =
        bind-eq-ok (record_artifact engine task a)
          (λ _. for_each (record_artifact engine task) rest) h in
      let one = execute-eq-ok engine (insert_artifact task a) db p in
      ground (
        arith,
        artifacts-eq-ok task rest u db' q,
        append_assoc db.tables.artifacts (artifact_row task a ∷ []) (map (artifact_row task) rest),
      )

  settled :
      (attempt : TaskAttempt) (db db' : Database)
      → complete_attempt engine attempt db ≡ (ok tt, db')
      → (0 < count_where (is_run attempt) db.tables.team_task_runs)
        × (db'.tables ≡ record (db.tables) {
          team_task_runs =
              update_where (is_run attempt) (settle_run attempt) db.tables.team_task_runs;
        })
  unfolding complete_attempt update_run found
  settled attempt db db' h =
      let (n, u, p, q) =
        bind-eq-ok (execute engine (update_run attempt)) (found attempt.task_id) h in
      let e = execute-eq-ok engine (update_run attempt) db p in (ground arith, ground arith)

  marked :
      (task : ℕ) (db db' : Database) {v : Ending Unit}
      → (do
        n ← execute engine (update_task task (λ r. record r { status = "succeeded" }))
        found task n
        pure (committed tt))
          db
        ≡ (ok v, db')
      → (v ≡ committed tt)
        × (0 < count_where (λ r. r.id == task) db.tables.team_tasks)
        × (db'.tables ≡ record (db.tables) {
          team_tasks =
              update_where
                (λ r. r.id == task)
                (λ r. record r { status = "succeeded" })
                db.tables.team_tasks;
        })
  unfolding update_task found
  marked task db db' h =
      let (n, u, p, q) =
        bind-eq-ok (execute engine (update_task task _)) (λ n. found task n >> pure (committed tt))
          h in
      let e = execute-eq-ok engine (update_task task _) db p in
      (ground arith, ground arith, ground arith)

  write_result-eq-ok :
      (attempt : TaskAttempt) (result : AgentTaskResult) (db end : Database) {v : Ending Unit}
      → write_result engine attempt result db ≡ (ok v, end)
      → (v ≡ committed tt)
        × (0 < count_where (is_run attempt) db.tables.team_task_runs)
        × (0 < count_where (λ r. r.id == attempt.task_id) db.tables.team_tasks)
        × (end.tables ≡ with_result attempt result db.tables)
  unfolding write_result
  write_result-eq-ok attempt result db end {v} h =
      let (_, s1, p1, h1) = bind-eq-ok (insert_message_of engine result.message) _ h in
      let (_, s2, p2, h2) =
        bind-eq-ok (for_each (record_artifact engine attempt.task_id) result.artifacts) _ h1 in
      let (_, s3, p3, h3) = bind-eq-ok (complete_attempt engine attempt) _ h2 in
      let t1 = insert_message_of-eq-ok result.message db s1 p1 in
      let t2 = artifacts-eq-ok attempt.task_id result.artifacts s1 s2 p2 in
      let (c3, t3) = settled attempt s2 s3 p3 in
      let (e4, c4, t4) = marked attempt.task_id s3 end h3 in
      (e4, ground arith, ground arith, ground arith)

  -- A success of `commit_successful_result` means that the attempt is a succeeded one of the
  -- result's task, that its row and its task were there, and that exactly the whole result was
  -- written: the message, every artifact, the settled attempt and the succeeded task.
  pub commit_successful_result-eq-ok :
      (attempt : TaskAttempt) (result : AgentTaskResult) (db db' : Database)
      → commit_successful_result engine attempt result db ≡ (ok tt, db')
      → (attempt.task_id ≡ result.task_id)
        × (attempt.status ≡ TaskStatus.succeeded)
        × (0 < count_where (is_run attempt) db.tables.team_task_runs)
        × (0 < count_where (λ r. r.id == attempt.task_id) db.tables.team_tasks)
        × (db'.tables ≡ with_result attempt result db.tables)
  unfolding commit_successful_result
  commit_successful_result-eq-ok attempt result db db' h =
      elim (Bool-cases (mismatched attempt result)) [
        | inl bad ↦ absurd (cc (bad))
        | inr good ↦
            let (start, end, began, ended) =
              transaction-eq-ok engine (write_result engine attempt result) db (rw good at h) in
            elim ended [
              | inl (p, same) ↦
                  let (_, c, d, t) = write_result-eq-ok attempt result start end p in
                  (ground arith, ground arith, ground arith, ground arith, ground arith)
              | inr (p, _) ↦ absurd (cc (write_result-eq-ok attempt result start end p).0)
            ]
      ]
