-- ===== src/Storage/Atomic.antt =====
-- The methods of the SQLite board that run in a transaction: all of their writes, or none.
use research_agent_system.Common.{
  ℕ, ◌≡◌, Option, none, some, List, arith, err, bind-eq-err, inl, inr, ap, ◌∙◌, sym, subst,
}
use research_agent_system.Board.Data.{BoardError, TaskAttempt, AgentTaskResult, SelectedArtifactRef}
use research_agent_system.Board.TaskStatus.{TaskStatus}
use research_agent_system.Board.Trait.{last_with}
use research_agent_system.Storage.Database.{Engine, Database, transaction-err}
use research_agent_system.Storage.Results.{commit_successful_result, write_result}
use research_agent_system.Storage.Recovery.{
  recover_interrupted_attempt, recover_attempt, close_attempt,
}
use research_agent_system.Storage.Reads.{attempts, attempts_tables}
use research_agent_system.Storage.Refs.{record_final_refs, write_refs}

module _ (engine : Engine) where
  -- If committing a worker's result fails, for whatever reason and at whatever statement, every
  -- table is as it was.
  pub commit_successful_result-err :
      (attempt : TaskAttempt) (result : AgentTaskResult) (db : Database) (e : BoardError)
      → (commit_successful_result engine attempt result db).0 ≡ err e
      → (commit_successful_result engine attempt result db).1.tables ≡ db.tables
  unfolding commit_successful_result
  commit_successful_result-err attempt result db e h =
      ground (arith, transaction-err engine (write_result engine attempt result) db e)

  -- If recording the final selection of a run fails, every table is as it was: the selection that
  -- stood there before is still there.
  pub record_final_refs-err :
      (root : ℕ) (tasks : List ℕ) (selected : List SelectedArtifactRef) (db : Database)
      (e : BoardError)
      → (record_final_refs engine root tasks selected db).0 ≡ err e
      → (record_final_refs engine root tasks selected db).1.tables ≡ db.tables
  unfolding record_final_refs
  record_final_refs-err root tasks selected db e h =
      transaction-err engine (write_refs engine root tasks selected) db e h

  recover_attempt-err :
      (task : ℕ) (found : Option TaskAttempt) (db : Database) (e : BoardError)
      → (recover_attempt engine task found db).0 ≡ err e
      → (recover_attempt engine task found db).1.tables ≡ db.tables
  unfolding recover_attempt
  recover_attempt-err task none db e h = cc
  recover_attempt-err task (some a) db e h =
      transaction-err engine (close_attempt engine task a) db e h

  -- If closing an interrupted attempt fails, every table is as it was.
  pub recover_interrupted_attempt-err :
      (task : ℕ) (db : Database) (e : BoardError)
      → (recover_interrupted_attempt engine task db).0 ≡ err e
      → (recover_interrupted_attempt engine task db).1.tables ≡ db.tables
  unfolding recover_interrupted_attempt
  recover_interrupted_attempt-err task db e h = elim (bind-eq-err (attempts engine task) _ db e h) [
    | inl (_, same) ↦ ap (λ d. d.tables) same ∙ attempts_tables engine task db
    | inr (rows, u, p, q) ↦
        ap (λ r. r.1.tables) q
        ∙ recover_attempt-err task (last_with TaskStatus.running rows) u e
            (subst (λ r. r.0 ≡ err e) q h)
        ∙ ap (λ r. r.1.tables) (sym p)
        ∙ attempts_tables engine task db
  ]
