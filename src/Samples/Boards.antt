-- ===== src/Samples/Boards.antt =====
-- The theorems on the SQLite board, at a board with a root, a subtask and a running attempt.
use research_agent_system.Common.{
  some, none, ◌<◌, ◌≡◌, refl, List, [], ◌∷◌, ok, err, map, sort_by, leb, any, count_where, nat_eq,
  ◌==◌, true,
}
use research_agent_system.Board.TaskStatus
use research_agent_system.Board.TaskStatus.{TaskStatus}
use research_agent_system.Board.Data.{storage, unknown_task, SelectedArtifactRef}
use research_agent_system.Storage.Database.{Database}
use research_agent_system.Storage.Rows.{by_artifact, collect_rows, row_to_attempt}
use research_agent_system.Storage.Writes.{is_run}
use research_agent_system.Storage.Results.{commit_successful_result}
use research_agent_system.Storage.Reads.{query}
use research_agent_system.Storage.Refs.{
  record_final_refs, final_refs, delete_task_refs, delete_artifact_refs, insert_task_ref,
  insert_artifact_ref,
}
use research_agent_system.Storage.Recovery.{
  recover_interrupted_attempt, recover_attempt, close_attempt, close_run, interrupt_bindings,
}
use research_agent_system.Storage.Recovered.{
  with_closed, IsRecovered, recover_interrupted_attempt-IsRecovered,
}
use research_agent_system.Storage.Reads
use research_agent_system.Storage.Database.{execute}
use research_agent_system.Storage.Writes.{update_task}
use research_agent_system.Board.Trait.{close_interrupted, last_with}
use research_agent_system.Board.Data.{TaskAttempt}
use research_agent_system.Storage.Atomic.{
  commit_successful_result-err, record_final_refs-err, recover_interrupted_attempt-err,
}
use research_agent_system.Storage.Commit.{with_result, commit_successful_result-eq-ok}
use research_agent_system.Storage.Selection.{with_selection, artifact_ref, record_final_refs-eq-ok}
use research_agent_system.Storage.Selected.{selected_of, record_final_refs-final_refs}
use research_agent_system.Samples.Fixture.{
  quiet, failing, busy, child_attempt, child_result, report,
}

-- the board after the child's result was committed
abbrev committed_board : Database
committed_board = record {
  tables = with_result child_attempt child_result busy.tables;
  executed = 5;
}

commits : commit_successful_result quiet child_attempt child_result busy ≡ (ok tt, committed_board)
unfolding commit_successful_result
commits = refl

commit_successful_result-eq-ok_example :
    (child_attempt.task_id ≡ child_result.task_id)
    × (child_attempt.status ≡ TaskStatus.succeeded)
    × (0 < count_where (is_run child_attempt) busy.tables.team_task_runs)
    × (0 < count_where (λ r. r.id == child_attempt.task_id) busy.tables.team_tasks)
    × (committed_board.tables ≡ with_result child_attempt child_result busy.tables)
commit_successful_result-eq-ok_example =
    commit_successful_result-eq-ok quiet child_attempt child_result busy committed_board commits

commit_fails :
    (commit_successful_result failing child_attempt child_result busy).0 ≡ err (storage "disk full")
unfolding commit_successful_result
commit_fails = refl

commit_successful_result-err_example :
    (commit_successful_result failing child_attempt child_result busy).1.tables ≡ busy.tables
commit_successful_result-err_example =
    commit_successful_result-err failing child_attempt child_result busy (storage "disk full")
      commit_fails

abbrev choice : List SelectedArtifactRef
choice = (record { task_id = 2; artifact = report }) ∷ []

abbrev chosen_board : Database
chosen_board = record { tables = with_selection 1 (2 ∷ []) choice busy.tables; executed = 7 }

chooses : record_final_refs quiet 1 (2 ∷ []) choice busy ≡ (ok tt, chosen_board)
unfolding record_final_refs query delete_task_refs delete_artifact_refs insert_task_ref
    insert_artifact_ref
chooses = refl

record_final_refs-eq-ok_example :
    (any (λ r. r.id == 1) busy.tables.team_tasks ≡ true)
    × (chosen_board.tables ≡ with_selection 1 (2 ∷ []) choice busy.tables)
record_final_refs-eq-ok_example =
    record_final_refs-eq-ok quiet 1 (2 ∷ []) choice busy chosen_board chooses

record_final_refs-final_refs_example :
    (final_refs quiet 1 chosen_board).0
    ≡ ok (sort_by leb (2 ∷ []), map selected_of (sort_by by_artifact (map (artifact_ref 1) choice)))
record_final_refs-final_refs_example =
    record_final_refs-final_refs quiet 1 (2 ∷ []) choice busy chosen_board chooses refl refl

-- there is no task 9
refused : (record_final_refs quiet 9 (2 ∷ []) choice busy).0 ≡ err (unknown_task 9)
unfolding record_final_refs query
refused = refl

record_final_refs-err_example :
    (record_final_refs quiet 9 (2 ∷ []) choice busy).1.tables ≡ busy.tables
record_final_refs-err_example =
    record_final_refs-err quiet 9 (2 ∷ []) choice busy (unknown_task 9) refused

recovery_fails : (recover_interrupted_attempt failing 2 busy).0 ≡ err (storage "disk full")
unfolding recover_interrupted_attempt Reads.attempts recover_attempt close_attempt collect_rows
    row_to_attempt TaskStatus.restore query execute
recovery_fails = refl

recover_interrupted_attempt-err_example :
    (recover_interrupted_attempt failing 2 busy).1.tables ≡ busy.tables
recover_interrupted_attempt-err_example =
    recover_interrupted_attempt-err failing 2 busy (storage "disk full") recovery_fails

-- the board after the child's attempt was recovered
abbrev recovered_board : Database
recovered_board = record {
  tables =
      with_closed 2 (record child_attempt { status = TaskStatus.running; result = none })
        busy.tables;
  executed = 6;
}

recovers : recover_interrupted_attempt quiet 2 busy ≡ (
  ok (
      some
        (close_interrupted (record child_attempt { status = TaskStatus.running; result = none }))),
  recovered_board,
)
unfolding recover_interrupted_attempt Reads.attempts recover_attempt close_attempt close_run
    interrupt_bindings collect_rows row_to_attempt TaskStatus.restore query execute update_task
recovers = refl

recover_interrupted_attempt-IsRecovered_example :
    (rows : List TaskAttempt) × ((Reads.attempts quiet 2 busy).0 ≡ ok rows)
    × IsRecovered 2 (last_with TaskStatus.running rows) busy.tables recovered_board.tables (
        some
          (close_interrupted (record child_attempt { status = TaskStatus.running; result = none })))
recover_interrupted_attempt-IsRecovered_example =
    recover_interrupted_attempt-IsRecovered quiet 2 busy recovered_board _ recovers
