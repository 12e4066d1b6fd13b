-- ===== src/Storage/Rows.antt =====
-- `row_to_task`, `row_to_attempt` and the ORDER BY clauses of
-- crates/agentmosaic-storage/src/board.rs.
use Prim.Native.String.{compare}
use research_agent_system.Common.{
  String, Bool, true, false, List, [], ◌∷◌, Ordering, leb, ltb, if◌then◌else◌, ◌==◌, nat_eq,
  string_eq, Result, ok, ok_or,
}
use research_agent_system.Common.Fallible.{◌>>=◌}
use research_agent_system.Registry.TaskKind
use research_agent_system.Registry.TaskKind.{TaskKind}
use research_agent_system.Board.TaskStatus
use research_agent_system.Board.TaskStatus.{TaskStatus}
use research_agent_system.Board.Data.{TaskRecord, TaskAttempt}
use research_agent_system.Storage.Database.{TaskRow, RunRow, ArtifactRefRow}

-- `unreadable` is the text of `rusqlite::Error::InvalidQuery`.
unfoldable pub row_to_task : String → TaskRow → Result String TaskRecord
row_to_task unreadable r = do
  kind ← ok_or (TaskKind.restore r.kind) unreadable
  status ← ok_or (TaskStatus.restore r.status) unreadable
  ok (record {
    id = r.id;
    objective = r.objective;
    parent_task = r.parent_task;
    kind = kind;
    target = r.target;
    assignee = r.assignee;
    status = status;
  })

unfoldable pub row_to_attempt : String → RunRow → Result String TaskAttempt
row_to_attempt unreadable r = do
  status ← ok_or (TaskStatus.restore r.status) unreadable
  ok (record {
    task_id = r.task_id;
    attempt = r.attempt;
    agent_id = r.agent_id;
    status = status;
    result = r.result;
    error = r.error;
  })

-- `rows.map(..).collect::<Result<Vec<_>, _>>()`
unfoldable pub collect_rows {ℓ κ μ} :
    {E : Type ℓ} {R : Type κ} {A : Type μ} → (R → Result E A) → List R → Result E (List A)
collect_rows f [] = ok []
collect_rows f (r ∷ rs) = do a ← f r; rest ← collect_rows f rs; ok (a ∷ rest)

-- ORDER BY attempt, selected_task_id, and (task_id, path, sha256)
abbrev pub by_attempt : RunRow → RunRow → Bool
by_attempt a b = leb a.attempt b.attempt

abbrev pub text_le : String → String → Bool
text_le a b = elim (compare a b) [ Ordering.gt ↦ false | _ ↦ true ]

abbrev pub by_artifact : ArtifactRefRow → ArtifactRefRow → Bool
by_artifact a b =
    if a.task_id == b.task_id
    then (if a.path == b.path then text_le a.sha256 b.sha256 else text_le a.path b.path)
    else ltb a.task_id b.task_id
