-- ===== src/Storage/Recovery.antt =====
-- crates/agentmosaic-storage/src/board.rs: `recover_interrupted_attempt`.
use research_agent_system.Common.{
  ℕ, Bool, ◌&&◌, ◌||◌, Option, none, some, if◌then◌else◌, ◌==◌, nat_eq, string_eq, update_where,
  count_where, ok, Exec, ◌>>=◌, ◌>>◌, pure,
}
use research_agent_system.Board.TaskStatus.{TaskStatus}
use research_agent_system.Board.Data.{TaskAttempt, BoardError}
use research_agent_system.Board.Trait.{last_with, close_interrupted, interrupted_text}
use research_agent_system.Storage.Database.{
  transaction_as, RunRow, BindingRow, Engine, Database, Statement, execute, Ending, committed,
  dropped, transaction,
}
use research_agent_system.Storage.Writes.{update_task}
use research_agent_system.Storage.Reads.{attempts}

-- UPDATE team_task_runs SET status = 'failed', .. AND status = 'running'
abbrev pub is_running : ℕ → TaskAttempt → RunRow → Bool
is_running task a r = r.task_id == task && r.attempt == a.attempt && r.status == "running"

unfoldable pub close_run : ℕ → TaskAttempt → Statement ℕ
close_run task a t = ok (
  count_where (is_running task a) t.team_task_runs,
  record t {
    team_task_runs =
        update_where (is_running task a)
          (λ r. record r { status = "failed"; result = none; error = some interrupted_text })
          t.team_task_runs;
  },
)

-- UPDATE external_runtime_bindings SET lifecycle_state = 'interrupted'
abbrev pub is_live : ℕ → TaskAttempt → BindingRow → Bool
is_live task a r =
    r.team_task_id == task
    && r.attempt == a.attempt
    && (r.lifecycle_state == "starting" || r.lifecycle_state == "running")

unfoldable pub interrupt_bindings : ℕ → TaskAttempt → Statement Unit
interrupt_bindings task a t = ok (
  tt,
  record t {
    bindings =
        update_where (is_live task a) (λ r. record r { lifecycle_state = "interrupted" })
          t.bindings;
  },
)

module _ (engine : Engine) where
  -- The statements of `recover_interrupted_attempt`, between BEGIN and COMMIT.
  unfoldable pub close_attempt :
      ℕ → TaskAttempt → Exec Database BoardError (Ending (Option TaskAttempt))
  close_attempt task a = do
    changed ← execute engine (close_run task a)
    if changed == 0 then pure (dropped none) else do
      execute engine (update_task task (λ r. record r { status = "failed" }))
      execute engine (interrupt_bindings task a)
      pure (committed (some (close_interrupted a)))

  unfoldable pub recover_attempt :
      ℕ → Option TaskAttempt → Exec Database BoardError (Option TaskAttempt)
  unfolding close_attempt transaction_as
  recover_attempt task none = pure none
  recover_attempt task (some a) = transaction engine (close_attempt task a)

  unfoldable pub recover_interrupted_attempt : ℕ → Exec Database BoardError (Option TaskAttempt)
  recover_interrupted_attempt task = do
    rows ← attempts engine task
    recover_attempt task (last_with TaskStatus.running rows)
