-- ===== src/Storage/Recovered.antt =====
-- What `recover_interrupted_attempt` of the SQLite board has done when it succeeds.
use research_agent_system.Common.{
  ℕ, ◌≡◌, ◌<◌, ap, ◌∙◌, sym, subst, ◌⊎◌, inl, inr, Option, none, some, List, arith, ok, Bool-cases,
  bind-eq-ok, pure-eq-ok, ◌==◌, nat_eq, update_where, count_where,
}
use research_agent_system.Board.Data.{TaskAttempt}
use research_agent_system.Board.TaskStatus.{TaskStatus}
use research_agent_system.Board.Trait.{interrupted_text, close_interrupted, last_with}
use research_agent_system.Storage.Database.{
  Tables, Engine, Database, execute, execute-eq-ok, Ending, committed, dropped, transaction-eq-ok,
}
use research_agent_system.Storage.Writes.{update_task}
use research_agent_system.Storage.Reads.{attempts, attempts_tables}
use research_agent_system.Storage.Recovery.{
  is_running, close_run, is_live, interrupt_bindings, close_attempt, recover_attempt,
  recover_interrupted_attempt,
}

-- The tables with the attempt closed: its running row and its task failed, its live bindings
-- interrupted.
abbrev pub with_closed : ℕ → TaskAttempt → Tables → Tables
with_closed task a t = record t {
  team_task_runs =
      update_where (is_running task a)
        (λ r. record r { status = "failed"; result = none; error = some interrupted_text })
        t.team_task_runs;
  team_tasks = update_where (λ r. r.id == task) (λ r. record r { status = "failed" }) t.team_tasks;
  bindings =
      update_where (is_live task a) (λ r. record r { lifecycle_state = "interrupted" }) t.bindings;
}

-- What recovery does to the tables, for the last running attempt that was read.
abbrev pub IsRecovered : ℕ → Option TaskAttempt → Tables → Tables → Option TaskAttempt → Type 0
IsRecovered task none t t' out = (out ≡ none) × (t' ≡ t)
IsRecovered task (some a) t t' out =
    ((out ≡ some (close_interrupted a))
      × (0 < count_where (is_running task a) t.team_task_runs)
      × (t' ≡ with_closed task a t))
    ⊎ ((out ≡ none) × (count_where (is_running task a) t.team_task_runs ≡ 0) × (t' ≡ t))

module _ (engine : Engine) (task : ℕ) where
  closed_run :
      (a : TaskAttempt) (db db' : Database) {n : ℕ}
      → execute engine (close_run task a) db ≡ (ok n, db')
      → (n ≡ count_where (is_running task a) db.tables.team_task_runs)
        × (db'.tables ≡ record (db.tables) {
          team_task_runs =
              update_where
                (is_running task a)
                (λ r. record r { status = "failed"; result = none; error = some interrupted_text })
                db.tables.team_task_runs;
        })
  unfolding close_run
  closed_run a db db' h =
      let e = execute-eq-ok engine (close_run task a) db h in (ground (arith, e), ground (arith, e))

  failed_task :
      (db db' : Database) {n : ℕ}
      → execute engine (update_task task (λ r. record r { status = "failed" })) db ≡ (ok n, db')
      → db'.tables ≡ record (db.tables) {
        team_tasks =
            update_where
              (λ r. r.id == task)
              (λ r. record r { status = "failed" })
              db.tables.team_tasks;
      }
  unfolding update_task
  failed_task db db' h = ground (arith, execute-eq-ok engine (update_task task _) db h)

  interrupted :
      (a : TaskAttempt) (db db' : Database)
      → execute engine (interrupt_bindings task a) db ≡ (ok tt, db')
      → db'.tables ≡ record (db.tables) {
        bindings =
            update_where
              (is_live task a)
              (λ r. record r { lifecycle_state = "interrupted" })
              db.tables.bindings;
      }
  unfolding interrupt_bindings
  interrupted a db db' h = ground (arith, execute-eq-ok engine (interrupt_bindings task a) db h)

  close_attempt-eq-ok :
      (a : TaskAttempt) (db end : Database) {v : Ending (Option TaskAttempt)}
      → close_attempt engine task a db ≡ (ok v, end)
      → ((v ≡ committed (some (close_interrupted a)))
          × (0 < count_where (is_running task a) db.tables.team_task_runs)
          × (end.tables ≡ with_closed task a db.tables))
        ⊎ ((v ≡ dropped none) × (count_where (is_running task a) db.tables.team_task_runs ≡ 0))
  unfolding close_attempt
  close_attempt-eq-ok a db end {v} h =
      let (n, u, h1, h2) = bind-eq-ok (execute engine (close_run task a)) _ h in
      let (count, t1) = closed_run a db u h1 in
      elim (Bool-cases (n == 0)) [
        | inl zero ↦ inr ((pure-eq-ok (rw zero at h2)).0, ground (arith, zero, count))
        | inr more ↦
            let (_, w, h3, h4) =
              bind-eq-ok (execute engine (update_task task _)) _ (rw more at h2) in
            let (_, x, h5, h6) = bind-eq-ok (execute engine (interrupt_bindings task a)) _ h4 in
            let (e, d) = pure-eq-ok h6 in
            inl (
              e,
              ground (arith, more, count),
              ap (λ o. o.tables) d
                  ∙ interrupted a w x h5
                  ∙ ap {A = Tables} {B = Tables}
                      (λ t. record t {
                        bindings =
                            update_where (is_live task a)
                              (λ r. record r { lifecycle_state = "interrupted" }) t.bindings;
                      })
                      (failed_task u w h3
                        ∙ ap {A = Tables} {B = Tables}
                            (λ t. record t {
                              team_tasks =
                                  update_where (λ r. r.id == task)
                                    (λ r. record r { status = "failed" }) t.team_tasks;
                            })
                            t1),
            )
      ]

  recover_attempt-IsRecovered :
      (found : Option TaskAttempt) (db db' : Database) (out : Option TaskAttempt)
      → recover_attempt engine task found db ≡ (ok out, db')
      → IsRecovered task found db.tables db'.tables out
  unfolding recover_attempt
  recover_attempt-IsRecovered none db db' out h =
      let (e, d) = pure-eq-ok h in (e, ap (λ o. o.tables) d)
  recover_attempt-IsRecovered (some a) db db' out h =
      let (start, end, began, ended) =
        transaction-eq-ok engine (close_attempt engine task a) db h in
      elim ended [
        | inl (p, same) ↦ elim (close_attempt-eq-ok a start end p) [
          | inl (e, n, t) ↦ inl (ground arith, ground arith, ground arith)
          | inr (e, _) ↦ absurd (cc (e))
        ]
        | inr (p, same) ↦ elim (close_attempt-eq-ok a start end p) [
          | inl (e, _, _) ↦ absurd (cc (e))
          | inr (e, n) ↦ inr (ground arith, ground arith, same)
        ]
      ]

  -- A recovery that succeeds has read the attempts of the task. Without a running attempt among
  -- them it returns nothing and changes nothing. Else it takes the last one: if a row of it is
  -- still running then that row and the task are failed, its live bindings are interrupted and the
  -- closed attempt is returned; if not then nothing is changed and nothing returned.
  pub recover_interrupted_attempt-IsRecovered :
      (db db' : Database) (out : Option TaskAttempt)
      → recover_interrupted_attempt engine task db ≡ (ok out, db')
      → (rows : List TaskAttempt) × ((attempts engine task db).0 ≡ ok rows)
        × IsRecovered task (last_with TaskStatus.running rows) db.tables db'.tables out
  unfolding recover_interrupted_attempt
  recover_interrupted_attempt-IsRecovered db db' out h =
      let (rows, u, h1, h2) =
        bind-eq-ok (attempts engine task)
          (λ rows. recover_attempt engine task (last_with TaskStatus.running rows)) h in
      let same : u.tables ≡ db.tables =
        ap (λ o. o.1.tables) (sym h1) ∙ attempts_tables engine task db in
      (
        rows,
        ap (λ o. o.0) h1,
        subst (λ t. IsRecovered task (last_with TaskStatus.running rows) t db'.tables out) same
            (recover_attempt-IsRecovered (last_with TaskStatus.running rows) u db' out h2),
      )
