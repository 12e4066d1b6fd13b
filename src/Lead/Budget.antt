-- ===== src/Lead/Budget.antt =====
-- The Lead's budget of tasks: `max_tasks` holds in every state of a run.
use research_agent_system.Common.{
  ℕ, suc, ◌≤◌, ◌≡◌, refl, ap, List, [], ◌∷◌, length, arith, Result, ok, err, bind-eq-ok, pure-eq-ok,
  nat_eq,
}
use research_agent_system.Board.Trait.{TaskBoard}
use research_agent_system.Scheduler.Run.{Observed, ScheduleError, on_board}
use research_agent_system.Scheduler.Schedule.{
  TaskSpec, ScheduledResult, Scheduler, Outcome, schedule, create_all, report_all, run_existing,
  build_jobs, gather, run_jobs, collect_results,
}

collect_results-length :
    (ids : List ℕ) (outcomes : List Outcome) (results : List ScheduledResult)
    → collect_results ids outcomes ≡ ok results
    → length results ≤ length ids
unfolding collect_results
collect_results-length [] outcomes results h = ground arith
collect_results-length (id ∷ ids) [] results h = ground arith
collect_results-length (id ∷ ids) (err e ∷ outcomes) results h = absurd (ground arith)
collect_results-length (id ∷ ids) (ok o ∷ outcomes) results h =
    go (collect_results ids outcomes) (collect_results-length ids outcomes) h
  where
    go :
        (r : Result ScheduleError (List ScheduledResult))
        → ((later : List ScheduledResult) → r ≡ ok later → length later ≤ length ids)
        → elim r [
          | ok rest ↦ ok ((record { task_id = id; result = o.1; attempts = o.0 }) ∷ rest)
          | err e ↦ err e
        ]
          ≡ ok results
        → length results ≤ suc (length ids)
    go (ok rest) f h = ground (arith, f rest refl)
    go (err e) f h = absurd (ground arith)

module _ {B : Type 0} (board : TaskBoard B) (scheduler : Scheduler B) where
  create_all-length :
      (specs : List TaskSpec) (s s' : Observed B) (ids : List ℕ)
      → create_all board scheduler specs s ≡ (ok ids, s')
      → length ids ≡ length specs
  unfolding create_all
  create_all-length [] s s' ids h = ap (λ l. length {A = ℕ} l) (pure-eq-ok h).0
  create_all-length (spec ∷ specs) s s' ids h =
      let (id, u, h1, h2) =
        bind-eq-ok (on_board (board.create_task spec.objective spec.parent spec.kind spec.target)) _
          h in
      let (rest, v, h3, h4) = bind-eq-ok (create_all board scheduler specs) _ h2 in
      let same = (pure-eq-ok h4).0 in ground (arith, same, create_all-length specs u v rest h3)

  run_existing-length :
      (ids : List ℕ) (specs : List TaskSpec) (s s' : Observed B) (results : List ScheduledResult)
      → run_existing board scheduler ids specs s ≡ (ok results, s')
      → length results ≤ length ids
  unfolding run_existing gather
  run_existing-length ids specs s s' results h =
      let (jobs, u, h1, h2) = bind-eq-ok (build_jobs board scheduler ids specs) _ h in
      collect_results-length ids (run_jobs board scheduler jobs u).0 results (ap (λ r. r.0) h2)

  -- A batch has at most one result for each task that was asked for.
  pub schedule-length :
      (specs : List TaskSpec) (s s' : Observed B) (results : List ScheduledResult)
      → schedule board scheduler specs s ≡ (ok results, s')
      → length results ≤ length specs
  unfolding schedule
  schedule-length specs s s' results h =
      let (ids, u, h1, h2) = bind-eq-ok (create_all board scheduler specs) _ h in
      let (_, v, h3, h4) = bind-eq-ok (report_all board scheduler ids specs) _ h2 in
      omega
        (arith, create_all-length specs s u ids h1, run_existing-length ids specs v s' results h4)
