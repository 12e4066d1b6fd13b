-- ===== src/Scheduler/Promise.antt =====
-- What `run_one` of the scheduler promises of the attempts and events of a task.
use research_agent_system.Common.{
  ◌*◌, ◌≤◌, String, ◌≡◌, refl, ap, ◌∙◌, sym, subst, Option, none, some, List, [], ◌∷◌, ◌++◌, length,
  append-nil, append_assoc, arith, Result, ok, err, All, bind-eq-ok, pure-eq-ok, string_eq,
}
use research_agent_system.Board.TaskStatus.{TaskStatus}
use research_agent_system.Board.Data.{TaskAttempt, AgentTask, AgentTaskResult}
use research_agent_system.Board.Trait.{TaskBoard}
use research_agent_system.Events.RunEvent.{RunEvent, task_failed}
use research_agent_system.Events.Text.{bounded_event_text}
use research_agent_system.Scheduler.Run.{
  u32, Observed, Team, Progress, walk, conclude, start, run_one, last_error, on_board, emit,
}
use research_agent_system.Scheduler.History.{History}
use research_agent_system.Scheduler.Attempts.{on_board-eq-ok, emit_events, emit_store}
use research_agent_system.Scheduler.Extends.{Extends, Kept}
use research_agent_system.Scheduler.Shares.{attempts_by, times_in, walk-shares}
use research_agent_system.Scheduler.Walk.{Extends-from, walk-Extends}

module _ {B : Type 0} (board : TaskBoard B) (team : Team B) (task : AgentTask)
    (Allowed : String → Type 0) where
  -- How `run_one` ends, by the last attempt's result.
  pub data Concluded (attempts : List TaskAttempt) (told : List RunEvent) (s' : Observed B)
      : Option AgentTaskResult → Result String AgentTaskResult → List RunEvent → Type 0 where
    succeeded :
        (r : AgentTaskResult)
        → Kept board team task Allowed attempts r s'.store
        → Concluded attempts told s' (some r) (ok r) told
    failed :
        (b : B)
        → board.set_status task.id TaskStatus.failed b ≡ (ok tt, s'.store)
        → Concluded attempts told s' none
            (err (last_error attempts))
            (told ++ task_failed task.id (bounded_event_text (last_error attempts)) ∷ [])

  pub record Finished (candidates : List String) (s s' : Observed B) (attempts : List TaskAttempt)
      (result : Result String AgentTaskResult) : Type 0 where
    pub prior : List TaskAttempt
    pub read : (board.attempts task.id s.store).0 ≡ ok prior
    pub last : Option AgentTaskResult
    pub told : List RunEvent
    pub history : History task.id Allowed (u32 (length prior)) attempts last told
    pub bounded : length attempts ≤ length candidates * team.max_retries
    pub shared : (id : String) → attempts_by id attempts ≤ times_in id candidates * team.max_retries
    pub reported : List RunEvent
    pub concluded : Concluded attempts told s' last result reported
    pub events_eq : s'.events ≡ s.events ++ reported

  finish :
      (candidates : List String) (prior : List TaskAttempt) (p : Progress) (s u s' : Observed B)
      (last : Option AgentTaskResult) (result : Result String AgentTaskResult)
      (after : List RunEvent)
      → (board.attempts task.id s.store).0 ≡ ok prior
      → p.last_result ≡ last
      → (x : Extends board team task Allowed
          (length candidates * team.max_retries)
          (start board team task prior)
          s
          p
          u)
      → ((id : String) → attempts_by id p.attempts ≤ times_in id candidates * team.max_retries)
      → s'.events ≡ u.events ++ after
      → Concluded p.attempts x.told s' last result (x.told ++ after)
      → Finished candidates s s' p.attempts result
  finish candidates prior p s u s' last result after read e x shares told ends = record {
    prior = prior;
    read = read;
    last = last;
    told = x.told;
    history =
        subst (λ l. History task.id Allowed (u32 (length prior)) l last x.told) (sym x.attempts_eq)
          (subst (λ o. History task.id Allowed (u32 (length prior)) x.new o x.told) e x.history);
    bounded = omega (arith, x.bounded, ap (λ l. length {A = TaskAttempt} l) x.attempts_eq);
    shared = shares;
    reported = x.told ++ after;
    concluded = ends;
    events_eq = cc (told, x.events_eq, append_assoc s.events x.told after);
  }

  conclude-Finished :
      (candidates : List String) (prior : List TaskAttempt) (p : Progress) (s u s' : Observed B)
      (last : Option AgentTaskResult) (attempts : List TaskAttempt)
      (result : Result String AgentTaskResult)
      → (board.attempts task.id s.store).0 ≡ ok prior
      → p.last_result ≡ last
      → Extends board team task Allowed
          (length candidates * team.max_retries)
          (start board team task prior)
          s
          p
          u
      → ((id : String) → attempts_by id p.attempts ≤ times_in id candidates * team.max_retries)
      → conclude board team task p last u ≡ (ok (attempts, result), s')
      → Finished candidates s s' attempts result
  unfolding conclude
  conclude-Finished candidates prior p s u s' (some r) attempts result read e x shares h =
      let (same, ends) = pure-eq-ok h in
      subst (λ o. Finished candidates s s' o.0 o.1) (sym same)
        (finish candidates prior p s u s' (some r) (ok r) [] read e x shares
          (ap (λ o. o.events) ends ∙ sym (append-nil u.events))
          (subst (Concluded p.attempts x.told s' (some r) (ok r)) (sym (append-nil x.told)) (
            succeeded r (
              subst (Kept board team task Allowed p.attempts r) (sym (ap (λ o. o.store) ends))
                (x.kept r e)))))
  conclude-Finished candidates prior p s u s' none attempts result read e x shares h =
      let (_, v, h1, h2) = bind-eq-ok (on_board (board.set_status task.id TaskStatus.failed)) _ h in
      let (_, w, h3, h4) =
        bind-eq-ok (emit (task_failed task.id (bounded_event_text (last_error p.attempts)))) _ h2 in
      let (same, ends) = pure-eq-ok h4 in
      let (put, quiet) = on_board-eq-ok (board.set_status task.id TaskStatus.failed) u v h1 in
      subst (λ o. Finished candidates s s' o.0 o.1) (sym same)
        (finish candidates prior p s u s' none (err (last_error p.attempts)) _ read e x shares
          (ap (λ o. o.events) ends
            ∙ emit_events _ v w h3
            ∙ ap (λ l. l ++ task_failed task.id (bounded_event_text (last_error p.attempts)) ∷ [])
                quiet)
          (failed u.store
            (put ∙ ap (λ b. (ok tt, b)) (sym (ap (λ o. o.store) ends ∙ emit_store _ v w h3)))))

  -- Whatever the board and the drivers do, and the other tasks while it waits, a `run_one` that
  -- returns has made
  -- attempts only by its candidates, `max_retries` at most for each time that an agent is among
  -- them, under numbers that go on from those on the board; each was reported with its start and its end, in order. It ends with a
  -- result exactly if the last attempt succeeded, and then the board took that attempt together
  -- with this result and was not touched since. Else the board was last told that the task failed,
  -- and the error of the last attempt is reported and returned.
  pub run_one-Finished :
      (candidates : List String) (s s' : Observed B) (attempts : List TaskAttempt)
      (result : Result String AgentTaskResult)
      → All Allowed candidates
      → run_one board team task candidates s ≡ (ok (attempts, result), s')
      → Finished candidates s s' attempts result
  unfolding run_one
  run_one-Finished candidates s s' attempts result allowed h =
      let (prior, u, h1, h2) = bind-eq-ok (on_board (board.attempts task.id)) _ h in
      let (p, v, h3, h4) =
        bind-eq-ok (walk board team task candidates (start board team task prior)) _ h2 in
      let (put, quiet) = on_board-eq-ok (board.attempts task.id) s u h1 in
      conclude-Finished candidates prior p s v s' p.last_result attempts result (ap (λ o. o.0) put)
        refl
        (Extends-from board team task Allowed quiet (
          walk-Extends board team task Allowed candidates (start board team task prior) p u v
            allowed refl h3))
        (λ id.
          omega (
            arith,
            walk-shares board team task id candidates (start board team task prior) p u v h3,
          ))
        h4
