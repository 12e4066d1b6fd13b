-- ===== src/Scheduler/Attempts.antt =====
-- One attempt of `run_one`, over any board, any drivers and anything that other tasks do to the
-- board meanwhile.
use research_agent_system.Common.{
  pure-eq-ok, ◌+◌, String, ◌≡◌, ap, ◌∙◌, sym, subst, List, [], ◌∷◌, ◌++◌, append-nil, append_assoc,
  arith, Result, ok, err, Exec, bind-eq-ok, for_each,
}
use research_agent_system.Board.TaskStatus.{TaskStatus}
use research_agent_system.Board.Data.{TaskAttempt, AgentTask, AgentTaskResult, BoardError}
use research_agent_system.Board.Trait.{TaskBoard}
use research_agent_system.Events.RunEvent.{RunEvent, attempt_started}
use research_agent_system.Scheduler.Run.{
  u32, terminal_attempt, terminal_events, running_attempt, Driver, Observed, Team, Progress,
  on_board, emit, wait, call, with_messages, settle_attempt, attempt_once, ok_result,
}

module _ {B : Type 0} where
  emit_all :
      (events : List RunEvent) (s s' : Observed B)
      → for_each emit events s ≡ (ok tt, s')
      → s' ≡ record s { events = s.events ++ events }
  unfolding emit
  emit_all [] s s' h = ground (arith, append-nil s.events)
  emit_all (e ∷ events) s s' h = ground (
    arith,
    emit_all events (record s { events = s.events ++ e ∷ [] }) s',
    append_assoc s.events (e ∷ []) events,
  )

  pub on_board-eq-ok :
      {A : Type 0} (m : Exec B BoardError A) (s s' : Observed B) {a : A}
      → on_board m s ≡ (ok a, s')
      → (m s.store ≡ (ok a, s'.store)) × (s'.events ≡ s.events)
  unfolding on_board
  on_board-eq-ok m s s' h = (ground arith, ground arith)

  call_events :
      (driver : Driver B) (t : AgentTask) (s s' : Observed B) {o : Result String AgentTaskResult}
      → call driver t s ≡ (ok o, s')
      → s'.events ≡ s.events
  unfolding call
  call_events driver t s s' h = ground arith

  pub emit_events :
      (e : RunEvent) (s s' : Observed B) → emit e s ≡ (ok tt, s') → s'.events ≡ s.events ++ e ∷ []
  unfolding emit
  emit_events e s s' h = ground arith

  pub emit_store : (e : RunEvent) (s s' : Observed B) → emit e s ≡ (ok tt, s') → s'.store ≡ s.store
  unfolding emit
  emit_store e s s' h = ground arith

  wait_events : (f : B → B) (s s' : Observed B) → wait f s ≡ (ok tt, s') → s'.events ≡ s.events
  unfolding wait
  wait_events f s s' h = ground arith

trace_step :
    (x0 x3 x4 x7 x8 t : List RunEvent) (a : RunEvent)
    → x3 ≡ x0
    → x4 ≡ x3 ++ a ∷ []
    → x7 ≡ x4
    → x8 ≡ x7 ++ t
    → x8 ≡ x0 ++ a ∷ t
trace_step x0 x3 x4 x7 x8 t a p q r u = cc (append_assoc x0 (a ∷ []) t)

module _ {B : Type 0} (board : TaskBoard B) where
  -- The board took the terminal attempt, and was not touched since.
  abbrev pub Stored : TaskAttempt → Result String AgentTaskResult → B → Type 0
  Stored a (ok r) b = (earlier : B) × (board.commit_successful_result a r earlier ≡ (ok tt, b))
  Stored a (err e) b = (earlier : B) × (board.complete_attempt a earlier ≡ (ok tt, b))

  settle-Stored :
      (a : TaskAttempt) (outcome : Result String AgentTaskResult) (b : B) {b' : B}
      → settle_attempt board a outcome b ≡ (ok tt, b')
      → Stored a outcome b'
  unfolding settle_attempt
  settle-Stored a (ok r) b h = (b, h)
  settle-Stored a (err e) b h = (b, h)

module _ {B : Type 0} (board : TaskBoard B) (team : Team B) (task : AgentTask) where
  abbrev pub next : String → Progress → Result String AgentTaskResult → TaskAttempt
  next agent p outcome = terminal_attempt task.id (u32 (p.attempt_seq + 1)) agent outcome

  pub record Attempted (agent : String) (p : Progress) (s : Observed B) (p' : Progress)
      (s' : Observed B) : Type 0 where
    pub outcome : Result String AgentTaskResult
    pub progress : p' ≡ record {
      attempts = p.attempts ++ next agent p outcome ∷ [];
      attempt_seq = u32 (p.attempt_seq + 1);
      last_result = ok_result outcome;
    }
    pub reported :
        s'.events
        ≡ s.events
          ++ attempt_started task.id (u32 (p.attempt_seq + 1)) agent
            ∷ terminal_events task.id (u32 (p.attempt_seq + 1)) agent outcome
    pub stored : Stored board (next agent p outcome) outcome s'.store

  pub attempt_once-Attempted :
      (driver : Driver B) (agent : String) (p p' : Progress) (s s' : Observed B)
      → attempt_once board team task driver agent p s ≡ (ok p', s')
      → Attempted agent p s p' s'
  unfolding attempt_once
  attempt_once-Attempted driver agent p p' s s' h =
      let (_, s1, p1, h1) = bind-eq-ok (wait (team.waiting agent)) _ h in
      let (_, s2, p2, h2) =
        bind-eq-ok
          (on_board
            (board.record_attempt (running_attempt task.id (u32 (p.attempt_seq + 1)) agent)))
          _ h1 in
      let (_, s3, p3, h3) =
        bind-eq-ok (on_board (board.set_status task.id TaskStatus.running)) _ h2 in
      let (_, s4, p4, h4) =
        bind-eq-ok (emit (attempt_started task.id (u32 (p.attempt_seq + 1)) agent)) _ h3 in
      let (messages, s5, p5, h5) = bind-eq-ok (on_board (board.messages_to agent)) _ h4 in
      let (outcome, s6, p6, h6) = bind-eq-ok (call driver (with_messages task messages)) _ h5 in
      let (_, s7, p7, h7) =
        bind-eq-ok (on_board (settle_attempt board (next agent p outcome) outcome)) _ h6 in
      let (_, s8, p8, h8) =
        bind-eq-ok (for_each emit (terminal_events task.id (u32 (p.attempt_seq + 1)) agent outcome))
          _ h7 in
      let (same, ends) = pure-eq-ok h8 in
      let told = emit_all _ s7 s8 p8 in
      let (put, e7) = on_board-eq-ok _ s6 s7 p7 in
      record {
        outcome = outcome;
        progress = same;
        reported =
            ap (λ o. o.events) ends
            ∙ trace_step s.events s3.events s4.events s7.events s8.events _ _
                ((on_board-eq-ok _ s2 s3 p3).1
                  ∙ (on_board-eq-ok _ s1 s2 p2).1
                  ∙ wait_events _ s s1 p1)
                (emit_events _ s3 s4 p4)
                (e7 ∙ call_events driver _ s5 s6 p6 ∙ (on_board-eq-ok _ s4 s5 p5).1)
                (ap (λ o. o.events) told);
        stored =
            subst (Stored board (next agent p outcome) outcome)
              (sym (ap (λ o. o.store) (ends ∙ told))) (settle-Stored board _ outcome s6.store put);
      }
