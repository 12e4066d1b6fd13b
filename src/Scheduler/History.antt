-- ===== src/Scheduler/History.antt =====
-- What a task may go through: the attempts of one `run_one`, with what is reported of them.
use research_agent_system.Common.{
  ℕ, ◌+◌, String, ◌≡◌, Option, none, some, List, [], ◌∷◌, ◌++◌, ok, err,
}
use research_agent_system.Board.Data.{TaskAttempt, AgentTaskResult}
use research_agent_system.Events.RunEvent.{RunEvent, attempt_started}
use research_agent_system.Scheduler.Run.{u32, terminal_attempt, terminal_events}

-- From attempt number `seq` on: failed attempts, each by an allowed agent and under the next
-- number, and at most one succeeded attempt, which is the last and gives the result. The events
-- are the start and the end of each attempt, in that order.
pub data History (task : ℕ) (Allowed : String → Type 0)
    : ℕ → List TaskAttempt → Option AgentTaskResult → List RunEvent → Type 0 where
  exhausted : {seq : ℕ} → History task Allowed seq [] none []
  failure :
      {seq : ℕ} {later : List TaskAttempt} {last : Option AgentTaskResult} {events : List RunEvent}
      (agent error : String)
      → Allowed agent
      → History task Allowed (u32 (seq + 1)) later last events
      → History task Allowed seq
          (terminal_attempt task (u32 (seq + 1)) agent (err error) ∷ later)
          last
          ((attempt_started task (u32 (seq + 1)) agent
              ∷ terminal_events task (u32 (seq + 1)) agent (err error))
            ++ events)
  success :
      {seq : ℕ} (agent : String) (r : AgentTaskResult)
      → Allowed agent
      → History task Allowed seq
          (terminal_attempt task (u32 (seq + 1)) agent (ok r) ∷ [])
          (some r)
          (attempt_started task (u32 (seq + 1)) agent
            ∷ terminal_events task (u32 (seq + 1)) agent (ok r))

-- The number of the last attempt.
abbrev pub advance : ℕ → List TaskAttempt → ℕ
advance seq [] = seq
advance seq (a ∷ later) = advance (u32 (seq + 1)) later

module _ {task : ℕ} {Allowed : String → Type 0} where
  pub History-append :
      {seq : ℕ} {xs ys : List TaskAttempt} {first last : Option AgentTaskResult}
      {before after : List RunEvent}
      → History task Allowed seq xs first before
      → first ≡ none
      → History task Allowed (advance seq xs) ys last after
      → History task Allowed seq (xs ++ ys) last (before ++ after)
  History-append exhausted e h = h
  History-append (failure agent error a k) e h = failure agent error a (History-append k e h)
  History-append (success agent r a) e h = absurd (cc (e))
