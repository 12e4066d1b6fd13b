-- ===== src/Scheduler/Extends.antt =====
-- A part of `run_one` extends the history of the task: `Extends` says by what, and how such parts
-- follow each other.
use research_agent_system.Common.{
  ℕ, ◌+◌, ◌≤◌, String, ◌≡◌, refl, ap, ◌∙◌, sym, subst, none, some, List, [], ◌∷◌, ◌++◌, length,
  length-append, append-nil, append_assoc, arith, Result, ok, err, get_last?,
}
use research_agent_system.Board.Data.{TaskAttempt, AgentTask, AgentTaskResult}
use research_agent_system.Board.Trait.{TaskBoard}
use research_agent_system.Events.RunEvent.{RunEvent, attempt_started}
use research_agent_system.Scheduler.Run.{
  u32, terminal_attempt, terminal_events, Observed, Team, Progress, ok_result,
}
use research_agent_system.Scheduler.History.{
  History, exhausted, failure, success, advance, History-append,
}
use research_agent_system.Scheduler.Attempts.{Stored, Attempted, next}

get_last?-snoc : (xs : List TaskAttempt) (a : TaskAttempt) → get_last? (xs ++ a ∷ []) ≡ some a
get_last?-snoc [] a = refl
get_last?-snoc (x ∷ []) a = refl
get_last?-snoc (x ∷ y ∷ ys) a = get_last?-snoc (y ∷ ys) a

module _ {B : Type 0} (board : TaskBoard B) (team : Team B) (task : AgentTask)
    (Allowed : String → Type 0) where
  -- A result that the board holds: the last attempt succeeded with it, and the board took both.
  pub record Kept (attempts : List TaskAttempt) (r : AgentTaskResult) (b : B) : Type 0 where
    pub last : TaskAttempt
    pub is_last : get_last? attempts ≡ some last
    pub agent : String
    pub number : ℕ
    pub is_success : last ≡ terminal_attempt task.id number agent (ok r)
    pub held : Stored board last (ok r) b

  pub record Extends (bound : ℕ) (p : Progress) (s : Observed B) (p' : Progress) (s' : Observed B)
      : Type 0 where
    pub new : List TaskAttempt
    pub told : List RunEvent
    pub attempts_eq : p'.attempts ≡ p.attempts ++ new
    pub events_eq : s'.events ≡ s.events ++ told
    pub history : History task.id Allowed p.attempt_seq new p'.last_result told
    pub seq_eq : p'.attempt_seq ≡ advance p.attempt_seq new
    pub bounded : length new ≤ bound
    pub kept : (r : AgentTaskResult) → p'.last_result ≡ some r → Kept p'.attempts r s'.store

  pub Extends-none : (p : Progress) (s : Observed B) → p.last_result ≡ none → Extends 0 p s p s
  Extends-none p s e = record {
    new = [];
    told = [];
    attempts_eq = sym (append-nil p.attempts);
    events_eq = sym (append-nil s.events);
    history = subst (λ o. History task.id Allowed p.attempt_seq [] o []) (sym e) exhausted;
    seq_eq = refl;
    bounded = omega arith;
    kept = λ r q. cc;
  }

  pub Extends-weaken :
      {m : ℕ} (n : ℕ) {p p' : Progress} {s s' : Observed B}
      → m ≤ n
      → Extends m p s p' s'
      → Extends n p s p' s'
  Extends-weaken n h x = record {
    new = x.new;
    told = x.told;
    attempts_eq = x.attempts_eq;
    events_eq = x.events_eq;
    history = x.history;
    seq_eq = x.seq_eq;
    bounded = omega (arith, x.bounded);
    kept = x.kept;
  }

  advance-append :
      (n : ℕ) (xs ys : List TaskAttempt) → advance n (xs ++ ys) ≡ advance (advance n xs) ys
  advance-append n [] ys = refl
  advance-append n (x ∷ xs) ys = advance-append (u32 (n + 1)) xs ys

  pub Extends-trans :
      {m n : ℕ} {p q r : Progress} {s t u : Observed B}
      → Extends m p s q t
      → q.last_result ≡ none
      → Extends n q t r u
      → Extends (m + n) p s r u
  Extends-trans {p = p} {r = r} {s = s} x e y = record {
    new = x.new ++ y.new;
    told = x.told ++ y.told;
    attempts_eq = cc (x.attempts_eq, y.attempts_eq, append_assoc p.attempts x.new y.new);
    events_eq = cc (x.events_eq, y.events_eq, append_assoc s.events x.told y.told);
    history =
        History-append x.history e
          (subst (λ k. History task.id Allowed k y.new r.last_result y.told) x.seq_eq y.history);
    seq_eq = cc (x.seq_eq, y.seq_eq, advance-append p.attempt_seq x.new y.new);
    bounded = omega (arith, x.bounded, y.bounded, length-append {0} x.new y.new);
    kept = y.kept;
  }

  one_attempt :
      (agent : String) (seq : ℕ) (outcome : Result String AgentTaskResult)
      → Allowed agent
      → History task.id Allowed seq
          (terminal_attempt task.id (u32 (seq + 1)) agent outcome ∷ [])
          (ok_result outcome)
          (attempt_started task.id (u32 (seq + 1)) agent
            ∷ terminal_events task.id (u32 (seq + 1)) agent outcome)
  one_attempt agent seq (ok r) a = success agent r a
  one_attempt agent seq (err e) a = failure agent e a exhausted

  Kept-next :
      (agent : String) (p : Progress) (outcome : Result String AgentTaskResult) (b : B)
      → Stored board (next board team task agent p outcome) outcome b
      → (r : AgentTaskResult) → ok_result outcome ≡ some r
      → Kept (p.attempts ++ next board team task agent p outcome ∷ []) r b
  Kept-next agent p (err e) b st r h = cc
  Kept-next agent p (ok q) b st r h =
      let same : q ≡ r = ground (arith, h) in
      record {
        last = next board team task agent p (ok q);
        is_last = get_last?-snoc p.attempts _;
        agent = agent;
        number = u32 (p.attempt_seq + 1);
        is_success = ap (λ x. terminal_attempt task.id (u32 (p.attempt_seq + 1)) agent (ok x)) same;
        held = subst (λ x. Stored board (next board team task agent p (ok q)) (ok x) b) same st;
      }

  pub Extends-one :
      (agent : String) {p p' : Progress} {s s' : Observed B}
      → Allowed agent
      → Attempted board team task agent p s p' s'
      → Extends 1 p s p' s'
  Extends-one agent {p} {s' = s'} a x =
      let made = next board team task agent p x.outcome in
      record {
        new = made ∷ [];
        told =
            attempt_started task.id (u32 (p.attempt_seq + 1)) agent
            ∷ terminal_events task.id (u32 (p.attempt_seq + 1)) agent x.outcome;
        attempts_eq = ap (λ q. q.attempts) x.progress;
        events_eq = x.reported;
        history =
            subst
              (λ o. History task.id Allowed p.attempt_seq (made ∷ []) o (
                attempt_started task.id (u32 (p.attempt_seq + 1)) agent
                ∷ terminal_events task.id (u32 (p.attempt_seq + 1)) agent x.outcome))
              (sym (ap (λ q. q.last_result) x.progress))
              (one_attempt agent p.attempt_seq x.outcome a);
        seq_eq = ap (λ q. q.attempt_seq) x.progress;
        bounded = omega arith;
        kept = λ r e.
            subst (λ l. Kept l r s'.store) (sym (ap (λ q. q.attempts) x.progress))
              (Kept-next agent p x.outcome s'.store x.stored r
                (sym (ap (λ q. q.last_result) x.progress) ∙ e));
      }
