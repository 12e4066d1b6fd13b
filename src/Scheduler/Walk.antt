-- ===== src/Scheduler/Walk.antt =====
-- What the retries and the walk over the candidates add to the history of a task.
use research_agent_system.Common.{
  ℕ, zero, suc, ◌+◌, ◌*◌, ◌≤◌, String, ◌≡◌, ap, ◌∙◌, sym, subst, Option, none, some, List, [], ◌∷◌,
  ◌++◌, length, arith, ok, All, bind-eq-ok, pure-eq-ok, Option-cases, inl, inr, string_eq,
}
use research_agent_system.Common.TreeMap
use research_agent_system.Board.Data.{AgentTask}
use research_agent_system.Board.Trait.{TaskBoard}
use research_agent_system.Scheduler.Run.{
  Observed, Team, Progress, Driver, retry, try_agent, attempt_once, walk, on_board,
}
use research_agent_system.Scheduler.Attempts.{attempt_once-Attempted, on_board-eq-ok}
use research_agent_system.Scheduler.Extends.{
  Extends, Extends-none, Extends-one, Extends-trans, Extends-weaken,
}

more_agents : (n m : ℕ) → m + n * m ≤ suc n * m
more_agents n m = grind arith

one_agent : (n m : ℕ) → m ≤ suc n * m
one_agent n m = grind arith

module _ {B : Type 0} (board : TaskBoard B) (team : Team B) (task : AgentTask)
    (Allowed : String → Type 0) where
  Extends-same :
      (p p' : Progress) (s s' : Observed B)
      → p.last_result ≡ none
      → p' ≡ p
      → s' ≡ s
      → Extends board team task Allowed 0 p s p' s'
  Extends-same p p' s s' e x y =
      subst (λ q. Extends board team task Allowed 0 p s q s') (sym x)
        (subst (Extends board team task Allowed 0 p s p) (sym y)
          (Extends-none board team task Allowed p s e))

  Extends-move :
      {m : ℕ} {p : Progress} {s : Observed B} (q p' : Progress) (u s' : Observed B)
      → p' ≡ q
      → s' ≡ u
      → Extends board team task Allowed m p s q u
      → Extends board team task Allowed m p s p' s'
  Extends-move {m} {p} {s} q p' u s' x y k =
      subst (λ r. Extends board team task Allowed m p s r s') (sym x)
        (subst (Extends board team task Allowed m p s q) (sym y) k)

  retry-Extends :
      (driver : Driver B) (agent : String) (n : ℕ) (p p' : Progress) (s s' : Observed B)
      → Allowed agent
      → p.last_result ≡ none
      → retry board team task driver agent n p s ≡ (ok p', s')
      → Extends board team task Allowed n p s p' s'
  unfolding retry
  retry-Extends driver agent zero p p' s s' a e h =
      let (x, y) = pure-eq-ok h in Extends-same p p' s s' e x y
  retry-Extends driver agent (suc n) p p' s s' a e h =
      let (q, u, h1, h2) = bind-eq-ok (attempt_once board team task driver agent p) _ h in
      let first =
        Extends-one board team task Allowed agent a
          (attempt_once-Attempted board team task driver agent p q s u h1) in
      elim (Option-cases q.last_result) [
        | inl again ↦ Extends-weaken board team task Allowed (suc n) (omega arith) (
            Extends-trans board team task Allowed first again
              (retry-Extends driver agent n q p' u s' a again (rw again at h2)))
        | inr (r, done) ↦
            let (x, y) = pure-eq-ok (rw done at h2) in
            Extends-move q p' u s' x y
              (Extends-weaken board team task Allowed (suc n) (omega arith) first)
      ]

  -- The board's answer leaves the events.
  pub Extends-from :
      {m : ℕ} {p p' : Progress} {s t s' : Observed B}
      → t.events ≡ s.events
      → Extends board team task Allowed m p t p' s'
      → Extends board team task Allowed m p s p' s'
  Extends-from {s = s} e x = record {
    new = x.new;
    told = x.told;
    attempts_eq = x.attempts_eq;
    events_eq = x.events_eq ∙ ap (λ l. l ++ x.told) e;
    history = x.history;
    seq_eq = x.seq_eq;
    bounded = x.bounded;
    kept = x.kept;
  }

  try_agent-Extends :
      (agent : String) (d : Option (Driver B)) (n : Option ℕ) (p p' : Progress) (s s' : Observed B)
      → Allowed agent
      → p.last_result ≡ none
      → try_agent board team task agent d n p s ≡ (ok p', s')
      → Extends board team task Allowed team.max_retries p s p' s'
  unfolding try_agent
  try_agent-Extends agent none n p p' s s' a e h =
      let (x, y) = pure-eq-ok h in
      Extends-weaken board team task Allowed team.max_retries (omega arith)
        (Extends-same p p' s s' e x y)
  try_agent-Extends agent (some driver) none p p' s s' a e h =
      let (x, y) = pure-eq-ok h in
      Extends-weaken board team task Allowed team.max_retries (omega arith)
        (Extends-same p p' s s' e x y)
  try_agent-Extends agent (some driver) (some n) p p' s s' a e h =
      let (_, u, h1, h2) = bind-eq-ok (on_board (board.assign task.id agent)) _ h in
      Extends-from (on_board-eq-ok (board.assign task.id agent) s u h1).1
        (retry-Extends driver agent team.max_retries p p' u s' a e h2)

  pub walk-Extends :
      (candidates : List String) (p p' : Progress) (s s' : Observed B)
      → All Allowed candidates
      → p.last_result ≡ none
      → walk board team task candidates p s ≡ (ok p', s')
      → Extends board team task Allowed (length candidates * team.max_retries) p s p' s'
  unfolding walk
  walk-Extends [] p p' s s' a e h =
      let (x, y) = pure-eq-ok h in
      Extends-weaken board team task Allowed (length {A = String} [] * team.max_retries)
        (omega arith) (Extends-same p p' s s' e x y)
  walk-Extends (agent ∷ rest) p p' s s' allowed e h =
      let (q, u, h1, h2) =
        bind-eq-ok
          (try_agent board team task agent (TreeMap.get agent team.drivers)
            (TreeMap.get agent team.semaphores) p)
          _ h in
      let first = try_agent-Extends agent _ _ p q s u allowed.0 e h1 in
      elim (Option-cases q.last_result) [
        | inl again ↦
            Extends-weaken board team task Allowed (length (agent ∷ rest) * team.max_retries)
              (more_agents (length rest) team.max_retries)
              (Extends-trans board team task Allowed first again
                (walk-Extends rest q p' u s' allowed.1 again (rw again at h2)))
        | inr (r, done) ↦
            let (x, y) = pure-eq-ok (rw done at h2) in
            Extends-move q p' u s' x y (
              Extends-weaken board team task Allowed (length (agent ∷ rest) * team.max_retries)
                (one_agent (length rest) team.max_retries) first)
      ]
