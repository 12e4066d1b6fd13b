-- ===== src/Scheduler/Shares.antt =====
-- How many attempts each agent gets from the retries and the walk over the candidates.
use research_agent_system.Common.{
  ℕ, zero, suc, ◌+◌, ◌*◌, ◌≤◌, String, Bool, true, false, if◌then◌else◌, ◌==◌, string_eq,
  count_where, ◌≡◌, refl, ap, ◌∙◌, Option, none, some, List, [], ◌∷◌, ◌++◌, arith, Result, ok, err,
  bind-eq-ok, pure-eq-ok, Option-cases, inl, inr,
}
use research_agent_system.Common.TreeMap
use research_agent_system.Board.Data.{TaskAttempt, AgentTask, AgentTaskResult}
use research_agent_system.Board.Trait.{TaskBoard}
use research_agent_system.Scheduler.Run.{
  Observed, Team, Progress, Driver, terminal_attempt, retry, try_agent, attempt_once, walk,
  on_board,
}
use research_agent_system.Scheduler.Attempts.{attempt_once-Attempted, next}

-- how many of the attempts are the agent's
abbrev pub attempts_by : String → List TaskAttempt → ℕ
attempts_by id attempts = count_where (λ a. a.agent_id == id) attempts

-- how often the agent is a candidate
abbrev pub times_in : String → List String → ℕ
times_in id candidates = count_where (λ c. c == id) candidates

count_where-snoc :
    {A : Type 0} (p : A → Bool) (xs : List A) (x : A)
    → count_where p (xs ++ x ∷ []) ≡ count_where p xs + (if p x then 1 else 0)
count_where-snoc p [] x = omega arith
count_where-snoc p (y ∷ xs) x = by_head (p y) (count_where-snoc p xs x)
  where
    by_head :
        (b : Bool)
        → count_where p (xs ++ x ∷ []) ≡ count_where p xs + (if p x then 1 else 0)
        → (if b then suc (count_where p (xs ++ x ∷ [])) else count_where p (xs ++ x ∷ []))
          ≡ (if b then suc (count_where p xs) else count_where p xs) + (if p x then 1 else 0)
    by_head true ih = omega (arith, ih)
    by_head false ih = ih

terminal_attempt_agent :
    (task number : ℕ) (agent : String) (outcome : Result String AgentTaskResult)
    → (terminal_attempt task number agent outcome).agent_id ≡ agent
terminal_attempt_agent task number agent (ok r) = refl
terminal_attempt_agent task number agent (err e) = refl

-- what one agent's turn with `n` attempts gives to `id`
abbrev share : ℕ → String → String → ℕ
share n agent id = if agent == id then n else 0

share-suc :
    (n : ℕ) (agent id : String) → share 1 agent id + share n agent id ≡ share (suc n) agent id
share-suc n agent id = by_test (agent == id)
  where
    by_test : (b : Bool) → (if b then 1 else 0) + (if b then n else 0) ≡ (if b then suc n else 0)
    by_test true = omega arith
    by_test false = refl

share-le : (n m : ℕ) (agent id : String) → n ≤ m → share n agent id ≤ share m agent id
share-le n m agent id h = by_test (agent == id)
  where
    by_test : (b : Bool) → (if b then n else 0) ≤ (if b then m else 0)
    by_test true = h
    by_test false = omega arith

times_in-cons :
    (m : ℕ) (agent id : String) (rest : List String)
    → share m agent id + times_in id rest * m ≡ times_in id (agent ∷ rest) * m
times_in-cons m agent id rest = by_test (agent == id) (times_in id rest)
  where
    by_test : (b : Bool) (k : ℕ) → (if b then m else 0) + k * m ≡ (if b then suc k else k) * m
    by_test true k = grind arith
    by_test false k = omega arith

module _ {B : Type 0} (board : TaskBoard B) (team : Team B) (task : AgentTask) where
  attempt_once-share :
      (driver : Driver B) (agent id : String) (p p' : Progress) (s s' : Observed B)
      → attempt_once board team task driver agent p s ≡ (ok p', s')
      → attempts_by id p'.attempts ≡ attempts_by id p.attempts + share 1 agent id
  attempt_once-share driver agent id p p' s s' h =
      let x = attempt_once-Attempted board team task driver agent p p' s s' h in
      ap {A = Progress} (λ q. attempts_by id q.attempts) x.progress
      ∙ count_where-snoc (λ a. a.agent_id == id) p.attempts (next board team task agent p x.outcome)
      ∙ ap (λ a. attempts_by id p.attempts + share 1 a id)
          (terminal_attempt_agent _ _ agent x.outcome)

  retry-share :
      (driver : Driver B) (agent id : String) (n : ℕ) (p p' : Progress) (s s' : Observed B)
      → retry board team task driver agent n p s ≡ (ok p', s')
      → attempts_by id p'.attempts ≤ attempts_by id p.attempts + share n agent id
  unfolding retry
  retry-share driver agent id zero p p' s s' h =
      omega (arith, ap {A = Progress} (λ q. attempts_by id q.attempts) (pure-eq-ok h).0)
  retry-share driver agent id (suc n) p p' s s' h =
      let (q, u, h1, h2) = bind-eq-ok (attempt_once board team task driver agent p) _ h in
      let one = attempt_once-share driver agent id p q s u h1 in
      elim (Option-cases q.last_result) [
        | inl again ↦ omega (
          arith,
          one,
          share-suc n agent id,
          retry-share driver agent id n q p' u s' (rw again at h2),
        )
        | inr (r, done) ↦ omega (
          arith,
          one,
          share-suc n agent id,
          ap {A = Progress} (λ q. attempts_by id q.attempts) (pure-eq-ok (rw done at h2)).0,
        )
      ]

  try_agent-share :
      (agent id : String) (d : Option (Driver B)) (n : Option ℕ) (p p' : Progress)
      (s s' : Observed B)
      → try_agent board team task agent d n p s ≡ (ok p', s')
      → attempts_by id p'.attempts ≤ attempts_by id p.attempts + share team.max_retries agent id
  unfolding try_agent
  try_agent-share agent id none n p p' s s' h =
      omega (arith, ap {A = Progress} (λ q. attempts_by id q.attempts) (pure-eq-ok h).0)
  try_agent-share agent id (some driver) none p p' s s' h =
      omega (arith, ap {A = Progress} (λ q. attempts_by id q.attempts) (pure-eq-ok h).0)
  try_agent-share agent id (some driver) (some n) p p' s s' h =
      let (_, u, h1, h2) = bind-eq-ok (on_board (board.assign task.id agent)) _ h in
      retry-share driver agent id team.max_retries p p' u s' h2

  -- An agent gets at most `max_retries` attempts each time it is a candidate.
  pub walk-shares :
      (id : String) (candidates : List String) (p p' : Progress) (s s' : Observed B)
      → walk board team task candidates p s ≡ (ok p', s')
      → attempts_by id p'.attempts
        ≤ attempts_by id p.attempts + times_in id candidates * team.max_retries
  unfolding walk
  walk-shares id [] p p' s s' h =
      omega (arith, ap {A = Progress} (λ q. attempts_by id q.attempts) (pure-eq-ok h).0)
  walk-shares id (agent ∷ rest) p p' s s' h =
      let (q, u, h1, h2) =
        bind-eq-ok
          (try_agent board team task agent (TreeMap.get agent team.drivers)
            (TreeMap.get agent team.semaphores) p)
          _ h in
      let first = try_agent-share agent id _ _ p q s u h1 in
      elim (Option-cases q.last_result) [
        | inl again ↦ omega (
          arith,
          first,
          times_in-cons team.max_retries agent id rest,
          walk-shares id rest q p' u s' (rw again at h2),
        )
        | inr (r, done) ↦ omega (
          arith,
          first,
          times_in-cons team.max_retries agent id rest,
          ap {A = Progress} (λ q. attempts_by id q.attempts) (pure-eq-ok (rw done at h2)).0,
        )
      ]
