-- ===== src/Scheduler/Candidates.antt =====
-- Which agents `candidate_order` lets run a task.
use text.Mathlib.TextEquality.{eq_iff}
use research_agent_system.Common.{
  String, ◌≡◌, refl, sym, ap, ◌∙◌, ◌||◌, Bool, true, false, ◌&&◌, ◌⊎◌, inl, inr, Option, none, some,
  List, [], ◌∷◌, ◌++◌, arith, if◌then◌else◌, ◌==◌, string_eq, contains, filter, is_empty, All,
  All-append, filter-All, All-imp, IsNodup, Option-cases, eq_of_beq,
}
use research_agent_system.Common.TreeMap
use research_agent_system.Registry.AgentTier.{AgentTier, tier_eq}
use research_agent_system.Registry.TaskKind.{TaskKind, kind_eq, tier}
use research_agent_system.Registry.Agents.{AgentConfig, AgentRegistry, agent_ids, get}
use research_agent_system.Scheduler.Order.{
  explicit, in_tier, retain_first, or_workers, candidate_order,
}

retain_first-seen :
    (j : String) (seen order : List String)
    → contains j seen ≡ true
    → contains j (retain_first seen order) ≡ false
unfolding retain_first
retain_first-seen j seen [] h = refl
retain_first-seen j seen (id ∷ rest) h =
    ground (arith, eq_iff id j, retain_first-seen j (id ∷ seen) rest, retain_first-seen j seen rest)

retain_first-IsNodup : (seen order : List String) → IsNodup (retain_first seen order)
unfolding retain_first
retain_first-IsNodup seen [] = tt
retain_first-IsNodup seen (id ∷ rest) = ground (
  arith,
  eq_iff id id,
  retain_first-seen id (id ∷ seen) rest,
  retain_first-IsNodup (id ∷ seen) rest,
  retain_first-IsNodup seen rest,
)

All-retain_first {ℓ} :
    (P : String → Type ℓ) (seen order : List String) → All P order → All P (retain_first seen order)
unfolding retain_first
All-retain_first P seen [] h = tt
All-retain_first P seen (id ∷ rest) h =
    ground (arith, All-retain_first P (id ∷ seen) rest h.1, All-retain_first P seen rest h.1)

-- Nobody else can run a utility task: no utility agent is registered, nor the agent that the task
-- names.
pub record NeedsStandIn (r : AgentRegistry) (target : Option String) : Type 0 where
  pub no_utility :
      (id : String) (c : AgentConfig) → get r id ≡ some c → (c.tier == AgentTier.utility) ≡ false
  pub no_target : (t : String) → target ≡ some t → get r t ≡ none

-- An agent that may run a task: a registered one, which the task names, or which is of the tier of
-- the task's kind, or which is a worker that stands in for a utility agent since nobody else can.
pub record IsCandidate (r : AgentRegistry) (kind : TaskKind) (target : Option String) (id : String)
    : Type 0 where
  pub config : AgentConfig
  pub registered : get r id ≡ some config
  pub reason :
      (target ≡ some id)
      ⊎ ((config.tier ≡ tier kind)
          ⊎ ((kind ≡ TaskKind.utility) × (config.tier ≡ AgentTier.worker) × NeedsStandIn r target))

filter-nil :
    (p : String → Bool) (xs : List String) (k : String)
    → filter p xs ≡ []
    → contains k xs ≡ true
    → p k ≡ false
filter-nil p [] k h c = absurd cc
filter-nil p (x ∷ xs) k h c = by_head (p x) refl h (filter-nil p xs k)
  where
    by_head :
        (b : Bool)
        → p x ≡ b
        → (if b then x ∷ filter p xs else filter p xs) ≡ []
        → (filter p xs ≡ [] → contains k xs ≡ true → p k ≡ false)
        → p k ≡ false
    by_head true q h ih = absurd cc
    by_head false q h ih = by_key (x == k) refl c
      where
        by_key : (e : Bool) → (x == k) ≡ e → (e || contains k xs) ≡ true → p k ≡ false
        by_key true e c = ap p (sym ((eq_iff x k).0 e)) ∙ q
        by_key false e c = ih h c

contains-keys :
    (k : String) (m : TreeMap.TreeMap AgentConfig) (c : AgentConfig)
    → TreeMap.get k m ≡ some c
    → contains k (TreeMap.keys m) ≡ true
unfolding TreeMap.get TreeMap.keys
contains-keys k [] c h = absurd cc
contains-keys k ((j, w) ∷ m) c h = ground (arith, contains-keys k m c)

is_empty-nil : (xs : List String) → is_empty xs ≡ true → xs ≡ []
is_empty-nil [] h = refl
is_empty-nil (x ∷ xs) h = absurd cc

append-eq-nil : (xs ys : List String) → xs ++ ys ≡ [] → (xs ≡ []) × (ys ≡ [])
append-eq-nil [] ys h = (refl, h)
append-eq-nil (x ∷ xs) ys h = absurd cc

module _ (r : AgentRegistry) (kind : TaskKind) where
  explicit_candidates :
      (target : Option String) → All (IsCandidate r kind target) (explicit r target)
  unfolding explicit get
  explicit_candidates none = tt
  explicit_candidates (some t) = go (TreeMap.get t r.agents) refl
    where
      go :
          (o : Option AgentConfig)
          → TreeMap.get t r.agents ≡ o
          → All (IsCandidate r kind (some t)) (elim o [ none ↦ [] | some _ ↦ t ∷ [] ])
      go none e = tt
      go (some c) e = (record { config = c; registered = e; reason = inl refl }, tt)

module _ (r : AgentRegistry) (kind : TaskKind) (target : Option String) where
  in_tier_lem :
      (t : AgentTier) (id : String)
      → in_tier r t id ≡ true
      → (c : AgentConfig) × (get r id ≡ some c) × (c.tier ≡ t)
  unfolding in_tier
  in_tier_lem t id h = elim (Option-cases (get r id)) [
    | inl e ↦ absurd (ground (arith, e))
    | inr (c, e) ↦ (c, e, eq_of_beq c.tier t (ground (arith, e)))
  ]

  in_tier-IsCandidate :
      (t : AgentTier) (id : String)
      → ((c : AgentConfig)
          → c.tier ≡ t
          → (target ≡ some id)
            ⊎ ((c.tier ≡ tier kind)
                ⊎ ((kind ≡ TaskKind.utility)
                    × (c.tier ≡ AgentTier.worker)
                    × NeedsStandIn r target)))
      → in_tier r t id ≡ true
      → IsCandidate r kind target id
  in_tier-IsCandidate t id why h =
      let (c, e, same) = in_tier_lem t id h in
      record { config = c; registered = e; reason = why c same }

  tier_candidates : All (IsCandidate r kind target) (filter (in_tier r (tier kind)) (agent_ids r))
  tier_candidates =
      All-imp (λ id. in_tier r (tier kind) id ≡ true) (IsCandidate r kind target)
        (λ id. in_tier-IsCandidate (tier kind) id (λ c e. inr (inl e))) _
        (filter-All (in_tier r (tier kind)) (agent_ids r))

  untiered :
      (id : String) (c : AgentConfig)
      → get r id ≡ some c
      → kind ≡ TaskKind.utility
      → in_tier r (tier kind) id ≡ false
      → (c.tier == AgentTier.utility) ≡ false
  unfolding in_tier tier
  untiered id c e u f =
      ap (λ k. c.tier == tier k) (sym u)
      ∙ ap (λ o. elim o [ none ↦ false | some c ↦ c.tier == tier kind ]) (sym e)
      ∙ f

  unnamed : (t : String) → explicit r (some t) ≡ [] → get r t ≡ none
  unfolding explicit
  unnamed t h = by_found (get r t) h
    where
      by_found : (o : Option AgentConfig) → (elim o [ none ↦ [] | some _ ↦ t ∷ [] ]) ≡ [] → o ≡ none
      by_found none h = refl
      by_found (some c) h = absurd cc

  -- If the order is empty then nobody else can run the task.
  empty-NeedsStandIn :
      kind ≡ TaskKind.utility
      → explicit r target ++ filter (in_tier r (tier kind)) (agent_ids r) ≡ []
      → NeedsStandIn r target
  unfolding explicit in_tier agent_ids get
  empty-NeedsStandIn u h =
      let (named, tiered) = append-eq-nil (explicit r target) _ h in
      record {
        no_utility = λ id c e. untiered id c e u (
            filter-nil (in_tier r (tier kind)) (agent_ids r) id tiered
              (contains-keys id r.agents c e));
        no_target = λ t e. unnamed t (ap (explicit r) (sym e) ∙ named);
      }

  worker_candidates :
      kind ≡ TaskKind.utility
      → NeedsStandIn r target
      → All (IsCandidate r kind target) (filter (in_tier r AgentTier.worker) (agent_ids r))
  worker_candidates u needed =
      All-imp (λ id. in_tier r AgentTier.worker id ≡ true) (IsCandidate r kind target)
        (λ id. in_tier-IsCandidate AgentTier.worker id (λ c e. inr (inr (u, e, needed)))) _
        (filter-All (in_tier r AgentTier.worker) (agent_ids r))

  or_workers_candidates :
      (order : List String)
      → (kind ≡ TaskKind.utility → order ≡ [] → NeedsStandIn r target)
      → All (IsCandidate r kind target) order
      → All (IsCandidate r kind target) (or_workers r kind order)
  unfolding or_workers
  or_workers_candidates order needed a = go (kind == TaskKind.utility) refl (is_empty order) refl
    where
      go :
          (b : Bool)
          → (kind == TaskKind.utility) ≡ b
          → (c : Bool) → is_empty order ≡ c
          → All
              (IsCandidate r kind target)
              (if b && c then order ++ filter (in_tier r AgentTier.worker) (agent_ids r) else order)
      go true e true f =
          let u = eq_of_beq kind TaskKind.utility e in
          All-append (IsCandidate r kind target) order _ a
            (worker_candidates u (needed u (is_empty-nil order f)))
      go true e false f = a
      go false e c f = a

  -- The candidates of a task are distinct, and each is a registered agent which the task names, or
  -- which is of the tier of the task's kind, or which is a worker that stands in for a utility
  -- agent. A worker stands in only if no utility agent is registered, and no agent that the task
  -- names.
  pub candidate_order-IsCandidate :
      IsNodup (candidate_order r kind target)
      × All (IsCandidate r kind target) (candidate_order r kind target)
  unfolding candidate_order
  candidate_order-IsCandidate = (
    retain_first-IsNodup [] _,
    All-retain_first (IsCandidate r kind target) [] _ (
        or_workers_candidates _ empty-NeedsStandIn (
          All-append (IsCandidate r kind target) _ _ (explicit_candidates r kind target)
            tier_candidates)),
  )
