-- ===== src/Scheduler/Routing.antt =====
-- `AgentRegistry::route` and `candidate_order` name the same agent first.
use text.Mathlib.TextEquality.{eq_iff}
use research_agent_system.Common.{
  String, ◌≡◌, refl, sym, ap, ◌∙◌, Bool, true, false, Option, none, some, List, [], ◌∷◌, ◌++◌, map,
  arith, if◌then◌else◌, ◌==◌, string_eq, filter, any, head?, or_else, All, Bool-cases, inl, inr,
  Option-cases,
}
use research_agent_system.Common.TreeMap
use research_agent_system.Common.TreeMap.{TreeMap, IsSorted, All-get}
use research_agent_system.Registry.AgentTier.{AgentTier, tier_eq}
use research_agent_system.Registry.TaskKind.{TaskKind, kind_eq, tier}
use research_agent_system.Registry.Agents.{
  AgentConfig, AgentRegistry, agent_ids, get, route, lowest, explicit_target, configured_default,
}
use research_agent_system.Registry.Agents.Build.{IsEntry, IsValid}
use research_agent_system.Scheduler.Order.{
  explicit, in_tier, retain_first, or_workers, candidate_order,
}
use text.Mathlib.TextPositions.{compare_refl}
use Prim.Native.String.{compare}
use Prim.Native.Nat.{Ordering}

module _ {V : Type 0} where
  abbrev IsFound : TreeMap V → String × V → Type 0
  IsFound m e = TreeMap.get e.0 m ≡ some e.1

  IsFound-cons :
      (j : String) (w : V) (m rest : TreeMap V)
      → All (λ e. compare j e.0 ≡ Ordering.lt) rest
      → All (IsFound m) rest
      → All (IsFound ((j, w) ∷ m)) rest
  unfolding TreeMap.get
  IsFound-cons j w m [] above a = tt
  IsFound-cons j w m ((k, v) ∷ rest) above a =
      (ground (arith, eq_iff j k, compare_refl k), IsFound-cons j w m rest above.1 a.1)

  -- In a sorted map every entry is the one found under its key.
  All-IsFound : (m : TreeMap V) → IsSorted m → All (IsFound m) m
  unfolding TreeMap.get
  All-IsFound [] s = tt
  All-IsFound ((j, w) ∷ m) s =
      (ground (arith, eq_iff j j), IsFound-cons j w m m s.0 (All-IsFound m s.1))

module _ (r : AgentRegistry) (t : AgentTier) where
  filter_ids :
      (m : TreeMap AgentConfig)
      → All (IsFound r.agents) m
      → filter (in_tier r t) (TreeMap.keys m) ≡ map (λ e. e.0) (filter (λ e. e.1.tier == t) m)
  unfolding in_tier get TreeMap.keys
  filter_ids [] a = refl
  filter_ids ((k, c) ∷ m) a = ground (arith, a.0, filter_ids m a.1)

  -- The first candidate of a tier is the agent that `route` picks.
  tier_first : IsSorted r.agents → head? (filter (in_tier r t) (agent_ids r)) ≡ lowest t r.agents
  unfolding agent_ids
  tier_first s = ap head? (filter_ids r.agents (All-IsFound r.agents s))

head?-retain_first : (order : List String) → head? (retain_first [] order) ≡ head? order
unfolding retain_first
head?-retain_first [] = refl
head?-retain_first (id ∷ rest) = refl

head?-append : (xs ys : List String) → head? (xs ++ ys) ≡ or_else (head? xs) (head? ys)
head?-append [] ys = refl
head?-append (x ∷ xs) ys = refl

choice :
    (utility : Bool) (target low worker rest : Option String)
    → (utility ≡ false → (id : String) × (low ≡ some id))
    → (id : String) × (worker ≡ some id)
    → (or_else target (or_else low (if utility then worker else rest))
        ≡ (if utility then or_else (or_else target low) worker else or_else target low))
      × ((id : String) × (or_else target (or_else low (if utility then worker else rest))
            ≡ some id))
choice true none none worker rest h w = (refl, w)
choice true none (some a) worker rest h w = (refl, (a, refl))
choice true (some t) none worker rest h w = (refl, (t, refl))
choice true (some t) (some a) worker rest h w = (refl, (t, refl))
choice false none none worker rest h w = let (a, e) = h refl in absurd (cc (e))
choice false none (some a) worker rest h w = (refl, (a, refl))
choice false (some t) none worker rest h w = (refl, (t, refl))
choice false (some t) (some a) worker rest h w = (refl, (t, refl))

module _ (r : AgentRegistry) (valid : IsValid r) where
  head?-explicit : (target : Option String) → head? (explicit r target) ≡ explicit_target r target
  unfolding explicit explicit_target get
  head?-explicit none = refl
  head?-explicit (some t) = elim (Option-cases (TreeMap.get t r.agents)) [
    | inl e ↦ ground (arith, e)
    | inr (c, e) ↦
        let keyed = (All-get IsEntry t r.agents valid.entries e).keyed in ground (arith, e, keyed)
  ]

  lowest_exists :
      (t : AgentTier) (m : TreeMap AgentConfig)
      → any (λ e. e.1.tier == t) m ≡ true
      → (id : String) × (lowest t m ≡ some id)
  lowest_exists t ((k, c) ∷ m) h = elim (Bool-cases (c.tier == t)) [
    | inl e ↦ (k, ground (arith, e))
    | inr e ↦ let (id, q) = lowest_exists t m (ground (arith, e)) in (id, ground (arith, e, q))
  ]
  lowest_exists t [] h = absurd (cc (h))

  -- The tiers of the kinds that may not fall back are there.
  lowest_required :
      (kind : TaskKind)
      → (kind == TaskKind.utility) ≡ false
      → (id : String) × (lowest (tier kind) r.agents ≡ some id)
  unfolding tier
  lowest_required TaskKind.reasoning h =
      lowest_exists AgentTier.reasoner r.agents valid.has_reasoner
  lowest_required TaskKind.review h = lowest_exists AgentTier.reasoner r.agents valid.has_reasoner
  lowest_required TaskKind.bulk h = lowest_exists AgentTier.worker r.agents valid.has_worker
  lowest_required TaskKind.tool h = lowest_exists AgentTier.worker r.agents valid.has_worker
  lowest_required TaskKind.utility h = absurd (cc (h))

  head?-base :
      (kind : TaskKind) (target : Option String)
      → head? (explicit r target ++ filter (in_tier r (tier kind)) (agent_ids r))
        ≡ or_else (explicit_target r target) (lowest (tier kind) r.agents)
  head?-base kind target =
      head?-append (explicit r target) _
      ∙ (λ i. or_else (head?-explicit target i) (tier_first r (tier kind) valid.sorted i))

  head?-or_workers :
      (kind : TaskKind) (order : List String)
      → head? (or_workers r kind order) ≡ (
          if kind == TaskKind.utility
          then or_else (head? order) (lowest AgentTier.worker r.agents)
          else head? order)
  unfolding or_workers
  head?-or_workers kind [] = ground (arith, tier_first r AgentTier.worker valid.sorted)
  head?-or_workers kind (x ∷ xs) = ground arith

  -- In a valid registry `route` and the scheduler agree: the agent that `route` names is the first
  -- candidate, and there always is one.
  pub route-head? :
      (kind : TaskKind) (target : Option String)
      → (route r kind target ≡ head? (candidate_order r kind target))
        × ((id : String) × (route r kind target ≡ some id))
  unfolding route candidate_order
  route-head? kind target =
      let (wid, worker) = lowest_exists AgentTier.worker r.agents valid.has_worker in
      let ordered =
        head?-retain_first _
        ∙ head?-or_workers kind (explicit r target ++ filter (in_tier r (tier kind)) (agent_ids r))
        ∙ ap
            (λ h.
              if kind == TaskKind.utility then or_else h (lowest AgentTier.worker r.agents) else h)
            (head?-base kind target) in
      let (agree, exists) =
        choice (kind == TaskKind.utility) (explicit_target r target) (lowest (tier kind) r.agents)
          (lowest AgentTier.worker r.agents)
          (or_else (configured_default r r.default) (head? (agent_ids r))) (lowest_required kind)
          (wid, worker) in
      (agree ∙ sym ordered, exists)
