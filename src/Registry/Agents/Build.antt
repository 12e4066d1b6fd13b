-- ===== src/Registry/Agents/Build.antt =====
-- `AgentRegistry::new`: which lists of agents it takes, and what the registry holds then.
use text.Mathlib.TextEquality.{eq_iff}
use research_agent_system.Common.{
  String, ◌≡◌, ◌<◌, ◌⊎◌, false, refl, sym, ap, ◌∙◌, subst, true, Option, none, some, List, [], ◌∷◌,
  arith, ◌==◌, nat_eq, string_eq, any, find, All, IsNodup, or_else, ok, Bool-cases, inl, inr,
}
use research_agent_system.Common.Fallible.{bind-eq-ok, ok_inj}
use research_agent_system.Common.TreeMap
use research_agent_system.Common.TreeMap.{any-get, any-insert}
use research_agent_system.Common.TreeMap.{
  TreeMap, IsSorted, insert-IsSorted, get-insert, All-insert,
}
use research_agent_system.Registry.AgentTier.{AgentTier, tier_eq}
use research_agent_system.Registry.Agents.{
  AgentConfig, AgentRegistry, check_ids, collect, require_tiers, new, get,
}
use research_agent_system.Registry.Agents.Ids.{
  ids, check_ids_fresh, check_ids-IsNodup, check_ids_total, IsNew-nil,
}

-- What a registry is promised to be. Entries stand under their own id.
pub record IsEntry (e : String × AgentConfig) : Type 0 where
  pub keyed : e.0 ≡ e.1.id
  pub runnable : 0 < e.1.max_concurrency

pub record IsValid (r : AgentRegistry) : Type 0 where
  pub sorted : IsSorted r.agents
  pub entries : All IsEntry r.agents
  pub has_reasoner : any (λ e. e.1.tier == AgentTier.reasoner) r.agents ≡ true
  pub has_worker : any (λ e. e.1.tier == AgentTier.worker) r.agents ≡ true

collect-IsSorted :
    (agents : List AgentConfig) (m m' : TreeMap AgentConfig)
    → collect m agents ≡ ok m'
    → IsSorted m
    → IsSorted m'
unfolding collect
collect-IsSorted [] m m' h s = ground arith
collect-IsSorted (a ∷ rest) m m' h s =
    ground (arith, collect-IsSorted rest (TreeMap.insert a.id a m) m', insert-IsSorted a.id a m)

collect_entries :
    (agents : List AgentConfig) (m m' : TreeMap AgentConfig)
    → collect m agents ≡ ok m'
    → All IsEntry m
    → All IsEntry m'
unfolding collect
collect_entries [] m m' h s = subst (All IsEntry) (cc) s
collect_entries (a ∷ rest) m m' h s = elim (Bool-cases (a.max_concurrency == 0)) [
  | inl zero ↦ absurd (ground arith)
  | inr positive ↦
      collect_entries rest (TreeMap.insert a.id a m) m' (ground arith)
        (All-insert IsEntry a.id a m (record { keyed = refl; runnable = ground arith }) s)
]

abbrev pub IsRunnable : AgentConfig → Type 0
IsRunnable a = 0 < a.max_concurrency

collect-IsRunnable :
    (agents : List AgentConfig) (m m' : TreeMap AgentConfig)
    → collect m agents ≡ ok m'
    → All IsRunnable agents
unfolding collect
collect-IsRunnable [] m m' h = tt
collect-IsRunnable (a ∷ rest) m m' h = elim (Bool-cases (a.max_concurrency == 0)) [
  | inl zero ↦ absurd (ground arith)
  | inr positive ↦
      (ground arith, collect-IsRunnable rest (TreeMap.insert a.id a m) m' (ground arith))
]

abbrev pub HasTier : AgentTier → List AgentConfig → Type 0
HasTier t agents = any (λ a. a.tier == t) agents ≡ true

get-collect :
    (j : String) (seen : List String) (agents : List AgentConfig) (m m' : TreeMap AgentConfig)
    → check_ids seen agents ≡ ok tt
    → collect m agents ≡ ok m'
    → IsSorted m
    → TreeMap.get j m' ≡ or_else (find (λ a. a.id == j) agents) (TreeMap.get j m)
unfolding check_ids collect
get-collect j seen [] m m' u h s = ground arith
get-collect j seen (a ∷ rest) m m' u h s = ground (
  arith,
  eq_iff a.id j,
  eq_iff a.id a.id,
  check_ids_fresh j (a.id ∷ seen) rest,
  get-collect j (a.id ∷ seen) rest (TreeMap.insert a.id a m) m',
  insert-IsSorted a.id a m,
  get-insert a.id j a m,
)

collect_total :
    (agents : List AgentConfig) (m : TreeMap AgentConfig)
    → All IsRunnable agents
    → (m' : TreeMap AgentConfig) × (collect m agents ≡ ok m')
unfolding collect
collect_total [] m h = (m, refl)
collect_total (a ∷ rest) m h =
    let (m', e) = collect_total rest (TreeMap.insert a.id a m) h.1 in (m', ground arith)

-- An agent of a tier can be looked up under its own id, since ids are unique.
find_of_tier :
    (t : AgentTier) (seen : List String) (agents : List AgentConfig)
    → check_ids seen agents ≡ ok tt
    → HasTier t agents
    → (c : AgentConfig) × (find (λ a. a.id == c.id) agents ≡ some c) × ((c.tier == t) ≡ true)
unfolding check_ids
find_of_tier t seen [] u h = cc
find_of_tier t seen (a ∷ rest) u h = elim (Bool-cases (a.tier == t)) [
  | inl here ↦ (a, ground (arith, eq_iff a.id a.id), here)
  | inr later ↦
      let (c, found, right) = find_of_tier t (a.id ∷ seen) rest (ground arith) (ground arith) in
      (c, ground (arith, eq_iff a.id c.id, check_ids_fresh c.id (a.id ∷ seen) rest), right)
]

any_tier-collect :
    (t : AgentTier) (agents : List AgentConfig) (m : TreeMap AgentConfig)
    → check_ids [] agents ≡ ok tt
    → collect [] agents ≡ ok m
    → HasTier t agents
    → any (λ e. e.1.tier == t) m ≡ true
any_tier-collect t agents m u h has =
    let (c, found, right) = find_of_tier t [] agents u has in
    any-get (λ e. e.1.tier == t) c.id c m
      (get-collect c.id [] agents [] m u h tt ∙ ap (λ o. or_else o (TreeMap.get c.id [])) found)
      right

require_tiers_lem :
    (m : TreeMap AgentConfig)
    → require_tiers m (AgentTier.reasoner ∷ AgentTier.worker ∷ []) ≡ ok tt
    → (any (λ e. e.1.tier == AgentTier.reasoner) m ≡ true)
      × (any (λ e. e.1.tier == AgentTier.worker) m ≡ true)
unfolding require_tiers
require_tiers_lem m h = ground arith

or_else-none {ℓ} : {A : Type ℓ} (o : Option A) → or_else o none ≡ o
or_else-none none = refl
or_else-none (some a) = refl

-- `new` takes every list of agents whose ids are unique, whose concurrency is positive and that has
-- a reasoner and a worker.
pub new_total :
    (agents : List AgentConfig)
    → IsNodup (ids agents)
    → All IsRunnable agents
    → HasTier AgentTier.reasoner agents
    → HasTier AgentTier.worker agents
    → (r : AgentRegistry) × (new agents ≡ ok r)
unfolding new
new_total agents n p hr hw =
    let u = check_ids_total [] agents (IsNew-nil agents) n in
    let (m, e) = collect_total agents [] p in
    let a = any_tier-collect AgentTier.reasoner agents m u e hr in
    let b = any_tier-collect AgentTier.worker agents m u e hw in
    (record { agents = m; default = none }, rw (u, e) (rw a (rw b)))

-- If `new` returns a registry then the ids of its input were unique, and the registry is valid, has
-- no default, and answers a lookup with the agent of that id in the input.
pub new_sound :
    (agents : List AgentConfig) (r : AgentRegistry)
    → new agents ≡ ok r
    → IsNodup (ids agents)
      × IsValid r
      × (r.default ≡ none)
      × ((id : String) → get r id ≡ find (λ a. a.id == id) agents)
unfolding new get
new_sound agents r h =
    let (_, u, h1) = bind-eq-ok (check_ids [] agents) _ h in
    let (m, e, h2) = bind-eq-ok (collect [] agents) _ h1 in
    let (_, q, h3) =
      bind-eq-ok (require_tiers m (AgentTier.reasoner ∷ AgentTier.worker ∷ []))
        (λ _. ok (record { agents = m; default = none })) h2 in
    let same : ◌≡◌ {A = AgentRegistry} (record { agents = m; default = none }) r = cc in
    let tiers = require_tiers_lem m q in
    (
      check_ids-IsNodup [] agents u,
      subst IsValid same (record {
        sorted = collect-IsSorted agents [] m e tt;
        entries = collect_entries agents [] m e tt;
        has_reasoner = tiers.0;
        has_worker = tiers.1;
      }),
      ap (λ t. t.default) (sym same),
      λ id.
          subst (λ t. TreeMap.get id t.agents ≡ find (λ a. a.id == id) agents) same
            (get-collect id [] agents [] m u e tt ∙ or_else-none _),
    )

any_listed :
    (t : AgentTier) (agents : List AgentConfig) (m m' : TreeMap AgentConfig)
    → collect m agents ≡ ok m'
    → any (λ e. e.1.tier == t) m' ≡ true
    → (any (λ e. e.1.tier == t) m ≡ true) ⊎ HasTier t agents
unfolding collect
any_listed t [] m m' h q = inl (subst (λ n. any (λ e. e.1.tier == t) n ≡ true) (sym (ok_inj h)) q)
any_listed t (a ∷ rest) m m' h q = elim (Bool-cases (a.max_concurrency == 0)) [
  | inl zero ↦ absurd (ground arith)
  | inr positive ↦ ground (
    arith,
    any_listed t rest (TreeMap.insert a.id a m) m',
    any-insert (λ e. e.1.tier == t) a.id a m,
  )
]

-- If `new` returns then every agent of its input is runnable, and there is one of each tier that a
-- team needs.
pub new_complete :
    (agents : List AgentConfig) (r : AgentRegistry)
    → new agents ≡ ok r
    → All IsRunnable agents × HasTier AgentTier.reasoner agents × HasTier AgentTier.worker agents
unfolding new
new_complete agents r h =
    let (_, u, h1) = bind-eq-ok (check_ids [] agents) _ h in
    let (m, e, h2) = bind-eq-ok (collect [] agents) _ h1 in
    let (_, q, h3) =
      bind-eq-ok (require_tiers m (AgentTier.reasoner ∷ AgentTier.worker ∷ []))
        (λ _. ok (record { agents = m; default = none })) h2 in
    let tiers = require_tiers_lem m q in
    (
      collect-IsRunnable agents [] m e,
      listed (any_listed AgentTier.reasoner agents [] m e tiers.0),
      listed (any_listed AgentTier.worker agents [] m e tiers.1),
    )
  where
    listed : {P : Type 0} → (false ≡ true) ⊎ P → P
    listed (inl absent) = absurd (ground arith)
    listed (inr p) = p
