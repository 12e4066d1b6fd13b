-- ===== src/Scheduler/Order.antt =====
-- `candidate_order` and `build_semaphores` of crates/agentmosaic-team/src/scheduler.rs.
use research_agent_system.Common.{
  ℕ, String, Bool, false, ◌&&◌, Option, none, some, List, [], ◌∷◌, ◌++◌, if◌then◌else◌, ◌==◌,
  string_eq, contains, filter, is_empty,
}
use research_agent_system.Common.TreeMap
use research_agent_system.Common.TreeMap.{TreeMap}
use research_agent_system.Registry.AgentTier.{AgentTier, tier_eq}
use research_agent_system.Registry.TaskKind.{TaskKind, kind_eq, tier}
use research_agent_system.Registry.Agents.{AgentRegistry, agent_ids, get}

unfoldable pub explicit : AgentRegistry → Option String → List String
unfolding get
explicit registry none = []
explicit registry (some t) = elim (get registry t) [ none ↦ [] | some _ ↦ t ∷ [] ]

-- `registry.get(id).map(|c| c.tier == tier).unwrap_or(false)`
unfoldable pub in_tier : AgentRegistry → AgentTier → String → Bool
unfolding get
in_tier registry t id = elim (get registry id) [ none ↦ false | some c ↦ c.tier == t ]

-- `order.retain(|id| seen.insert(id.clone()))`
unfoldable pub retain_first : List String → List String → List String
retain_first seen [] = []
retain_first seen (id ∷ rest) =
    let kept = retain_first (id ∷ seen) rest in
    let skipped = retain_first seen rest in if contains id seen then skipped else id ∷ kept

unfoldable pub or_workers : AgentRegistry → TaskKind → List String → List String
unfolding in_tier agent_ids
or_workers registry kind order =
    if kind == TaskKind.utility && is_empty order
    then order ++ filter (in_tier registry AgentTier.worker) (agent_ids registry)
    else order

unfoldable pub candidate_order : AgentRegistry → TaskKind → Option String → List String
unfolding explicit in_tier retain_first or_workers agent_ids
candidate_order registry kind target = retain_first [] (
    or_workers registry kind
      (explicit registry target ++ filter (in_tier registry (tier kind)) (agent_ids registry)))

-- One semaphore for each agent, with as many permits as the agent may run tasks at once.
unfoldable pub permits : AgentRegistry → String → ℕ
unfolding get
permits registry id = elim (get registry id) [ none ↦ 1 | some c ↦ c.max_concurrency ]

unfoldable pub collect_permits : AgentRegistry → TreeMap ℕ → List String → TreeMap ℕ
unfolding permits TreeMap.insert
collect_permits registry m [] = m
collect_permits registry m (id ∷ rest) =
    collect_permits registry (TreeMap.insert id (permits registry id) m) rest

unfoldable pub build_semaphores : AgentRegistry → TreeMap ℕ
unfolding collect_permits agent_ids
build_semaphores registry = collect_permits registry [] (agent_ids registry)
