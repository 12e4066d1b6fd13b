-- ===== src/Samples/Teams.antt =====
-- The theorems on registries, routing and candidates, at a team of two.
use research_agent_system.Common.{
  ◌≡◌, refl, String, none, some, ok, head?, IsNodup, All, find, string_eq, ◌==◌,
}
use native.Mathlib.Omega.{arith}
use research_agent_system.Common.TreeMap
use research_agent_system.Registry.TaskKind.{TaskKind}
use research_agent_system.Registry.Agents.{AgentRegistry, new, get, route}
use research_agent_system.Registry.Agents.Ids.{ids}
use research_agent_system.Registry.Agents.Build.{new_total, new_sound, IsValid}
use research_agent_system.Scheduler.Order.{candidate_order}
use research_agent_system.Scheduler.Routing.{route-head?}
use research_agent_system.Scheduler.Candidates.{candidate_order-IsCandidate, IsCandidate}
use research_agent_system.Samples.Fixture.{pair, pair_registry}

new_total_example : (r : AgentRegistry) × (new pair ≡ ok r)
new_total_example = new_total pair (refl, (refl, tt)) (omega arith, (omega arith, tt)) refl refl

pair_builds : new pair ≡ ok pair_registry
unfolding new TreeMap.insert
pair_builds = refl

new_sound_example :
    IsNodup (ids pair)
    × IsValid pair_registry
    × (pair_registry.default ≡ none)
    × ((id : String) → get pair_registry id ≡ find (λ a. a.id == id) pair)
new_sound_example = new_sound pair pair_registry pair_builds

pair-IsValid : IsValid pair_registry
pair-IsValid = (new_sound pair pair_registry pair_builds).1

route-head?_example :
    (route pair_registry TaskKind.utility none
      ≡ head? (candidate_order pair_registry TaskKind.utility none))
    × ((id : String) × (route pair_registry TaskKind.utility none ≡ some id))
route-head?_example = route-head? pair_registry pair-IsValid TaskKind.utility none

candidate_order-IsCandidate_example :
    IsNodup (candidate_order pair_registry TaskKind.bulk (some "a"))
    × All
        (IsCandidate pair_registry TaskKind.bulk (some "a"))
        (candidate_order pair_registry TaskKind.bulk (some "a"))
candidate_order-IsCandidate_example =
    candidate_order-IsCandidate pair_registry TaskKind.bulk (some "a")
