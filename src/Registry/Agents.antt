-- ===== src/Registry/Agents.antt =====
-- `AgentConfig`, `RegistryError` and `AgentRegistry` of crates/agentmosaic-team/src/registry.rs.
pub mod Ids
pub mod Build
use mathlib.Core.Option
use research_agent_system.Common.{
  ℕ, String, Option, none, some, List, [], ◌∷◌, map, if◌then◌else◌, ◌==◌, nat_eq, string_eq,
  contains, any, filter, head?, or_else, Result, ok, err,
}
use research_agent_system.Common.Fallible.{◌>>=◌, ◌>>◌}
use research_agent_system.Common.TreeMap
use research_agent_system.Common.TreeMap.{TreeMap}
use research_agent_system.Registry.AgentTier.{AgentTier, tier_eq}
use research_agent_system.Registry.TaskKind.{TaskKind, kind_eq, tier}
use research_agent_system.Registry.DriverKind.{DriverKind}

pub record AgentConfig : Type 0 where
  pub id : String
  pub name : String
  pub tier : AgentTier
  pub tags : List String
  pub max_concurrency : ℕ
  pub driver_kind : Option DriverKind
  pub executable : Option String
  pub driver_args : List String

pub data RegistryError : Type 0 where
  duplicate_id : String → RegistryError
  zero_concurrency : String → RegistryError
  missing_tier : AgentTier → RegistryError

pub record AgentRegistry : Type 0 where
  pub agents : TreeMap AgentConfig
  pub default : Option String

-- The first loop of `new`: `seen` is its set of ids.
pub check_ids : List String → List AgentConfig → Result RegistryError (Unit {0})
check_ids seen [] = ok tt
check_ids seen (a ∷ rest) =
    let checked = check_ids (a.id ∷ seen) rest in
    if contains a.id seen then err (duplicate_id a.id) else checked

-- The second loop: it fills the map.
collect : TreeMap AgentConfig → List AgentConfig → Result RegistryError (TreeMap AgentConfig)
collect m [] = ok m
collect m (a ∷ rest) =
    let collected = collect (TreeMap.insert a.id a m) rest in
    if a.max_concurrency == 0 then err (zero_concurrency a.id) else collected

-- The third loop, over the tiers that a team cannot do without.
require_tiers : TreeMap AgentConfig → List AgentTier → Result RegistryError (Unit {0})
require_tiers m [] = ok tt
require_tiers m (t ∷ rest) =
    let required = require_tiers m rest in
    if any (λ e. e.1.tier == t) m then required else err (missing_tier t)

unfoldable pub new : List AgentConfig → Result RegistryError AgentRegistry
unfolding check_ids collect require_tiers
new agents = do
  check_ids [] agents
  m ← collect [] agents
  require_tiers m (AgentTier.reasoner ∷ AgentTier.worker ∷ [])
  ok (record { agents = m; default = none })

unfoldable pub with_default : AgentRegistry → String → AgentRegistry
with_default r id = record r { default = some id }

unfoldable pub agent_ids : AgentRegistry → List String
unfolding TreeMap.keys
agent_ids r = TreeMap.keys r.agents

unfoldable pub get : AgentRegistry → String → Option AgentConfig
unfolding TreeMap.get
get r id = TreeMap.get id r.agents

-- `iter().filter(tier).map(id).next()`
abbrev pub lowest : AgentTier → TreeMap AgentConfig → Option String
lowest t m = head? (map (λ e. e.0) (filter (λ e. e.1.tier == t) m))

unfoldable pub explicit_target : AgentRegistry → Option String → Option String
unfolding get
explicit_target r none = none
explicit_target r (some t) = Option.map (λ c. c.id) (get r t)

unfoldable pub configured_default : AgentRegistry → Option String → Option String
unfolding get
configured_default r none = none
configured_default r (some d) = elim (get r d) [ none ↦ none | some _ ↦ some d ]

unfoldable pub route : AgentRegistry → TaskKind → Option String → Option String
unfolding explicit_target configured_default agent_ids
route r kind target = or_else (explicit_target r target) (
    or_else (lowest (tier kind) r.agents) (
      if kind == TaskKind.utility
      then lowest AgentTier.worker r.agents
      else or_else (configured_default r r.default) (head? (agent_ids r))))
