-- ===== src/Team/Records.antt =====
-- crates/agentmosaic-runtime/src/team_runner.rs: `agent_config`, `json_string_array`, `agent_registry`,
-- `validate_registry_row` and `resolve_lead`.
--
-- `Json` has what the third-party parser answers for a text that is read as a JSON array of texts:
-- the array, or the text of its error; and the standard library's `Debug` of a text.
use mathlib.Core.Option
use Prim.Native.String.{◌++◌}
use research_agent_system.Common.{
  ℕ, ℤ, pos, negsuc, String, Bool, Option, none, some, List, [], ◌∷◌, map, filter, find, length,
  if◌then◌else◌, ◌==◌, nat_eq, string_eq, Result, ok, err, map_err, ok_or,
}
use research_agent_system.Common.Fallible.{◌>>=◌, refuse_if, collect}
use research_agent_system.Common.Trim.{trim, is_empty_text}
use research_agent_system.Common.Decimal.{decimal}
use research_agent_system.Registry.AgentTier.{AgentTier}
use research_agent_system.Registry.DriverKind.{restore}
use research_agent_system.Registry.Agents.{AgentConfig, AgentRegistry, zero_concurrency, new}
use research_agent_system.Storage.Agents.{AgentRegistryRecord}
use research_agent_system.Team.Errors.{
  TeamRunnerError, unsupported_tier, invalid_agent_field, registry, lead_selection, show_error,
}

pub record Json : Type 0 where
  pub string_array : String → Result String (List String)
  pub debug_text : String → String

-- `.map(str::trim).filter(|value| !value.is_empty())`
unfoldable pub given : Option String → Option String
given none = none
given (some raw) = if is_empty_text (trim raw) then none else some (trim raw)

unfoldable pub tier_of : String → String → Result TeamRunnerError AgentTier
tier_of agent tier =
    if tier == "reasoner"
    then ok AgentTier.reasoner
    else if tier == "worker"
    then ok AgentTier.worker
    else if tier == "utility"
    then ok AgentTier.utility
    else err (unsupported_tier agent tier)

-- an absent limit is 1, and a negative one is no `usize`
unfoldable pub concurrency : Option ℤ → ℕ
concurrency none = 1
concurrency (some (pos n)) = n
concurrency (some (negsuc n)) = 0

module _ (json : Json) where
  unfoldable pub json_string_array : String → Option String → Result TeamRunnerError (List String)
  json_string_array agent raw = elim (given raw) [
    | none ↦ ok []
    | some text ↦
        map_err (λ e. invalid_agent_field agent ("expected a JSON string array: " ++ e))
          (json.string_array text)
  ]

  unfoldable pub agent_config : AgentRegistryRecord → Result TeamRunnerError AgentConfig
  agent_config r = do
    t ← tier_of r.id r.tier
    tags ← json_string_array r.id r.tags_json
    args ← json_string_array r.id r.driver_args_json
    ok (record {
      id = r.id;
      name = r.name;
      tier = t;
      tags = tags;
      max_concurrency = concurrency r.max_concurrency;
      driver_kind = Option.bind r.driver_kind restore;
      executable = r.executable;
      driver_args = args;
    })

  unfoldable pub agent_registry : List AgentRegistryRecord → Result TeamRunnerError AgentRegistry
  agent_registry records = do configs ← collect agent_config records; map_err registry (new configs)

  unfoldable pub validate_registry_row : AgentRegistryRecord → Result String (Unit {0})
  validate_registry_row r = do
    config ← map_err (show_error json.debug_text) (agent_config r)
    refuse_if (config.max_concurrency == 0)
        (show_error json.debug_text (registry (zero_concurrency r.id)))

unfoldable pub join : List String → String
join [] = ""
join (x ∷ []) = x
join (x ∷ y ∷ rest) = x ++ ", " ++ join (y ∷ rest)

abbrev pub is_reasoner : AgentRegistryRecord → Bool
is_reasoner r = r.tier == "reasoner"

abbrev pub unregistered : String → TeamRunnerError
unregistered requested = lead_selection ("agent `" ++ requested ++ "` is not registered")

abbrev pub lead_if_reasoner :
    String → AgentRegistryRecord → Result TeamRunnerError AgentRegistryRecord
lead_if_reasoner requested found =
    if is_reasoner found
    then ok found
    else err (
        lead_selection (
          "agent `" ++ requested ++ "` is tier `" ++ found.tier
          ++ "`, and only a reasoner can lead"))

-- the requested agent, which has to be a reasoner
unfoldable pub requested_lead :
    List AgentRegistryRecord → String → Result TeamRunnerError AgentRegistryRecord
requested_lead records requested = do
  found ← ok_or (find (λ r. r.id == requested) records) (unregistered requested)
  lead_if_reasoner requested found

-- the only reasoner
unfoldable pub only_lead : List AgentRegistryRecord → Result TeamRunnerError AgentRegistryRecord
only_lead [] =
    err (lead_selection "no reasoner agent is registered; a team run needs exactly one lead")
only_lead (only ∷ []) = ok only
only_lead (a ∷ b ∷ rest) = err (
    lead_selection (
      decimal (length (a ∷ b ∷ rest))
      ++ " reasoner agents are registered ("
      ++ join (map (λ r. r.id) (a ∷ b ∷ rest))
      ++ "); name the lead explicitly"))

unfoldable pub resolve_lead :
    List AgentRegistryRecord → Option String → Result TeamRunnerError AgentRegistryRecord
resolve_lead records requested = elim (given requested) [
  | some id ↦ requested_lead records id
  | none ↦ only_lead (filter is_reasoner records)
]
