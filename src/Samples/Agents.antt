-- ===== src/Samples/Agents.antt =====
-- The theorems on the registered agents and the choice of the Lead, at a team of two rows.
use mathlib.Core.Option
use Prim.Native.String.{◌++◌}
use research_agent_system.Common.{
  Option, pos, negsuc, String, true, false, none, some, [], ◌∷◌, map, any, find, All, IsNodup, ◌==◌,
  string_eq, ◌≡◌, ◌≢◌, ◌↔◌, refl, Result, ok,
}
use research_agent_system.Registry.Agents.{AgentRegistry}
use research_agent_system.Storage.Database.{Database, AgentRow, execute_as}
use research_agent_system.Storage.Agents.{
  AgentRegistryRecord, is_agent, agent_row, from_row, register, insert_agent, upsert_agent,
  get_agent,
}
use research_agent_system.Storage.Registered.{get_agent-upsert_agent}
use research_agent_system.Team.Records.{
  Json, given, resolve_lead, agent_registry, validate_registry_row,
}
use research_agent_system.Team.Chosen.{IsLead, resolve_lead_iff}
use research_agent_system.Team.Judged.{agent_registry_iff}
use research_agent_system.Registry.DriverKind
use research_agent_system.Team.Options.{Value, object, number, Paths, normal}
use research_agent_system.Samples.Fixture.{quiet, busy}

abbrev planner : AgentRegistryRecord
planner = record {
  id = "planner";
  name = "planner";
  tier = "reasoner";
  driver_kind = some "codex-app-server";
  executable = some "codex";
  runtime_version = none;
  driver_args_json = none;
  max_concurrency = some (pos 1);
  tags_json = some "  ";
  driver_config_json = none;
}

abbrev builder : AgentRegistryRecord
builder = record planner {
  id = "builder";
  name = "builder";
  tier = "worker";
  tags_json = some "[]";
}

-- A registration of the same id, whose columns an upsert overwrites.
abbrev old_planner : AgentRow
old_planner = agent_row (record planner { name = "old"; tier = "worker" }) (negsuc 3)

abbrev staffed : Database
staffed = record {
  tables = record (busy.tables) { agent_registry = agent_row builder (pos 1) ∷ old_planner ∷ [] };
  executed = 0;
}

abbrev promoted : Database
promoted = record {
  tables = record (busy.tables) {
    agent_registry = agent_row builder (pos 1) ∷ agent_row planner (pos 1) ∷ [];
  };
  executed = 1;
}

promotes : upsert_agent quiet planner staffed ≡ (ok tt, promoted)
unfolding upsert_agent insert_agent register execute_as
promotes = refl

get_agent-upsert_agent_example :
    (planner.max_concurrency ≢ none)
    × ((get_agent quiet planner.id promoted).0 ≡ ok (some planner))
    × ((id : String)
        → (planner.id == id) ≡ false
        → (get_agent quiet id promoted).0
          ≡ ok (Option.map from_row (find (is_agent id) staffed.tables.agent_registry)))
    × (record (promoted.tables) { agent_registry = staffed.tables.agent_registry } ≡ staffed.tables)
get_agent-upsert_agent_example = get_agent-upsert_agent quiet planner staffed promoted promotes refl

resolve_lead_iff_example :
    (resolve_lead (builder ∷ planner ∷ []) (some " planner ") ≡ ok planner)
    ↔ IsLead (builder ∷ planner ∷ []) (given (some " planner ")) planner
resolve_lead_iff_example = resolve_lead_iff (builder ∷ planner ∷ []) (some " planner ") planner

abbrev empty_arrays : Json
empty_arrays = record { string_array = λ text. ok []; debug_text = λ text. text }

agent_registry_iff_example :
    ((registry : AgentRegistry) × (agent_registry empty_arrays (planner ∷ builder ∷ [])
        ≡ ok registry))
    ↔ (All (λ r. validate_registry_row empty_arrays r ≡ ok tt) (planner ∷ builder ∷ [])
        × IsNodup (map (λ r. r.id) (planner ∷ builder ∷ []))
        × (any (λ r. r.tier == "reasoner") (planner ∷ builder ∷ []) ≡ true)
        × (any (λ r. r.tier == "worker") (planner ∷ builder ∷ []) ≡ true))
agent_registry_iff_example = agent_registry_iff empty_arrays (planner ∷ builder ∷ [])

-- A parser that reads every text as an object with one option.
abbrev one_option : String → Result String Value
one_option body = ok (object (("max_events", number (some 7)) ∷ []))

abbrev configured : AgentRegistryRecord
configured = record planner { driver_config_json = some "{\"max_events\": 7}" }

abbrev unix_paths : Paths
unix_paths = record { is_absolute = λ path. false; components = λ path. normal ∷ [] }

abbrev in_repository : String → String
in_repository path = "/repo/" ++ path
