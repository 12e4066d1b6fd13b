-- ===== src/Storage/Agents.antt =====
-- crates/agentmosaic-storage/src/registry_store.rs: the durable registrations of the agents.
use mathlib.Core.Option
use research_agent_system.Common.{
  ℕ, ℤ, String, Bool, not, Option, none, some, List, [], ◌∷◌, ◌++◌, map, any, filter, find,
  update_where, count_where, sort_by, if◌then◌else◌, ltb, ◌==◌, string_eq, ok, err, ◌>>=◌, pure,
}
use research_agent_system.Storage.Database.{AgentRow, Engine, Statement}
use research_agent_system.Storage.Reads.{query}
use research_agent_system.Storage.Rows.{text_le}
use research_agent_system.Storage.Bindings.{Sql, run_sql}

pub record AgentRegistryRecord : Type 0 where
  pub id : String
  pub name : String
  pub tier : String
  pub driver_kind : Option String
  pub executable : Option String
  pub runtime_version : Option String
  pub driver_args_json : Option String
  pub max_concurrency : Option ℤ
  pub tags_json : Option String
  pub driver_config_json : Option String

abbrev pub is_agent : String → AgentRow → Bool
is_agent id r = r.id == id

abbrev pub agent_row : AgentRegistryRecord → ℤ → AgentRow
agent_row a limit = record {
  id = a.id;
  name = a.name;
  tier = a.tier;
  driver_kind = a.driver_kind;
  executable = a.executable;
  runtime_version = a.runtime_version;
  driver_args_json = a.driver_args_json;
  max_concurrency = limit;
  tags_json = a.tags_json;
  driver_config_json = a.driver_config_json;
}

-- the record that a row is read as
unfoldable pub from_row : AgentRow → AgentRegistryRecord
from_row r = record {
  id = r.id;
  name = r.name;
  tier = r.tier;
  driver_kind = r.driver_kind;
  executable = r.executable;
  runtime_version = r.runtime_version;
  driver_args_json = r.driver_args_json;
  max_concurrency = some r.max_concurrency;
  tags_json = r.tags_json;
  driver_config_json = r.driver_config_json;
}

-- ON CONFLICT(id) DO UPDATE, which overwrites all columns but the key
unfoldable pub register : AgentRow → List AgentRow → List AgentRow
register a rows =
    if any (is_agent a.id) rows
    then update_where (is_agent a.id) (λ r. record a { id = r.id }) rows
    else rows ++ a ∷ []

module _ (engine : Engine) where
  -- the statement of `upsert_agent`, which a NULL in `max_concurrency` fails
  unfoldable pub insert_agent : AgentRegistryRecord → Option ℤ → Statement (Unit {0})
  insert_agent a none t = err engine.constraint_text
  insert_agent a (some limit) t =
      ok (tt, record t { agent_registry = register (agent_row a limit) t.agent_registry })

  unfoldable pub upsert_agent : AgentRegistryRecord → Sql (Unit {0})
  upsert_agent a = run_sql engine (insert_agent a a.max_concurrency)

  unfoldable pub get_agent : String → Sql (Option AgentRegistryRecord)
  get_agent id =
      run_sql engine (query (λ t. ok (Option.map from_row (find (is_agent id) t.agent_registry))))

  -- DELETE, which answers how many rows it removed
  unfoldable pub remove_agent : String → Statement ℕ
  remove_agent id t = ok (
    count_where (is_agent id) t.agent_registry,
    record t { agent_registry = filter (λ r. not (is_agent id r)) t.agent_registry },
  )

  unfoldable pub delete_agent : String → Sql Bool
  delete_agent id = do removed ← run_sql engine (remove_agent id); pure (ltb 0 removed)

  unfoldable pub list_agents : Sql (List AgentRegistryRecord)
  list_agents =
      run_sql engine
        (query (λ t. ok (map from_row (sort_by (λ a b. text_le a.id b.id) t.agent_registry))))
