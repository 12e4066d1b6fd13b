-- ===== src/Storage/Bindings.antt =====
-- crates/agentmosaic-storage/src/board.rs: the bindings of attempts to external runtimes, and the
-- records of their collaboration.
use research_agent_system.Common.{
  ℕ, String, Bool, true, false, ◌&&◌, Option, none, List, [], ◌∷◌, ◌++◌, any, filter, find, or_else,
  update_where, if◌then◌else◌, ◌==◌, nat_eq, string_eq, ok, err, Exec,
}
use mathlib.Core.Option
use research_agent_system.Storage.Database.{
  BindingRow, CollaborationRow, Engine, Database, Statement, execute_as,
}
use research_agent_system.Storage.Writes.{dangling}
use research_agent_system.Storage.Reads.{query}

pub record ExternalRuntimeBinding : Type 0 where
  pub team_task_id : ℕ
  pub attempt : ℕ
  pub agent_id : String
  pub runtime_kind : String
  pub native_thread_id : Option String
  pub native_turn_id : Option String
  pub lifecycle_state : String

pub record ExtendedExternalRuntimeBinding : Type 0 where
  pub binding : ExternalRuntimeBinding
  pub runtime_name : Option String
  pub runtime_version : Option String
  pub protocol_kind : Option String
  pub protocol_version : Option String
  pub capabilities_json : Option String
  pub started_at : Option String
  pub finished_at : Option String

-- a method whose error is SQLite's own
abbrev pub Sql : Type 0 → Type 0
Sql A = Exec Database String A

abbrev pub is_binding : ℕ → ℕ → BindingRow → Bool
is_binding task attempt r = r.team_task_id == task && r.attempt == attempt

-- ON CONFLICT(team_task_id,attempt) DO UPDATE: the row of the key is updated, or a new one is added.
unfoldable pub upsert_row :
    BindingRow → (BindingRow → BindingRow) → List BindingRow → List BindingRow
upsert_row fresh update rows =
    if any (is_binding fresh.team_task_id fresh.attempt) rows
    then update_where (is_binding fresh.team_task_id fresh.attempt) update rows
    else rows ++ fresh ∷ []

-- the row of a binding without the later columns
unfoldable pub binding_row : ExternalRuntimeBinding → BindingRow
binding_row b = record {
  team_task_id = b.team_task_id;
  attempt = b.attempt;
  agent_id = b.agent_id;
  runtime_kind = b.runtime_kind;
  native_thread_id = b.native_thread_id;
  native_turn_id = b.native_turn_id;
  lifecycle_state = b.lifecycle_state;
  runtime_name = none;
  runtime_version = none;
  protocol_kind = none;
  protocol_version = none;
  capabilities_json = none;
  started_at = none;
  finished_at = none;
}

-- the update of the older method: thread, turn and state are overwritten
unfoldable pub update_binding : ExternalRuntimeBinding → BindingRow → BindingRow
update_binding b r = record r {
  native_thread_id = b.native_thread_id;
  native_turn_id = b.native_turn_id;
  lifecycle_state = b.lifecycle_state;
}

unfoldable pub extended_row : ExtendedExternalRuntimeBinding → BindingRow
extended_row e = record (binding_row e.binding) {
  runtime_name = e.runtime_name;
  runtime_version = e.runtime_version;
  protocol_kind = e.protocol_kind;
  protocol_version = e.protocol_version;
  capabilities_json = e.capabilities_json;
  started_at = e.started_at;
  finished_at = e.finished_at;
}

-- the update of the newer method, where COALESCE keeps what the new row leaves NULL
unfoldable pub update_extended : ExtendedExternalRuntimeBinding → BindingRow → BindingRow
update_extended e r = record r {
  agent_id = e.binding.agent_id;
  runtime_kind = e.binding.runtime_kind;
  native_thread_id = or_else e.binding.native_thread_id r.native_thread_id;
  native_turn_id = or_else e.binding.native_turn_id r.native_turn_id;
  lifecycle_state = e.binding.lifecycle_state;
  runtime_name = or_else e.runtime_name r.runtime_name;
  runtime_version = or_else e.runtime_version r.runtime_version;
  protocol_kind = or_else e.protocol_kind r.protocol_kind;
  protocol_version = or_else e.protocol_version r.protocol_version;
  capabilities_json = or_else e.capabilities_json r.capabilities_json;
  started_at = or_else e.started_at r.started_at;
  finished_at = or_else e.finished_at r.finished_at;
}

unfoldable pub read_binding : BindingRow → ExternalRuntimeBinding
read_binding r = record {
  team_task_id = r.team_task_id;
  attempt = r.attempt;
  agent_id = r.agent_id;
  runtime_kind = r.runtime_kind;
  native_thread_id = r.native_thread_id;
  native_turn_id = r.native_turn_id;
  lifecycle_state = r.lifecycle_state;
}

unfoldable pub read_extended : BindingRow → ExtendedExternalRuntimeBinding
read_extended r = record {
  binding = read_binding r;
  runtime_name = r.runtime_name;
  runtime_version = r.runtime_version;
  protocol_kind = r.protocol_kind;
  protocol_version = r.protocol_version;
  capabilities_json = r.capabilities_json;
  started_at = r.started_at;
  finished_at = r.finished_at;
}

module _ (engine : Engine) where
  abbrev pub run_sql : {A : Type 0} → Statement A → Sql A
  run_sql = execute_as (λ text. text) engine

  unfoldable pub upsert : BindingRow → (BindingRow → BindingRow) → Statement (Unit {0})
  upsert fresh update t =
      if dangling engine fresh.team_task_id t
      then err engine.constraint_text
      else ok (tt, record t { bindings = upsert_row fresh update t.bindings })

  unfoldable pub upsert_external_binding : ExternalRuntimeBinding → Sql (Unit {0})
  upsert_external_binding b = run_sql (upsert (binding_row b) (update_binding b))

  unfoldable pub upsert_external_binding_extended : ExtendedExternalRuntimeBinding → Sql (Unit {0})
  upsert_external_binding_extended e = run_sql (upsert (extended_row e) (update_extended e))

  unfoldable pub external_binding : ℕ → ℕ → Sql (Option ExternalRuntimeBinding)
  external_binding task attempt =
      run_sql
        (query (λ t. ok (Option.map read_binding (find (is_binding task attempt) t.bindings))))

  unfoldable pub external_binding_extended : ℕ → ℕ → Sql (Option ExtendedExternalRuntimeBinding)
  external_binding_extended task attempt =
      run_sql
        (query (λ t. ok (Option.map read_extended (find (is_binding task attempt) t.bindings))))

  abbrev pub is_call : CollaborationRow → CollaborationRow → Bool
  is_call new r = r.runtime_kind == new.runtime_kind && r.native_call_id == new.native_call_id

  -- ON CONFLICT(runtime_kind,native_call_id) DO NOTHING; the answer is whether a row was added.
  unfoldable pub insert_call : CollaborationRow → Statement Bool
  insert_call row t =
      if any (is_call row) t.collaborations
      then ok (false, t)
      else if dangling engine row.team_task_id t
      then err engine.constraint_text
      else ok (true, record t { collaborations = t.collaborations ++ row ∷ [] })

  unfoldable pub record_runtime_collaboration : CollaborationRow → Sql Bool
  record_runtime_collaboration row = run_sql (insert_call row)

  unfoldable pub runtime_collaboration : ℕ → ℕ → Sql (List CollaborationRow)
  runtime_collaboration task attempt = run_sql (
      query
        (λ t. ok (filter (λ r. r.team_task_id == task && r.attempt == attempt) t.collaborations)))
