-- ===== src/Storage/Bound.antt =====
-- What the methods on bindings and collaborations of crates/agentmosaic-storage/src/board.rs store
-- is what they read.
use mathlib.Core.Option
use research_agent_system.Common.{
  ℕ, String, Bool, true, false, ◌&&◌, ◌==◌, Option, none, some, List, [], ◌∷◌, find, or_else,
  if◌then◌else◌, nat_eq, string_eq, ◌≡◌, refl, sym, ap, ◌∙◌, Result, ok, err,
}
use research_agent_system.Common.Fallible.{ok_inj}
use research_agent_system.Storage.Database.{
  BindingRow, Tables, Engine, Database, execute_as, execute_as-eq-ok, settle, settle,
}
use research_agent_system.Storage.Reads.{query}
use research_agent_system.Storage.Bindings.{
  ExtendedExternalRuntimeBinding, read_binding, is_binding, upsert_row, binding_row, extended_row,
  update_extended, read_extended, upsert, upsert_external_binding_extended,
  external_binding_extended, run_sql,
}
use research_agent_system.Storage.Upsert.{same_key, own_key, if-true, if-false, find-upsert_row}

-- `new`, or `old` if there is no new value
abbrev pub kept : Option String → Option String → Option String
kept (some new) old = some new
kept none old = old

-- A new binding over the one that was there.
abbrev pub over :
    ExtendedExternalRuntimeBinding → Option BindingRow → ExtendedExternalRuntimeBinding
over e none = e
over e (some old) = record {
  binding = record {
    team_task_id = e.binding.team_task_id;
    attempt = e.binding.attempt;
    agent_id = e.binding.agent_id;
    runtime_kind = e.binding.runtime_kind;
    native_thread_id = kept e.binding.native_thread_id old.native_thread_id;
    native_turn_id = kept e.binding.native_turn_id old.native_turn_id;
    lifecycle_state = e.binding.lifecycle_state;
  };
  runtime_name = kept e.runtime_name old.runtime_name;
  runtime_version = kept e.runtime_version old.runtime_version;
  protocol_kind = kept e.protocol_kind old.protocol_kind;
  protocol_version = kept e.protocol_version old.protocol_version;
  capabilities_json = kept e.capabilities_json old.capabilities_json;
  started_at = kept e.started_at old.started_at;
  finished_at = kept e.finished_at old.finished_at;
}

or_else-kept : (new old : Option String) → or_else new old ≡ kept new old
or_else-kept none old = refl
or_else-kept (some new) old = refl

-- A binding that is found has the key.
abbrev HasKey : ℕ → ℕ → Option BindingRow → Type 0
HasKey task attempt none = Unit
HasKey task attempt (some r) = (r.team_task_id ≡ task) × (r.attempt ≡ attempt)

find-key :
    (task attempt : ℕ) (rows : List BindingRow)
    → HasKey task attempt (find (is_binding task attempt) rows)
find-key task attempt [] = tt
find-key task attempt (r ∷ rows) =
    by_head (is_binding task attempt r) refl (find-key task attempt rows)
  where
    by_head :
        (b : Bool)
        → is_binding task attempt r ≡ b
        → HasKey task attempt (find (is_binding task attempt) rows)
        → HasKey task attempt (if b then some r else find (is_binding task attempt) rows)
    by_head true h ih = same_key task attempt r h
    by_head false h ih = ih

read-over :
    (e : ExtendedExternalRuntimeBinding) (o : Option BindingRow)
    → HasKey e.binding.team_task_id e.binding.attempt o
    → read_extended (Option.get_or (Option.map (update_extended e) o) (extended_row e)) ≡ over e o
unfolding read_extended read_binding update_extended extended_row binding_row
read-over e none h i = e
read-over e (some r) (t, a) i = record {
  binding = record {
    team_task_id = t i;
    attempt = a i;
    agent_id = e.binding.agent_id;
    runtime_kind = e.binding.runtime_kind;
    native_thread_id = or_else-kept e.binding.native_thread_id r.native_thread_id i;
    native_turn_id = or_else-kept e.binding.native_turn_id r.native_turn_id i;
    lifecycle_state = e.binding.lifecycle_state;
  };
  runtime_name = or_else-kept e.runtime_name r.runtime_name i;
  runtime_version = or_else-kept e.runtime_version r.runtime_version i;
  protocol_kind = or_else-kept e.protocol_kind r.protocol_kind i;
  protocol_version = or_else-kept e.protocol_version r.protocol_version i;
  capabilities_json = or_else-kept e.capabilities_json r.capabilities_json i;
  started_at = or_else-kept e.started_at r.started_at i;
  finished_at = or_else-kept e.finished_at r.finished_at i;
}

module _ (engine : Engine) where
  upsert-eq-ok :
      (fresh : BindingRow) (update : BindingRow → BindingRow) (db : Database) {u : Unit {0}}
      {db' : Database}
      → run_sql engine (upsert engine fresh update) db ≡ (ok u, db')
      → db'.tables.bindings ≡ upsert_row fresh update db.tables.bindings
  unfolding upsert
  upsert-eq-ok fresh update db h =
      allowed _ _ _ _ _ (execute_as-eq-ok (λ text. text) engine (upsert engine fresh update) db h)
    where
      allowed :
          (b : Bool) (text : String) (t t' : Tables) (u : Unit {0})
          → ◌≡◌ {A = Result String (Unit {0} × Tables)}
              (if b then err text else ok (tt, t))
              (ok (u, t'))
          → t'.bindings ≡ t.bindings
      allowed true text t t' u h = absurd cc
      allowed false text t t' u h = ap {A = Unit {0} × Tables} (λ p. p.1.bindings) (sym (ok_inj h))

  pub query-answers :
      {A : Type 0} (read : Tables → Result String A) (db : Database)
      → engine.fails db.executed ≡ none
      → (run_sql engine (query read) db).0 ≡ read db.tables
  unfolding execute_as query
  query-answers {A} read db h = rw h (read-settled (read db.tables))
    where
      read-settled :
          (r : Result String A)
          → (settle
              (λ text. text)
              none
              (elim r [ ok a ↦ ok (a, db.tables) | err text ↦ err text ])
              db.tables).0
            ≡ r
      read-settled (ok a) = refl
      read-settled (err text) = refl

  -- What an extended upsert stored is read at its key. If there was no binding of the key, that is
  -- the new binding. If there was, it is the new one with the native thread and turn, the runtime's
  -- name and version, the protocol's kind and version, the capabilities and the two times of the old
  -- one wherever the new one leaves them empty. The bindings of the other keys stay.
  pub external_binding_extended-upsert :
      (e : ExtendedExternalRuntimeBinding) (db : Database) (db' : Database)
      → upsert_external_binding_extended engine e db ≡ (ok tt, db')
      → engine.fails db'.executed ≡ none
      → ((external_binding_extended engine e.binding.team_task_id e.binding.attempt db').0
          ≡ ok (
              some (
                over e
                  (find (is_binding e.binding.team_task_id e.binding.attempt) db.tables.bindings))))
        × ((task attempt : ℕ)
            → (e.binding.team_task_id == task && e.binding.attempt == attempt) ≡ false
            → find (is_binding task attempt) db'.tables.bindings
              ≡ find (is_binding task attempt) db.tables.bindings)
  unfolding upsert_external_binding_extended external_binding_extended extended_row binding_row
      update_extended
  external_binding_extended-upsert e db db' h works =
      let mine = find (is_binding e.binding.team_task_id e.binding.attempt) db.tables.bindings in
      (
        query-answers _ db' works
            ∙ ap (λ o. ok (Option.map read_extended o))
                (stored e.binding.team_task_id e.binding.attempt
                  ∙ if-true _ _ (own_key e.binding.team_task_id e.binding.attempt))
            ∙ ap (λ x. ok (some x))
                (read-over e mine
                  (find-key e.binding.team_task_id e.binding.attempt db.tables.bindings)),
        λ task attempt other. stored task attempt ∙ if-false _ _ other,
      )
    where
      stored :
          (task attempt : ℕ)
          → find (is_binding task attempt) db'.tables.bindings ≡ (
              if is_binding task attempt (extended_row e)
              then some (
                  Option.get_or
                    (Option.map
                      (update_extended e)
                      (find (is_binding task attempt) db.tables.bindings))
                    (extended_row e))
              else find (is_binding task attempt) db.tables.bindings)
      stored task attempt =
          ap (find (is_binding task attempt))
            (upsert-eq-ok (extended_row e) (update_extended e) db h)
          ∙ find-upsert_row (extended_row e) (update_extended e) (λ r t a. refl) db.tables.bindings
              task attempt
