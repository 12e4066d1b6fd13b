-- ===== src/Storage/Registered.antt =====
-- What `upsert_agent` of crates/agentmosaic-storage/src/registry_store.rs stores is what `get_agent`
-- reads.
use mathlib.Core.Option
use text.Mathlib.TextEquality.{eq_iff}
use research_agent_system.Common.{
  ℤ, String, Bool, true, false, ◌||◌, Option, none, some, List, [], ◌∷◌, ◌++◌, any, find,
  update_where, if◌then◌else◌, ◌==◌, string_eq, ◌≡◌, ◌≢◌, refl, sym, ap, ◌∙◌, ok,
}
use research_agent_system.Common.Fallible.{ok_inj}
use research_agent_system.Storage.Database.{AgentRow, Engine, Database, Tables, execute_as-eq-ok}
use research_agent_system.Storage.Agents.{
  AgentRegistryRecord, is_agent, agent_row, from_row, register, insert_agent, upsert_agent,
  get_agent,
}
use research_agent_system.Storage.Bound.{query-answers}
use research_agent_system.Storage.Upsert.{
  find-update_where_other, find-snoc, find-none, if-true, if-false,
}

module _ (a : AgentRow) where
  abbrev overwrite : AgentRow → AgentRow
  overwrite r = record a { id = r.id }

  -- A row of the key is overwritten with all of the new row.
  find-overwrite :
      (rows : List AgentRow)
      → any (is_agent a.id) rows ≡ true
      → find (is_agent a.id) (update_where (is_agent a.id) overwrite rows) ≡ some a
  find-overwrite [] h = absurd cc
  find-overwrite (x ∷ rows) h = by_head (is_agent a.id x) refl h (find-overwrite rows)
    where
      by_head :
          (b : Bool)
          → is_agent a.id x ≡ b
          → (b || any (is_agent a.id) rows) ≡ true
          → (any (is_agent a.id) rows ≡ true
              → find (is_agent a.id) (update_where (is_agent a.id) overwrite rows) ≡ some a)
          → find
              (is_agent a.id)
              ((if b then overwrite x else x) ∷ update_where (is_agent a.id) overwrite rows)
            ≡ some a
      by_head true q h ih =
          if-true _ _ q ∙ ap (λ t. some (record a { id = t })) ((eq_iff x.id a.id).0 q)
      by_head false q h ih = if-false _ _ q ∙ ih h

  find-register_own : (rows : List AgentRow) → find (is_agent a.id) (register a rows) ≡ some a
  unfolding register
  find-register_own rows = by_found (any (is_agent a.id) rows) refl
    where
      by_found :
          (b : Bool)
          → any (is_agent a.id) rows ≡ b
          → find
              (is_agent a.id)
              (if b then update_where (is_agent a.id) overwrite rows else rows ++ a ∷ [])
            ≡ some a
      by_found true f = find-overwrite rows f
      by_found false f =
          find-snoc (is_agent a.id) rows a
          ∙ if-false _ _ f
          ∙ if-true _ _ ((eq_iff a.id a.id).1 refl)

  -- The rows of the other keys stay.
  find-register_other :
      (id : String) (rows : List AgentRow)
      → (a.id == id) ≡ false
      → find (is_agent id) (register a rows) ≡ find (is_agent id) rows
  unfolding register
  find-register_other id rows other = by_found (any (is_agent a.id) rows)
    where
      unless_found :
          (b : Bool)
          → any (is_agent id) rows ≡ b
          → (if b then find (is_agent id) rows else none) ≡ find (is_agent id) rows
      unless_found true e = refl
      unless_found false e = sym (find-none (is_agent id) rows e)

      by_found :
          (b : Bool)
          → find
              (is_agent id)
              (if b then update_where (is_agent a.id) overwrite rows else rows ++ a ∷ [])
            ≡ find (is_agent id) rows
      by_found true =
          find-update_where_other overwrite (is_agent a.id) (is_agent id) (λ r. refl)
            (λ r own. ap (λ t. t == id) ((eq_iff r.id a.id).0 own) ∙ other) rows
      by_found false =
          find-snoc (is_agent id) rows a
          ∙ ap (λ o. if any (is_agent id) rows then find (is_agent id) rows else o)
              (if-false _ _ other)
          ∙ unless_found (any (is_agent id) rows) refl

module _ (engine : Engine) where
  insert_agent-eq-ok :
      (r : AgentRegistryRecord) (limit : Option ℤ) (t t' : Tables) (u : Unit {0})
      → insert_agent engine r limit t ≡ ok (u, t')
      → (n : ℤ) × (limit ≡ some n)
        × (t' ≡ record t { agent_registry = register (agent_row r n) t.agent_registry })
  unfolding insert_agent
  insert_agent-eq-ok r none t t' u h = absurd cc
  insert_agent-eq-ok r (some n) t t' u h =
      (n, refl, ap {A = Unit {0} × Tables} (λ p. p.1) (sym (ok_inj h)))

  -- An upsert that returns had a concurrency limit. The record it stored is read back whole, every
  -- other registration is read as before, and no other table has changed.
  pub get_agent-upsert_agent :
      (r : AgentRegistryRecord) (db : Database) (db' : Database)
      → upsert_agent engine r db ≡ (ok tt, db')
      → engine.fails db'.executed ≡ none
      → (r.max_concurrency ≢ none)
        × ((get_agent engine r.id db').0 ≡ ok (some r))
        × ((id : String)
            → (r.id == id) ≡ false
            → (get_agent engine id db').0
              ≡ ok (Option.map from_row (find (is_agent id) db.tables.agent_registry)))
        × (record (db'.tables) { agent_registry = db.tables.agent_registry } ≡ db.tables)
  unfolding upsert_agent get_agent from_row
  get_agent-upsert_agent r db db' h works =
      let (n, limit, stored) =
        insert_agent-eq-ok r r.max_concurrency db.tables db'.tables tt
          (execute_as-eq-ok (λ text. text) engine (insert_agent engine r r.max_concurrency) db h) in
      let rows = ap {A = Tables} (λ t. t.agent_registry) stored in
      (
        λ no. absurd cc,
        query-answers engine _ db' works
            ∙ ap (λ l. ok (Option.map from_row (find (is_agent r.id) l))) rows
            ∙ ap (λ o. ok (Option.map from_row o))
                (find-register_own (agent_row r n) db.tables.agent_registry)
            ∙ ap (λ m. ok (some (record r { max_concurrency = m }))) (sym limit),
        λ id other.
            query-answers engine _ db' works
            ∙ ap (λ l. ok (Option.map from_row (find (is_agent id) l))) rows
            ∙ ap (λ o. ok (Option.map from_row o))
                (find-register_other (agent_row r n) id db.tables.agent_registry other),
        ap {A = Tables} (λ t. record t { agent_registry = db.tables.agent_registry }) stored,
      )
