-- ===== src/Storage/Collaborations.antt =====
-- `record_runtime_collaboration` of crates/agentmosaic-storage/src/board.rs is idempotent.
use research_agent_system.Common.{
  String, Bool, true, false, ◌&&◌, none, List, [], ◌∷◌, ◌++◌, any, if◌then◌else◌, ◌==◌, nat_eq,
  string_eq, eq_self, ◌≡◌, refl, sym, ap, ◌∙◌, arith, Result, ok, err,
}
use research_agent_system.Common.Fallible.{ok_inj}
use research_agent_system.Storage.Database.{
  CollaborationRow, Tables, Engine, Database, execute_as, execute_as-eq-ok,
}
use research_agent_system.Storage.Writes.{dangling}
use research_agent_system.Storage.Bindings.{is_call, insert_call, record_runtime_collaboration}

any-snoc :
    {A : Type 0} (p : A → Bool) (rows : List A) (x : A) → p x ≡ true → any p (rows ++ x ∷ []) ≡ true
any-snoc p [] x h = rw h refl
any-snoc p (y ∷ rows) x h = ground (arith, any-snoc p rows x h)

module _ (engine : Engine) where
  -- After a record of a call there is a record of that call, whether it was added or was there.
  recorded :
      (row : CollaborationRow) (db : Database) {added : Bool} {db' : Database}
      → record_runtime_collaboration engine row db ≡ (ok added, db')
      → any (is_call engine row) db'.tables.collaborations ≡ true
  unfolding record_runtime_collaboration insert_call
  recorded row db {added} {db'} h =
      by_found (any (is_call engine row) db.tables.collaborations) refl
        (dangling engine row.team_task_id db.tables)
        (execute_as-eq-ok (λ text. text) engine (insert_call engine row) db h)
    where
      by_found :
          (found : Bool)
          → any (is_call engine row) db.tables.collaborations ≡ found
          → (refused : Bool)
          → ◌≡◌ {A = Result String (Bool × Tables)}
              (if found
                then ok (false, db.tables)
                else if refused
                then err engine.constraint_text
                else ok (
                  true,
                  record db.tables { collaborations = db.tables.collaborations ++ row ∷ [] },
                ))
              (ok (added, db'.tables))
          → any (is_call engine row) db'.tables.collaborations ≡ true
      by_found true f refused h =
          ap {A = Bool × Tables} (λ p. any (is_call engine row) p.1.collaborations) (sym (ok_inj h))
          ∙ f
      by_found false f true h = absurd cc
      by_found false f false h =
          ap {A = Bool × Tables} (λ p. any (is_call engine row) p.1.collaborations) (sym (ok_inj h))
          ∙ any-snoc (is_call engine row) db.tables.collaborations row
              (rw (eq_self row.runtime_kind) (eq_self row.native_call_id))

  -- A call that was recorded is not recorded again, whatever the second record says of it: the
  -- answer is no, and no table changes.
  pub record_runtime_collaboration-again :
      (row again : CollaborationRow) (db : Database) (added : Bool) (db' : Database)
      → record_runtime_collaboration engine row db ≡ (ok added, db')
      → again.runtime_kind ≡ row.runtime_kind
      → again.native_call_id ≡ row.native_call_id
      → engine.fails db'.executed ≡ none
      → ((record_runtime_collaboration engine again db').0 ≡ ok false)
        × ((record_runtime_collaboration engine again db').1.tables ≡ db'.tables)
  unfolding record_runtime_collaboration insert_call execute_as
  record_runtime_collaboration-again row again db added db' h k c works =
      let found : any (is_call engine again) db'.tables.collaborations ≡ true =
        (λ i. any (λ r. r.runtime_kind == k i && r.native_call_id == c i) db'.tables.collaborations)
        ∙ recorded row db h in
      rw works (rw found (refl, refl))
