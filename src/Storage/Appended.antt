-- ===== src/Storage/Appended.antt =====
-- What `append_runtime_event` of crates/agentmosaic-storage/src/board.rs does, and that what it
-- appended is read again.
use Prim.Native.String.{len}
use research_agent_system.Common.{
  ℕ, suc, ◌≤◌, String, Bool, true, false, not, [], ◌∷◌, ◌++◌, filter, if◌then◌else◌, ◌==◌, nat_eq,
  ◌≡◌, refl, sym, ap, ◌∙◌, subst, arith, inl, inr, Result, ok, err, refuse_when, of_result, map_err,
  bind-eq-ok, refuse_when-eq-ok, pure-eq-ok, ltb,
}
use research_agent_system.Common.Fallible.{map_err-eq-ok, ok_inj}
use research_agent_system.Events.RuntimeEvent.{RuntimeEventRecord, kind, policy}
use research_agent_system.Events.Bounded.{max_durable_runtime_payload_bytes}
use research_agent_system.Storage.Database.{
  EventRow, Tables, Engine, Database, Ending, committed, dropped, execute_as, execute_as-eq-ok,
  transaction_as-eq-ok,
}
use research_agent_system.Storage.Reads.{query}
use research_agent_system.Storage.StoredEvent.{
  Codec, StoredRuntimeEvent, RuntimeEventStoreError, sqlite, json,
}
use research_agent_system.Storage.Journal.{
  is_durable, is_event, highest, count_attempts, insert_event, write_event, bound, append_bounded,
  append_runtime_event, perform,
}

if-eq-ok :
    {E A : Type 0} (b : Bool) (e : E) {x y : A}
    → ◌≡◌ {A = Result E A} (if b then err e else ok x) (ok y)
    → (b ≡ false) × (x ≡ y)
if-eq-ok true e h = absurd cc
if-eq-ok false e h = (refl, ok_inj h)

not-not : (b : Bool) → not b ≡ false → b ≡ true
not-not b h = ground arith

committed_inj : {A : Type 0} {x y : A} → ◌≡◌ {A = Ending A} (committed x) (committed y) → x ≡ y
committed_inj h = cc

dropped-ne-committed : {A : Type 0} {x y : A} → ◌≡◌ {A = Ending A} (dropped x) (committed y) → ⊥
dropped-ne-committed h = cc

module _ {F : Type 0} (codec : Codec F) (engine : Engine) where
  -- The row that is written for a record.
  abbrev pub row_of : RuntimeEventRecord F → String → String → ℕ → EventRow
  row_of r payload created_at sequence = record {
    team_task_id = r.task_id;
    attempt = r.attempt;
    sequence = sequence;
    event_kind = kind r.event;
    payload_json = payload;
    created_at = created_at;
  }

  -- The next number of an attempt.
  abbrev pub next_sequence : RuntimeEventRecord F → Tables → ℕ
  next_sequence r t = suc (highest (filter (is_event r.task_id r.attempt) t.runtime_events))

  -- What an append leaves: one more row, and nothing else.
  pub record IsAppended (created_at : String) (r : RuntimeEventRecord F) (t : Tables)
      (stored : StoredRuntimeEvent F) (t' : Tables) : Type 0 where
    pub attempted : count_attempts r.task_id r.attempt t ≡ 1
    pub is_durable_event : is_durable (policy r.event) ≡ true
    pub payload : String
    pub written : codec.record_json r ≡ ok payload
    pub short : len payload ≤ max_durable_runtime_payload_bytes
    pub stored_record :
        stored ≡ record { sequence = next_sequence r t; created_at = created_at; event_record = r }
    pub one_more : t' ≡ record t {
      runtime_events = t.runtime_events ++ row_of r payload created_at (next_sequence r t) ∷ [];
    }

  query_as-eq-ok :
      {A : Type 0} (read : Tables → Result String A) (db : Database) {a : A} {db' : Database}
      → perform codec engine (query read) db ≡ (ok a, db')
      → (read db.tables ≡ ok a) × (db'.tables ≡ db.tables)
  unfolding execute_as query
  query_as-eq-ok read db h = ground arith

  insert_event-eq-ok :
      (row : EventRow) (db : Database) {u : Unit {0}} {db' : Database}
      → perform codec engine (insert_event codec engine row) db ≡ (ok u, db')
      → db'.tables ≡ record db.tables { runtime_events = db.tables.runtime_events ++ row ∷ [] }
  unfolding insert_event
  insert_event-eq-ok row db h = sym (
      ap (λ p. p.1)
        (if-eq-ok _ _ (execute_as-eq-ok sqlite engine (insert_event codec engine row) db h)).1)

  write_event-eq-ok :
      (r : RuntimeEventRecord F) (payload created_at : String) (db : Database)
      {e : Ending (StoredRuntimeEvent F)} {db' : Database}
      → write_event codec engine r payload created_at db ≡ (ok e, db')
      → (count_attempts r.task_id r.attempt db.tables ≡ 1)
        × (e
            ≡ committed (record {
              sequence = next_sequence r db.tables;
              created_at = created_at;
              event_record = r;
            }))
        × (db'.tables ≡ record db.tables {
          runtime_events =
              db.tables.runtime_events
              ++ row_of r payload created_at (next_sequence r db.tables) ∷ [];
        })
  unfolding write_event
  write_event-eq-ok r payload created_at db h =
      let (found, d₁, e₁, h₁) = bind-eq-ok (perform codec engine _) _ h in
      let (_, d₂, e₂, h₂) = bind-eq-ok (refuse_when (not (found == 1)) _) _ h₁ in
      let (n, d₃, e₃, h₃) = bind-eq-ok (perform codec engine _) _ h₂ in
      let (_, d₄, e₄, h₄) = bind-eq-ok (perform codec engine (insert_event codec engine _)) _ h₃ in
      let (counted, t₁) = query_as-eq-ok _ db e₁ in
      let (guarded, s₂) = refuse_when-eq-ok (not (found == 1)) _ e₂ in
      let (numbered, t₃) = query_as-eq-ok _ d₂ e₃ in
      let t₂ : d₂.tables ≡ db.tables = ap (λ d. d.tables) s₂ ∙ t₁ in
      let t₄ = insert_event-eq-ok _ d₃ e₄ in
      let (ends, s₅) = pure-eq-ok h₄ in
      let n≡ : n ≡ next_sequence r db.tables = sym (ok_inj numbered) ∙ ap (next_sequence r) t₂ in
      (
        ok_inj counted ∙ is_one found guarded,
        ends
            ∙ ap {A = ℕ} {B = Ending (StoredRuntimeEvent F)}
                (λ k.
                  committed (record { sequence = k; created_at = created_at; event_record = r }))
                n≡,
        ap (λ d. d.tables) s₅
            ∙ t₄
            ∙ ap {A = Tables} {B = Tables}
                (λ t. record t {
                  runtime_events = t.runtime_events ++ row_of r payload created_at n ∷ [];
                })
                (t₃ ∙ t₂)
            ∙ ap {A = ℕ} {B = Tables}
                (λ k. record db.tables {
                  runtime_events = db.tables.runtime_events ++ row_of r payload created_at k ∷ [];
                })
                n≡,
      )
    where
      is_one : (k : ℕ) → not (k == 1) ≡ false → k ≡ 1
      is_one k g = ground arith

  append_bounded-IsAppended :
      (created_at : String) (r : RuntimeEventRecord F) (db : Database)
      {stored : StoredRuntimeEvent F} {db' : Database}
      → append_bounded codec engine created_at r db ≡ (ok stored, db')
      → IsAppended created_at r db.tables stored db'.tables
  unfolding append_bounded
  append_bounded-IsAppended created_at r db {stored} {db'} h =
      let (_, d₁, e₁, h₁) = bind-eq-ok (refuse_when (not (is_durable (policy r.event))) _) _ h in
      let (payload, d₂, e₂, h₂) =
        bind-eq-ok (of_result (map_err json (codec.record_json r))) _ h₁ in
      let (_, d₃, e₃, h₃) =
        bind-eq-ok (refuse_when (ltb max_durable_runtime_payload_bytes (len payload)) _) _ h₂ in
      let (kept, s₁) = refuse_when-eq-ok _ _ e₁ in
      let (short, s₃) =
        refuse_when-eq-ok (ltb max_durable_runtime_payload_bytes (len payload)) _ e₃ in
      let (start, end, began, ending) = transaction_as-eq-ok sqlite engine _ d₃ h₃ in
      let T : start.tables ≡ db.tables =
        began
        ∙ ap (λ d. d.tables) s₃
        ∙ ap (λ d. d.tables)
            (sym (
              ap {A = Result RuntimeEventStoreError String × Database} {B = Database} (λ p. p.1)
                e₂))
        ∙ ap (λ d. d.tables) s₁ in
      elim ending [
        | inl (body, t) ↦
            let (attempted, same, more) = write_event-eq-ok r payload created_at start body in
            subst (λ t. IsAppended created_at r t stored db'.tables) T
              (record {
                attempted = attempted;
                is_durable_event = not-not _ kept;
                payload = payload;
                written = map_err-eq-ok json (codec.record_json r) (
                    ap {A = Result RuntimeEventStoreError String × Database}
                      {B = Result RuntimeEventStoreError String} (λ p. p.0) e₂);
                short = ground arith;
                stored_record = committed_inj same;
                one_more = t ∙ more;
              })
        | inr (body, t) ↦
            absurd (dropped-ne-committed (write_event-eq-ok r payload created_at start body).1)
      ]

  -- An append that returns has stored the bounded record under the next number of its attempt, and
  -- changed nothing else: the attempt has exactly one row, the event is durable, and its JSON text
  -- keeps the ceiling.
  pub append_runtime_event-IsAppended :
      (created_at : String) (r : RuntimeEventRecord F) (db : Database)
      (stored : StoredRuntimeEvent F) (db' : Database)
      → append_runtime_event codec engine created_at r db ≡ (ok stored, db')
      → IsAppended created_at (bound codec engine r) db.tables stored db'.tables
  unfolding append_runtime_event
  append_runtime_event-IsAppended created_at r db stored db' h =
      append_bounded-IsAppended created_at (bound codec engine r) db h
