-- ===== src/Storage/Reread.antt =====
-- What `append_runtime_event` of crates/agentmosaic-storage/src/board.rs stored is what
-- `runtime_events` reads after the number before it.
use research_agent_system.Common.{
  ℕ, zero, suc, ◌-◌, ◌≤◌, ◌<◌, String, true, false, ◌&&◌, none, List, [], ◌∷◌, ◌++◌, filter, take,
  length, if◌then◌else◌, ◌==◌, nat_eq, string_eq, eq_self, min, ◌≡◌, refl, sym, ap, ◌∙◌, subst,
  arith, ok,
}
use research_agent_system.Common.Fallible.{collect, collect-one}
use research_agent_system.Events.RuntimeEvent.{RuntimeEventRecord, kind}
use research_agent_system.Storage.Database.{EventRow, Engine, Database, execute_as}
use research_agent_system.Storage.Reads.{query}
use research_agent_system.Storage.StoredEvent.{Codec, StoredRuntimeEvent, decode_stored}
use research_agent_system.Storage.Journal.{
  as_i64, is_event, highest, page, bound, append_runtime_event, runtime_events,
  max_runtime_event_query,
}
use research_agent_system.Storage.Numbered.{
  IsNumbered, highest-length, skip, take-nil, page-slice, length-filter-le, small-first_row,
}
use research_agent_system.Storage.Appended.{row_of, next_sequence, append_runtime_event-IsAppended}
use research_agent_system.Storage.Logged.{filter-snoc, IsNumbered-snoc}

skip-snoc :
    (rows : List EventRow) (row : EventRow) (n : ℕ)
    → n ≡ length rows
    → skip n (rows ++ row ∷ []) ≡ row ∷ []
unfolding skip
skip-snoc [] row zero h = refl
skip-snoc [] row (suc n) h = absurd (omega arith)
skip-snoc (r ∷ rows) row zero h = absurd (omega arith)
skip-snoc (r ∷ rows) row (suc n) h = skip-snoc rows row n (omega arith)

-- The page after the number before the last row of an attempt is that row.
page-last :
    (rows : List EventRow) (row : EventRow) (limit : ℕ)
    → IsNumbered rows
    → length rows < 9223372036854775808
    → row.sequence ≡ suc (highest (filter (is_event row.team_task_id row.attempt) rows))
    → page row.team_task_id row.attempt (as_i64 (row.sequence - 1)) (suc limit) (rows ++ row ∷ [])
      ≡ row ∷ []
page-last rows row limit numbered few h =
    let mine = filter (is_event row.team_task_id row.attempt) rows in
    let last : row.sequence - 1 ≡ length mine =
      omega (arith, h, highest-length mine (numbered row.team_task_id row.attempt)) in
    let fits : row.sequence - 1 < 9223372036854775808 =
      omega (arith, last, few, length-filter-le (is_event row.team_task_id row.attempt) rows) in
    page-slice (rows ++ row ∷ []) row.team_task_id row.attempt (row.sequence - 1) (suc limit)
      (IsNumbered-snoc rows row numbered h)
    ∙ ap
        (λ k.
          take (suc limit)
            (skip k (filter (is_event row.team_task_id row.attempt) (rows ++ row ∷ []))))
        (small-first_row (row.sequence - 1) fits)
    ∙ ap (λ l. take (suc limit) (skip (row.sequence - 1) l))
        (filter-snoc (is_event row.team_task_id row.attempt) rows row
          ∙ ap (λ b. if b then mine ++ row ∷ [] else mine) (own row.team_task_id row.attempt))
    ∙ ap (take (suc limit)) (skip-snoc mine row (row.sequence - 1) last)
    ∙ ap (λ l. row ∷ l) (take-nil limit)
  where
    own : (t a : ℕ) → (t == t && a == a) ≡ true
    own t a = ground arith

module _ {F : Type 0} (codec : Codec F) (engine : Engine) where
  -- A query that the engine lets through answers what it reads.
  runtime_events-eq :
      (task attempt after limit k : ℕ) (db : Database) (rows : List EventRow)
      (events : List (StoredRuntimeEvent F))
      → min limit max_runtime_event_query ≡ suc k
      → engine.fails db.executed ≡ none
      → page task attempt (as_i64 after) (suc k) db.tables.runtime_events ≡ rows
      → collect (decode_stored codec task attempt) rows ≡ ok events
      → (runtime_events codec engine task attempt after limit db).0 ≡ ok events
  unfolding runtime_events execute_as query
  runtime_events-eq task attempt after limit k db rows events e works paged read =
      rw e (rw (positive k) (rw works (rw paged (rw read refl))))
    where
      positive : (k : ℕ) → (suc k == 0) ≡ false
      positive k = ground arith

  decode-row :
      (r : RuntimeEventRecord F) (payload created_at : String) (sequence : ℕ)
      → codec.read_record payload ≡ ok r
      → decode_stored codec r.task_id r.attempt (row_of codec engine r payload created_at sequence)
        ≡ ok (record { sequence = sequence; created_at = created_at; event_record = r })
  unfolding decode_stored
  decode-row r payload created_at sequence h =
      rw h (rw (eq_self r.task_id) (rw (eq_self r.attempt) (rw (eq_self (kind r.event)) refl)))

  -- If the serializer reads the record that it wrote, an event that was appended to a numbered log of
  -- fewer than 2^63 rows
  -- is what the log answers to a query for the events after the number before it, whatever the
  -- limit of the query is but zero, as long as SQLite executes the query.
  pub runtime_events-append_runtime_event :
      (created_at : String) (r : RuntimeEventRecord F) (db : Database)
      (stored : StoredRuntimeEvent F) (db' : Database) (limit : ℕ)
      → IsNumbered db.tables.runtime_events
      → length db.tables.runtime_events < 9223372036854775808
      → append_runtime_event codec engine created_at r db ≡ (ok stored, db')
      → ((text : String)
          → codec.record_json (bound codec engine r) ≡ ok text
          → codec.read_record text ≡ ok (bound codec engine r))
      → 1 ≤ limit
      → engine.fails db'.executed ≡ none
      → (runtime_events codec engine stored.event_record.task_id stored.event_record.attempt
          (stored.sequence - 1)
          limit
          db').0
        ≡ ok (stored ∷ [])
  runtime_events-append_runtime_event created_at r db stored db' limit numbered few h reads
        some_limit works =
      let b : RuntimeEventRecord F = bound codec engine r in
      let done = append_runtime_event-IsAppended codec engine created_at r db stored db' h in
      let row : EventRow =
        row_of codec engine b done.payload created_at (next_sequence codec engine b db.tables) in
      let (k, e) = capped limit some_limit in
      subst
        (λ s.
          (runtime_events codec engine s.event_record.task_id s.event_record.attempt
            (s.sequence - 1) limit db').0
          ≡ ok (s ∷ []))
        (sym done.stored_record)
        (runtime_events-eq b.task_id b.attempt (row.sequence - 1) limit k db' (row ∷ []) _ e works
          (ap (λ t. page b.task_id b.attempt (as_i64 (row.sequence - 1)) (suc k) t.runtime_events)
              done.one_more
            ∙ page-last db.tables.runtime_events row k numbered few refl)
          (collect-one (decode_stored codec b.task_id b.attempt) row
            (decode-row b done.payload created_at row.sequence (reads done.payload done.written))))
    where
      capped : (n : ℕ) → 1 ≤ n → (k : ℕ) × (min n max_runtime_event_query ≡ suc k)
      capped n h = (min n max_runtime_event_query - 1, omega arith)
