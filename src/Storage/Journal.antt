-- ===== src/Storage/Journal.antt =====
-- The runtime event log of crates/agentmosaic-storage/src/board.rs: `append_runtime_event`,
-- `runtime_events` and `latest_runtime_events`. The clock is an argument.
use Prim.Native.String.{len}
use research_agent_system.Common.{
  ℕ, ◌-◌, ℤ, pos, negsuc, suc, String, Bool, true, false, ◌&&◌, ◌||◌, not, Option, none, some, List,
  [], ◌∷◌, ◌++◌, filter, reverse, take, any, length, sort_by, min, if◌then◌else◌, ◌==◌, nat_eq,
  string_eq, ltb, leb, Result, ok, err, Exec, ◌>>=◌, ◌>>◌, pure, refuse_when, of_result, map_err,
}
use Prim.Native.Nat.{max}
use research_agent_system.Common.Fallible.{collect}
use research_agent_system.Events.RuntimeEvent.{
  RuntimeEventPolicy, live_only, durable, private_drop, RuntimeEventRecord, kind, policy,
}
use research_agent_system.Events.Bounded.{bounded_record, max_durable_runtime_payload_bytes}
use research_agent_system.Storage.Database.{
  EventRow, Tables, Engine, Database, Statement, Ending, committed, execute_as, transaction_as,
}
use research_agent_system.Storage.Writes.{dangling}
use research_agent_system.Storage.Reads.{query}
use research_agent_system.Storage.StoredEvent.{
  Codec, StoredRuntimeEvent, RuntimeEventStoreError, sqlite, json, live_only_event, missing_attempt,
  payload_too_large, decode_stored,
}

abbrev pub max_runtime_event_query : ℕ
max_runtime_event_query = 1000

abbrev pub is_durable : RuntimeEventPolicy → Bool
is_durable durable = true
is_durable live_only = false
is_durable private_drop = false

abbrev pub size_of : Result String String → Option ℕ
size_of (ok text) = some (len text)
size_of (err e) = none

abbrev pub is_event : ℕ → ℕ → EventRow → Bool
is_event task attempt r = r.team_task_id == task && r.attempt == attempt

-- `COALESCE(MAX(sequence), 0)`
unfoldable pub highest : List EventRow → ℕ
highest [] = 0
highest (r ∷ rows) = max r.sequence (highest rows)

-- `COUNT(*)` of the attempt's rows in `team_task_runs`
abbrev pub count_attempts : ℕ → ℕ → Tables → ℕ
count_attempts task attempt t =
    length (filter (λ r. r.task_id == task && r.attempt == attempt) t.team_task_runs)

abbrev pub by_sequence : EventRow → EventRow → Bool
by_sequence a b = leb a.sequence b.sequence

-- `n as i64`, for a u64: from 2^63 on it is negative.
unfoldable pub as_i64 : ℕ → ℤ
as_i64 n = if ltb n 9223372036854775808 then pos n else negsuc (18446744073709551615 - n)

-- `sequence > after`
abbrev pub is_after : ℤ → EventRow → Bool
is_after (pos after) r = ltb after r.sequence
is_after (negsuc _) r = true

-- WHERE team_task_id=?1 AND attempt=?2 AND sequence>?3 ORDER BY sequence LIMIT ?4
unfoldable pub page : ℕ → ℕ → ℤ → ℕ → List EventRow → List EventRow
page task attempt after limit rows =
    take limit (sort_by by_sequence (filter (is_after after) (filter (is_event task attempt) rows)))

module _ {F : Type 0} (codec : Codec F) (engine : Engine) where
  abbrev pub Store : Type 0 → Type 0
  Store A = Exec Database RuntimeEventStoreError A

  abbrev pub perform : {A : Type 0} → Statement A → Store A
  perform = execute_as sqlite engine

  -- INSERT INTO runtime_events, with its foreign key and its UNIQUE constraint
  unfoldable pub insert_event : EventRow → Statement (Unit {0})
  insert_event row t =
      if dangling engine row.team_task_id t
        || any (λ r. r.sequence == row.sequence)
            (filter (is_event row.team_task_id row.attempt) t.runtime_events)
      then err engine.constraint_text
      else ok (tt, record t { runtime_events = t.runtime_events ++ row ∷ [] })

  -- what the transaction does, between BEGIN and COMMIT
  unfoldable pub write_event :
      RuntimeEventRecord F → String → String → Store (Ending (StoredRuntimeEvent F))
  write_event r payload created_at = do
    found ← perform (query (λ t. ok (count_attempts r.task_id r.attempt t)))
    refuse_when (not (found == 1)) (missing_attempt r.task_id r.attempt)
    sequence ←
        perform
          (query (λ t. ok (suc (highest (filter (is_event r.task_id r.attempt) t.runtime_events)))))
    perform (
        insert_event (record {
          team_task_id = r.task_id;
          attempt = r.attempt;
          sequence = sequence;
          event_kind = kind r.event;
          payload_json = payload;
          created_at = created_at;
        }))
    pure (committed (record { sequence = sequence; created_at = created_at; event_record = r }))

  unfoldable pub bound : RuntimeEventRecord F → RuntimeEventRecord F
  bound =
      bounded_record codec.is_finite (λ e. size_of (codec.event_json e))
        (λ r. size_of (codec.record_json r))

  -- `append_runtime_event` on the bounded record
  unfoldable pub append_bounded : String → RuntimeEventRecord F → Store (StoredRuntimeEvent F)
  append_bounded created_at r = do
    refuse_when (not (is_durable (policy r.event))) (live_only_event (kind r.event))
    payload ← of_result (map_err json (codec.record_json r))
    refuse_when (ltb max_durable_runtime_payload_bytes (len payload))
        (payload_too_large (len payload))
    transaction_as sqlite engine (write_event r payload created_at)

  unfoldable pub append_runtime_event : String → RuntimeEventRecord F → Store (StoredRuntimeEvent F)
  append_runtime_event created_at r = append_bounded created_at (bound r)

  unfoldable pub runtime_events : ℕ → ℕ → ℕ → ℕ → Store (List (StoredRuntimeEvent F))
  runtime_events task attempt after_sequence limit =
      let bounded_limit = min limit max_runtime_event_query in
      if bounded_limit == 0 then pure [] else do
        rows ← perform (
            query
              (λ t. ok (page task attempt (as_i64 after_sequence) bounded_limit t.runtime_events)))
        of_result (collect (decode_stored codec task attempt) rows)

  -- WHERE team_task_id=?1 ORDER BY id DESC LIMIT ?2, and the reversal of what was read
  unfoldable pub latest_runtime_events : ℕ → ℕ → Store (List (StoredRuntimeEvent F))
  latest_runtime_events task limit =
      let bounded_limit = min limit max_runtime_event_query in
      if bounded_limit == 0 then pure [] else do
        rows ← perform (
            query (λ t. ok (
              take bounded_limit
                (reverse (filter (λ r. r.team_task_id == task) t.runtime_events)))))
        events ← of_result (collect (λ r. decode_stored codec task r.attempt r) rows)
        pure (reverse events)
