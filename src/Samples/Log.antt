-- ===== src/Samples/Log.antt =====
-- The theorems on the runtime event log, the bindings and the collaborations, at a board with one
-- attempt. The serializer is one that writes the number of the task and reads the record below.
use research_agent_system.Common.{
  ℕ, ◌-◌, ◌+◌, ◌++◌, length, ◌&&◌, ◌==◌, nat_eq, true, false, none, some, subst, filter, [], ◌∷◌,
  find, take, ◌≡◌, refl, Result, ok, arith,
}
use research_agent_system.Events.RuntimeEvent.{RuntimeEventRecord, session_started, kind, policy}
use research_agent_system.Events.Bounded.{
  bounded, bounded_record, bound_record, bound_fields, shrink, droppable, truncate_id,
}
use research_agent_system.Events.Text.{truncate}
use research_agent_system.Storage.Database.{
  Database, EventRow, CollaborationRow, execute_as, transaction_as,
}
use research_agent_system.Storage.Reads.{query}
use research_agent_system.Storage.StoredEvent.{Codec, StoredRuntimeEvent, RuntimeEventStoreError}
use research_agent_system.Storage.Journal.{
  as_i64, is_event, page, highest, insert_event, write_event, bound, append_bounded,
  append_runtime_event, runtime_events,
}
use research_agent_system.Storage.Numbered.{IsNumbered, skip, first_row, page-eq}
use research_agent_system.Storage.Appended.{IsAppended, append_runtime_event-IsAppended}
use research_agent_system.Storage.Logged.{append_runtime_event-IsNumbered}
use research_agent_system.Storage.Reread.{runtime_events-append_runtime_event}
use research_agent_system.Storage.Bindings.{
  ExtendedExternalRuntimeBinding, is_binding, upsert_row, upsert, binding_row, extended_row,
  update_extended, upsert_external_binding_extended, external_binding_extended, insert_call,
  record_runtime_collaboration,
}
use research_agent_system.Storage.Bound.{over, external_binding_extended-upsert}
use research_agent_system.Storage.Collaborations.{record_runtime_collaboration-again}
use research_agent_system.Samples.Fixture.{quiet, busy}

abbrev session : RuntimeEventRecord ℕ
session = record {
  task_id = 2;
  attempt = 1;
  agent_id = "b";
  runtime_name = none;
  native_session_id = none;
  event = session_started "s-1";
}

abbrev short_json : Codec ℕ
short_json = record {
  is_finite = λ c. true;
  event_json = λ e. ok "{}";
  record_json = λ r. ok "{}";
  read_record = λ text. ok session;
}

abbrev stored_session : StoredRuntimeEvent ℕ
stored_session = record { sequence = 1; created_at = "1700000000"; event_record = session }

abbrev session_row : EventRow
session_row = record {
  team_task_id = 2;
  attempt = 1;
  sequence = 1;
  event_kind = "session_started";
  payload_json = "{}";
  created_at = "1700000000";
}

abbrev logged_board : Database
logged_board = record {
  tables = record (busy.tables) { runtime_events = session_row ∷ [] };
  executed = 5;
}

appends :
    append_runtime_event short_json quiet "1700000000" session busy
    ≡ (ok stored_session, logged_board)
unfolding append_runtime_event append_bounded bound bounded_record bound_record bounded bound_fields
    shrink droppable truncate_id truncate transaction_as execute_as write_event insert_event highest
    query kind policy
appends = refl

busy-IsNumbered : IsNumbered busy.tables.runtime_events
busy-IsNumbered task attempt = tt

append_runtime_event-IsAppended_example :
    IsAppended short_json quiet "1700000000"
      (bound short_json quiet session)
      busy.tables
      stored_session
      logged_board.tables
append_runtime_event-IsAppended_example =
    append_runtime_event-IsAppended short_json quiet "1700000000" session busy stored_session
      logged_board appends

append_runtime_event-IsNumbered_example :
    IsNumbered
      (append_runtime_event short_json quiet "1700000000" session busy).1.tables.runtime_events
append_runtime_event-IsNumbered_example =
    append_runtime_event-IsNumbered short_json quiet "1700000000" session busy busy-IsNumbered

logged-IsNumbered : IsNumbered logged_board.tables.runtime_events
logged-IsNumbered =
    subst {A = Result RuntimeEventStoreError (StoredRuntimeEvent ℕ) × Database}
      (λ p. IsNumbered p.1.tables.runtime_events) appends
      (append_runtime_event-IsNumbered short_json quiet "1700000000" session busy busy-IsNumbered)

page-eq_example :
    (page 2 1 (as_i64 0) 10 logged_board.tables.runtime_events
      ≡ take 10 (skip (first_row 0) (filter (is_event 2 1) logged_board.tables.runtime_events)))
    × (page 2 1 (as_i64 0) 10 logged_board.tables.runtime_events
          ++ page 2 1
              (as_i64
                (first_row 0 + length (page 2 1 (as_i64 0) 10 logged_board.tables.runtime_events)))
              5
              logged_board.tables.runtime_events
        ≡ page 2 1 (as_i64 0) (10 + 5) logged_board.tables.runtime_events)
page-eq_example =
    page-eq logged_board.tables.runtime_events 2 1 0 10 5 logged-IsNumbered (omega arith)

session-reads : short_json.read_record "{}" ≡ ok (bound short_json quiet session)
unfolding bound bounded_record bound_record bounded bound_fields shrink droppable truncate_id
    truncate
session-reads = refl

runtime_events-append_runtime_event_example :
    (runtime_events short_json quiet 2 1 (1 - 1) 10 logged_board).0 ≡ ok (stored_session ∷ [])
runtime_events-append_runtime_event_example =
    runtime_events-append_runtime_event short_json quiet "1700000000" session busy stored_session
      logged_board 10 busy-IsNumbered (omega arith) appends (λ text h. session-reads) (omega arith)
      refl

abbrev codex_binding : ExtendedExternalRuntimeBinding
codex_binding = record {
  binding = record {
    team_task_id = 2;
    attempt = 1;
    agent_id = "b";
    runtime_kind = "codex";
    native_thread_id = some "thread";
    native_turn_id = none;
    lifecycle_state = "starting";
  };
  runtime_name = some "codex";
  runtime_version = none;
  protocol_kind = none;
  protocol_version = none;
  capabilities_json = none;
  started_at = some "1700000000";
  finished_at = none;
}

abbrev starting_board : Database
starting_board = record {
  tables = record (busy.tables) { bindings = extended_row codex_binding ∷ [] };
  executed = 1;
}

binds : upsert_external_binding_extended quiet codex_binding busy ≡ (ok tt, starting_board)
unfolding upsert_external_binding_extended upsert upsert_row extended_row binding_row execute_as
binds = refl

-- Later news of the same attempt, which leaves most columns empty.
abbrev running_binding : ExtendedExternalRuntimeBinding
running_binding = record codex_binding {
  binding = record (codex_binding.binding) { native_thread_id = none; lifecycle_state = "running" };
  runtime_name = none;
  started_at = some "1700000001";
}

abbrev running_board : Database
running_board = (upsert_external_binding_extended quiet running_binding starting_board).1

rebinds :
    upsert_external_binding_extended quiet running_binding starting_board ≡ (ok tt, running_board)
unfolding upsert_external_binding_extended upsert upsert_row binding_row extended_row
    update_extended execute_as
rebinds = refl

external_binding_extended-upsert_example :
    ((external_binding_extended quiet 2 1 running_board).0
      ≡ ok (some (over running_binding (find (is_binding 2 1) starting_board.tables.bindings))))
    × ((task attempt : ℕ)
        → (2 == task && 1 == attempt) ≡ false
        → find (is_binding task attempt) running_board.tables.bindings
          ≡ find (is_binding task attempt) starting_board.tables.bindings)
external_binding_extended-upsert_example =
    external_binding_extended-upsert quiet running_binding starting_board running_board rebinds refl

abbrev ask : CollaborationRow
ask = record {
  team_task_id = 2;
  attempt = 1;
  runtime_kind = "codex";
  native_call_id = "call-1";
  kind = "ask";
  payload_summary = "which file?";
  response_summary = none;
}

abbrev asked_board : Database
asked_board = record { tables = record (busy.tables) { collaborations = ask ∷ [] }; executed = 1 }

asks : record_runtime_collaboration quiet ask busy ≡ (ok true, asked_board)
unfolding record_runtime_collaboration insert_call execute_as
asks = refl

record_runtime_collaboration-again_example :
    ((record_runtime_collaboration quiet ask asked_board).0 ≡ ok false)
    × ((record_runtime_collaboration quiet ask asked_board).1.tables ≡ asked_board.tables)
record_runtime_collaboration-again_example =
    record_runtime_collaboration-again quiet ask ask busy true asked_board asks refl refl refl
