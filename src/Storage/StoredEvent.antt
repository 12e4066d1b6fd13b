-- ===== src/Storage/StoredEvent.antt =====
-- A stored runtime event of crates/agentmosaic-storage/src/board.rs, the errors of the log, and
-- `decode_stored_runtime_event`. `Codec` has what the code uses of the JSON serializer.
use Prim.Native.String
use Prim.Native.String.{len}
use research_agent_system.Common.{
  ℕ, String, Bool, ◌||◌, not, ◌==◌, nat_eq, string_eq, Result, ok, map_err,
}
use research_agent_system.Common.Fallible.{◌>>=◌, ◌>>◌, refuse_if}
use research_agent_system.Common.Decimal.{decimal}
use research_agent_system.Events.RuntimeEvent.{RuntimeEvent, RuntimeEventRecord, kind}
use research_agent_system.Storage.Database.{EventRow}

infixr 65 ◌^◌
abbrev ◌^◌ : String → String → String
s ^ t = String.◌++◌ s t

pub record Codec (F : Type 0) : Type 0 where
  pub is_finite : F → Bool
  pub event_json : RuntimeEvent F → Result String String
  pub record_json : RuntimeEventRecord F → Result String String
  pub read_record : String → Result String (RuntimeEventRecord F)

pub record StoredRuntimeEvent (F : Type 0) : Type 0 where
  pub sequence : ℕ
  pub created_at : String
  pub event_record : RuntimeEventRecord F

pub data RuntimeEventStoreError : Type 0 where
  sqlite : String → RuntimeEventStoreError
  json : String → RuntimeEventStoreError
  live_only_event : String → RuntimeEventStoreError
  missing_attempt : (task_id attempt : ℕ) → RuntimeEventStoreError
  corrupt : String → RuntimeEventStoreError
  payload_too_large : ℕ → RuntimeEventStoreError

-- `Display`
unfoldable pub store_error_text : RuntimeEventStoreError → String
store_error_text (sqlite text) = "runtime event storage: " ^ text
store_error_text (json text) = "runtime event JSON: " ^ text
store_error_text (live_only_event kind) = "runtime event `" ^ kind ^ "` is live-only"
store_error_text (missing_attempt task attempt) =
    "task " ^ decimal task ^ " has no attempt " ^ decimal attempt
store_error_text (corrupt detail) = "corrupt runtime event: " ^ detail
store_error_text (payload_too_large bytes) =
    "runtime event payload is " ^ decimal bytes ^ " bytes; maximum is 32768"

-- `decode_stored_runtime_event`
unfoldable pub decode_stored :
    {F : Type 0} → Codec F → ℕ → ℕ → EventRow → Result RuntimeEventStoreError (StoredRuntimeEvent F)
decode_stored codec task attempt row = do
  r ← map_err json (codec.read_record row.payload_json)
  refuse_if (not (r.task_id == task) || not (r.attempt == attempt))
      (corrupt "payload task/attempt does not match row")
  refuse_if (not (kind r.event == row.event_kind)) (
      corrupt
        ("row kind `" ^ row.event_kind ^ "` does not match payload kind `" ^ kind r.event ^ "`"))
  ok (record { sequence = row.sequence; created_at = row.created_at; event_record = r })
