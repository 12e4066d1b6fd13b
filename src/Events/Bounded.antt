-- ===== src/Events/Bounded.antt =====
-- `RuntimeEvent::bounded` and `RuntimeEventRecord::bounded` of
-- crates/agentmosaic-team/src/runtime_event.rs.
--
-- The serializer is a parameter: the number of bytes of the JSON text, if there is one. The loop
-- that drops the last item has one round of fuel for each item, and stops by itself before.
use mathlib.Core.Option
use research_agent_system.Common.{
  ℕ, zero, suc, ◌*◌, String, Bool, true, false, Option, none, some, List, [], ◌∷◌, map, length,
  take, if◌then◌else◌, ltb,
}
use research_agent_system.Events.Text.{truncate}
use research_agent_system.Events.RuntimeEvent.{
  RuntimePlanItem, RuntimePermissionOption, RuntimePermissionDecision, allowed, RuntimeEvent,
  session_started, session_resumed, assistant_message_delta, assistant_message_completed,
  reasoning_summary, plan_updated, tool_call_started, tool_call_updated, tool_call_completed,
  command_started, command_completed, file_changed, permission_requested, permission_resolved,
  subagent_started, subagent_completed, usage_updated, runtime_warning, runtime_error,
  checkpoint_created, RuntimeEventRecord,
}

abbrev pub max_runtime_id_bytes : ℕ
max_runtime_id_bytes = 512

abbrev pub max_runtime_summary_bytes : ℕ
max_runtime_summary_bytes = 4 * 1024

abbrev pub max_assistant_message_bytes : ℕ
max_assistant_message_bytes = 16 * 1024

abbrev pub max_command_bytes : ℕ
max_command_bytes = 8 * 1024

abbrev pub max_plan_item_bytes : ℕ
max_plan_item_bytes = 2 * 1024

abbrev pub max_plan_items : ℕ
max_plan_items = 64

abbrev pub max_permission_options : ℕ
max_permission_options = 64

abbrev pub max_durable_runtime_payload_bytes : ℕ
max_durable_runtime_payload_bytes = 32 * 1024

-- `while over(x) { if !pop(&mut x) { break; } }`, for at most as many rounds as the fuel.
unfoldable pub shrink {ℓ} : {X : Type ℓ} → (X → Bool) → (X → Option X) → ℕ → X → X
shrink over pop zero x = x
shrink over pop (suc n) x = elim (over x) [
  | false ↦ x
  | true ↦ elim (pop x) [ none ↦ x | some y ↦ shrink over pop n y ]
]

-- `Vec::pop`: what is left, if there was a last element.
unfoldable pub pop {ℓ} : {A : Type ℓ} → List A → Option (List A)
pop [] = none
pop (x ∷ []) = some []
pop (x ∷ y ∷ ys) = Option.map (λ zs. x ∷ zs) (pop (y ∷ ys))

unfoldable pub truncate_id : String → String
truncate_id text = truncate text max_runtime_id_bytes

unfoldable pub truncate_summary : String → String
truncate_summary text = truncate text max_runtime_summary_bytes

unfoldable pub bound_item : RuntimePlanItem → RuntimePlanItem
bound_item item = record {
  text = truncate item.text max_plan_item_bytes;
  status = Option.map truncate_id item.status;
}

unfoldable pub bound_option : RuntimePermissionOption → RuntimePermissionOption
bound_option option = record {
  option_id = truncate_id option.option_id;
  label = truncate_id option.label;
}

unfoldable pub bound_decision : RuntimePermissionDecision → RuntimePermissionDecision
bound_decision (allowed option_id) = allowed (Option.map truncate_id option_id)
bound_decision decision = decision

-- `filter` on an `Option`
abbrev pub keep_if {ℓ} : {A : Type ℓ} → (A → Bool) → Option A → Option A
keep_if p none = none
keep_if p (some a) = if p a then some a else none

module _ {F : Type 0} (is_finite : F → Bool) where
  -- the bounds on the fields
  unfoldable pub bound_fields : RuntimeEvent F → RuntimeEvent F
  bound_fields (session_started id) = session_started (truncate_id id)
  bound_fields (session_resumed id) = session_resumed (truncate_id id)
  bound_fields (assistant_message_delta text) = assistant_message_delta (truncate_summary text)
  bound_fields (assistant_message_completed text) =
      assistant_message_completed (truncate text max_assistant_message_bytes)
  bound_fields (reasoning_summary text) = reasoning_summary (truncate_summary text)
  bound_fields (plan_updated items) = plan_updated (map bound_item (take max_plan_items items))
  bound_fields (tool_call_started id tool input) =
      tool_call_started (truncate_id id) (truncate_id tool) (truncate_summary input)
  bound_fields (tool_call_updated id status output) =
      tool_call_updated (truncate_id id) (truncate_id status) (Option.map truncate_summary output)
  bound_fields (tool_call_completed id tool done output) =
      tool_call_completed (truncate_id id) (truncate_id tool) done (truncate_summary output)
  bound_fields (command_started id command) =
      command_started (truncate_id id) (truncate command max_command_bytes)
  bound_fields (command_completed id code output) =
      command_completed (truncate_id id) code (truncate_summary output)
  bound_fields (file_changed path change) = file_changed (truncate_summary path) change
  bound_fields (permission_requested id action options) =
      permission_requested (truncate_id id) (truncate_summary action)
        (map bound_option (take max_permission_options options))
  bound_fields (permission_resolved id decision) =
      permission_resolved (truncate_id id) (bound_decision decision)
  bound_fields (subagent_started id parent) =
      subagent_started (truncate_id id) (Option.map truncate_id parent)
  bound_fields (subagent_completed id status) =
      subagent_completed (truncate_id id) (truncate_id status)
  bound_fields (usage_updated input cached output reasoning cost) =
      usage_updated input cached output reasoning (keep_if is_finite cost)
  bound_fields (runtime_warning code message) =
      runtime_warning (Option.map truncate_id code) (truncate_summary message)
  bound_fields (runtime_error code message) =
      runtime_error (Option.map truncate_id code) (truncate_summary message)
  bound_fields (checkpoint_created id) = checkpoint_created (Option.map truncate_id id)

module _ {F : Type 0} where
  -- `items.pop().is_some()` and the event without that item
  unfoldable pub drop_last : RuntimeEvent F → Option (RuntimeEvent F)
  drop_last (plan_updated items) = Option.map plan_updated (pop items)
  drop_last (permission_requested id action options) =
      Option.map (permission_requested id action) (pop options)
  drop_last event = none

  -- how many items there are to drop
  unfoldable pub droppable : RuntimeEvent F → ℕ
  droppable (plan_updated items) = length items
  droppable (permission_requested id action options) = length options
  droppable event = 0

  unfoldable pub drop_last_of_record : RuntimeEventRecord F → Option (RuntimeEventRecord F)
  drop_last_of_record r = Option.map (λ e. record r { event = e }) (drop_last r.event)

-- `.map(|json| json.len() > MAX_DURABLE_RUNTIME_PAYLOAD_BYTES).unwrap_or(false)`
abbrev pub over_ceiling : Option ℕ → Bool
over_ceiling none = false
over_ceiling (some size) = ltb max_durable_runtime_payload_bytes size

module _ {F : Type 0} (is_finite : F → Bool) (event_size : RuntimeEvent F → Option ℕ) where
  -- `RuntimeEvent::bounded`
  unfoldable pub bounded : RuntimeEvent F → RuntimeEvent F
  bounded e =
      let b = bound_fields is_finite e in
      shrink (λ x. over_ceiling (event_size x)) drop_last (droppable b) b

  -- the bounds on the fields of a record
  unfoldable pub bound_record : RuntimeEventRecord F → RuntimeEventRecord F
  bound_record r = record {
    task_id = r.task_id;
    attempt = r.attempt;
    agent_id = truncate_id r.agent_id;
    runtime_name = Option.map truncate_id r.runtime_name;
    native_session_id = Option.map truncate_id r.native_session_id;
    event = bounded r.event;
  }

  -- `RuntimeEventRecord::bounded`
  unfoldable pub bounded_record :
      (RuntimeEventRecord F → Option ℕ) → RuntimeEventRecord F → RuntimeEventRecord F
  bounded_record record_size r =
      let b = bound_record r in
      shrink (λ x. over_ceiling (record_size x)) drop_last_of_record (droppable b.event) b
