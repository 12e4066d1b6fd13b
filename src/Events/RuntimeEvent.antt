-- ===== src/Events/RuntimeEvent.antt =====
-- The types of crates/agentmosaic-team/src/runtime_event.rs: what an external runtime reports, its
-- kind, and who may see it. `F` is f64.
use research_agent_system.Common.{ℕ, String, Bool, Option, List}

pub data RuntimeEventPolicy : Type 0 where
  live_only durable private_drop : RuntimeEventPolicy

pub data PrivateRuntimeInput : Type 0 where
  raw_wire_frame authentication_material environment_dump : PrivateRuntimeInput
  hidden_chain_of_thought acp_agent_thought_chunk claude_thinking_block : PrivateRuntimeInput

-- `PrivateRuntimeInput::policy`
unfoldable pub private_policy : PrivateRuntimeInput → RuntimeEventPolicy
private_policy input = private_drop

pub data RuntimeFileChangeKind : Type 0 where
  created modified deleted renamed other : RuntimeFileChangeKind

pub record RuntimePlanItem : Type 0 where
  pub text : String
  pub status : Option String

pub record RuntimePermissionOption : Type 0 where
  pub option_id : String
  pub label : String

pub data RuntimePermissionDecision : Type 0 where
  denied : RuntimePermissionDecision
  allowed : (option_id : Option String) → RuntimePermissionDecision
  cancelled : RuntimePermissionDecision

-- an i32
pub data ℤ : Type 0 where
  pos negsuc : ℕ → ℤ

pub data RuntimeEvent (F : Type 0) : Type 0 where
  session_started : (native_session_id : String) → RuntimeEvent F
  session_resumed : (native_session_id : String) → RuntimeEvent F
  assistant_message_delta : (text : String) → RuntimeEvent F
  assistant_message_completed : (text : String) → RuntimeEvent F
  reasoning_summary : (text : String) → RuntimeEvent F
  plan_updated : (items : List RuntimePlanItem) → RuntimeEvent F
  tool_call_started : (native_call_id tool input_summary : String) → RuntimeEvent F
  tool_call_updated :
      (native_call_id status : String) (output_summary : Option String) → RuntimeEvent F
  tool_call_completed :
      (native_call_id tool : String) (ok : Bool) (output_summary : String) → RuntimeEvent F
  command_started : (native_call_id command : String) → RuntimeEvent F
  command_completed :
      (native_call_id : String) (exit_code : Option ℤ) (output_summary : String) → RuntimeEvent F
  file_changed : (path : String) (change : RuntimeFileChangeKind) → RuntimeEvent F
  permission_requested :
      (request_id action : String) (options : List RuntimePermissionOption) → RuntimeEvent F
  permission_resolved :
      (request_id : String) (decision : RuntimePermissionDecision) → RuntimeEvent F
  subagent_started : (native_id : String) (parent_native_id : Option String) → RuntimeEvent F
  subagent_completed : (native_id status : String) → RuntimeEvent F
  usage_updated :
      (input_tokens cached_input_tokens output_tokens reasoning_tokens : Option ℕ)
      (estimated_cost_usd : Option F)
      → RuntimeEvent F
  runtime_warning : (code : Option String) (message : String) → RuntimeEvent F
  runtime_error : (code : Option String) (message : String) → RuntimeEvent F
  checkpoint_created : (native_session_id : Option String) → RuntimeEvent F

pub record RuntimeEventRecord (F : Type 0) : Type 0 where
  pub task_id : ℕ
  pub attempt : ℕ
  pub agent_id : String
  pub runtime_name : Option String
  pub native_session_id : Option String
  pub event : RuntimeEvent F

module _ {F : Type 0} where
  -- `RuntimeEvent::kind`
  unfoldable pub kind : RuntimeEvent F → String
  kind (session_started id) = "session_started"
  kind (session_resumed id) = "session_resumed"
  kind (assistant_message_delta text) = "assistant_message_delta"
  kind (assistant_message_completed text) = "assistant_message_completed"
  kind (reasoning_summary text) = "reasoning_summary"
  kind (plan_updated items) = "plan_updated"
  kind (tool_call_started id tool input) = "tool_call_started"
  kind (tool_call_updated id status output) = "tool_call_updated"
  kind (tool_call_completed id tool done output) = "tool_call_completed"
  kind (command_started id command) = "command_started"
  kind (command_completed id code output) = "command_completed"
  kind (file_changed path change) = "file_changed"
  kind (permission_requested id action options) = "permission_requested"
  kind (permission_resolved id decision) = "permission_resolved"
  kind (subagent_started id parent) = "subagent_started"
  kind (subagent_completed id status) = "subagent_completed"
  kind (usage_updated input cached output reasoning cost) = "usage_updated"
  kind (runtime_warning code message) = "runtime_warning"
  kind (runtime_error code message) = "runtime_error"
  kind (checkpoint_created id) = "checkpoint_created"

  -- `RuntimeEvent::policy`
  unfoldable pub policy : RuntimeEvent F → RuntimeEventPolicy
  policy (assistant_message_delta text) = live_only
  policy (tool_call_updated id status output) = live_only
  policy (command_started id command) = live_only
  policy event = durable
