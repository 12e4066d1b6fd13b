-- ===== src/CodexLead/Interface.antt =====
-- The client of the app server as the brain of crates/agentmosaic-runtime/src/codex_lead.rs sees
-- it, with the events and errors of codex_app_server.rs, and the state of the brain. `H` is the
-- client, `W` the processes and pipes behind it, `V` the JSON value of a request id.
use research_agent_system.Common.{String, Bool, Option, List, string_eq, Exec}
use research_agent_system.Lead.Data.{LeadBrainError}
use research_agent_system.CodexLead.Config.{Paths, LaunchSpec, CodexLeadConfig}
use research_agent_system.CodexLead.Prompt.{Printer}
use research_agent_system.CodexLead.Wire.{Reader}

pub data CodexBridgeError : Type 0 where
  io : String → CodexBridgeError
  protocol : String → CodexBridgeError
  closed : CodexBridgeError

pub data CodexBridgeEvent (V : Type 0) : Type 0 where
  notification : String → CodexBridgeEvent V
  tool_call : (request_id : V) (call_id tool : String) → CodexBridgeEvent V
  turn_completed : (thread_id turn_id : String) → CodexBridgeEvent V
  mcp_elicitation : (request_id : V) (server_name : String) → CodexBridgeEvent V

-- The methods of `CodexAppServer` that the brain calls, and the escaped form of a text.
pub record AppServer (P : Type 0) (V : Type 0) (H : Type 0) (W : Type 0) : Type 0 where
  pub spawn_launch : LaunchSpec P → List String → Exec W CodexBridgeError H
  pub initialize : H → String → String → Exec W CodexBridgeError (Unit {0})
  pub start_thread_with_options :
      H → String → Option String → String → String → Exec W CodexBridgeError String
  pub start_turn : H → String → String → Exec W CodexBridgeError String
  pub next_event : H → Exec W CodexBridgeError (CodexBridgeEvent V)
  pub final_agent_message : H → String → String → Exec W CodexBridgeError String
  pub respond_ras_elicitation : H → V → String → Exec W CodexBridgeError (Unit {0})
  pub respond_tool : H → V → Bool → String → Exec W CodexBridgeError (Unit {0})
  pub close : H → Exec W CodexBridgeError (Unit {0})
  pub debug_text : String → String

-- What changes: the client, the thread, and the world.
pub record CodexState (H : Type 0) (W : Type 0) : Type 0 where
  pub server : Option H
  pub thread_id : Option String
  pub world : W

-- What a `CodexLeadBrain` is built of, and the functions of other crates that it uses.
pub record CodexLeadBrain (P : Type 0) (V : Type 0) (H : Type 0) (W : Type 0) : Type 0 where
  pub config : CodexLeadConfig P
  pub candidates : List String
  pub paths : Paths P
  pub app : AppServer P V H W
  pub from_str : Reader
  pub print : Printer

abbrev pub Turn : Type 0 → Type 0 → Type 0 → Type 0
Turn H W A = Exec (CodexState H W) LeadBrainError A
