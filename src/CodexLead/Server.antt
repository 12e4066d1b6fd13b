-- ===== src/CodexLead/Server.antt =====
-- The resident brain of crates/agentmosaic-runtime/src/codex_lead.rs: its thread, its turns, and
-- how it decides.
use Prim.Native.String
use research_agent_system.Common.{
  ℕ, zero, suc, String, Bool, false, ◌&&◌, ◌||◌, not, Option, none, some, List, [], ◌∷◌, ◌++◌,
  if◌then◌else◌, ◌==◌, string_eq, Result, ok, err, Exec, ◌>>=◌, ◌>>◌, pure, raise, map_ok, map_err,
}
use research_agent_system.Common.Decimal.{decimal}
use research_agent_system.Common.Trim.{is_empty_text}
use research_agent_system.Lead.Data.{
  LeadContext, LeadDecision, LeadBrainError, invalid_decision, Brain,
}
use research_agent_system.CodexLead.Config.{lead_sandbox, lead_approval_policy, validate}
use research_agent_system.CodexLead.Prompt.{
  developer_instructions, render_prompt, correction_prompt,
}
use research_agent_system.CodexLead.Parse.{parse_reply}
use research_agent_system.CodexLead.Interface.{
  CodexBridgeError, io, protocol, closed, CodexBridgeEvent, notification, tool_call, turn_completed,
  mcp_elicitation, CodexState, CodexLeadBrain, Turn,
}

infixr 65 ◌^◌
abbrev ◌^◌ : String → String → String
s ^ t = String.◌++◌ s t

module _ {P V H W : Type 0} (brain : CodexLeadBrain P V H W) where
  -- `Display` of a `CodexBridgeError`, which is its derived `Debug`
  unfoldable pub bridge_text : CodexBridgeError → String
  bridge_text (io text) = "Io(" ^ brain.app.debug_text text ^ ")"
  bridge_text (protocol text) = "Protocol(" ^ brain.app.debug_text text ^ ")"
  bridge_text closed = "Closed"

  unfoldable pub unavailable : String → CodexBridgeError → LeadBrainError
  unavailable action error =
      LeadBrainError.unavailable ("codex lead failed to " ^ action ^ ": " ^ bridge_text error)

  -- a call of the app server, with `map_err(|e| unavailable(action, e))`
  unfoldable pub call : {A : Type 0} → String → Exec W CodexBridgeError A → Exec W LeadBrainError A
  call action m w = let (r, v) = m w in (map_err (unavailable action) r, v)

  -- `!id.is_empty() && id != expected`
  abbrev pub is_other : String → String → Bool
  is_other id expected = not (is_empty_text id) && not (id == expected)

  -- the body of the loop of `pump_turn`; `rest` is its next round
  unfoldable pub handle :
      H
      → String
      → String
      → Exec W LeadBrainError String
      → CodexBridgeEvent V
      → Exec W LeadBrainError String
  handle server thread_id turn_id rest (notification text) = rest
  handle server thread_id turn_id rest (tool_call request_id call_id tool) = do
    call "refuse a codex lead tool call" (
        brain.app.respond_tool server request_id false
          ("tool `" ^ tool ^ "` is not available to the lead"))
    rest
  handle server thread_id turn_id rest (turn_completed thread turn) =
      if is_other turn turn_id || is_other thread thread_id
      then rest
      else call "read the completed codex lead turn"
          (brain.app.final_agent_message server thread turn)
  handle server thread_id turn_id rest (mcp_elicitation request_id name) = do
    call "answer a codex lead elicitation"
        (brain.app.respond_ras_elicitation server request_id name)
    rest

  -- `for _ in 0..max_events`
  unfoldable pub pump_turn : H → String → String → ℕ → Exec W LeadBrainError String
  pump_turn server thread_id turn_id zero = raise (
      LeadBrainError.unavailable (
        "the codex lead turn did not complete within "
        ^ decimal brain.config.max_events
        ^ " events"))
  pump_turn server thread_id turn_id (suc n) = do
    event ← call "read a codex lead event" (brain.app.next_event server)
    handle server thread_id turn_id (pump_turn server thread_id turn_id n) event

  unfoldable pub in_world : {A : Type 0} → Exec W LeadBrainError A → Turn H W A
  in_world m s = let (r, w) = m s.world in (r, record s { world = w })

  abbrev pub model_override : Option String → List String
  model_override none = []
  model_override (some model) = ("model=" ^ brain.app.debug_text model) ∷ []

  -- `initialize(..).and_then(|_| start_thread_with_options(..))`
  unfoldable pub open_thread : H → String → Exec W CodexBridgeError String
  open_thread server directory = do
    brain.app.initialize server "agentmosaic-codex-lead" "0.1"
    brain.app.start_thread_with_options server directory (some developer_instructions) lead_sandbox
        lead_approval_policy

  -- the match on what starting the thread returned
  unfoldable pub keep_thread : H → Result CodexBridgeError String → Turn H W String
  keep_thread server (ok thread_id) s =
      (ok thread_id, record s { server = some server; thread_id = some thread_id })
  keep_thread server (err error) s = (
    err (unavailable "start the resident codex lead thread" error),
    record s { world = (brain.app.close server s.world).1 },
  )

  -- `to_str().ok_or_else(..)`
  unfoldable pub utf8_path : Option String → Turn H W String
  utf8_path none = raise (LeadBrainError.unavailable "Codex lead working directory is not UTF-8")
  utf8_path (some directory) = pure directory

  unfoldable pub working_directory : Turn H W String
  working_directory = utf8_path (brain.paths.to_str brain.config.working_directory)

  unfoldable pub spawn : Turn H W H
  spawn = in_world (
      call "spawn the codex app-server" (
        brain.app.spawn_launch brain.config.launch
          (brain.config.overrides ++ model_override brain.config.model)))

  unfoldable pub try_thread : H → String → Turn H W (Result CodexBridgeError String)
  try_thread server directory s =
      let (r, w) = open_thread server directory s.world in (ok r, record s { world = w })

  unfoldable pub start_thread : Turn H W String
  start_thread = do
    directory ← working_directory
    server ← spawn
    started ← try_thread server directory
    keep_thread server started

  unfoldable pub resume_thread : Option String → Turn H W String
  resume_thread (some thread_id) = pure thread_id
  resume_thread none = start_thread

  unfoldable pub ensure_thread : Turn H W String
  ensure_thread s = resume_thread s.thread_id s

  -- `ok_or_else` on the client
  unfoldable pub running : Option H → Turn H W H
  running (some server) = pure server
  running none = raise (LeadBrainError.unavailable "the codex lead app-server is not running")

  unfoldable pub running_server : Turn H W H
  running_server s = running s.server s

  unfoldable pub run_turn : String → Turn H W String
  run_turn prompt = do
    thread_id ← ensure_thread
    server ← running_server
    turn_id ←
        in_world (call "start a codex lead turn" (brain.app.start_turn server thread_id prompt))
    in_world (pump_turn server thread_id turn_id brain.config.max_events)

  abbrev pub parse : String → Result String LeadDecision
  parse = parse_reply brain.from_str brain.candidates brain.config.max_answer_bytes

  -- what is made of the reply to the correction
  abbrev pub second_reason : String → String → LeadBrainError
  second_reason reason second =
      invalid_decision
        ("codex lead reply rejected: " ^ reason ^ "; correction reply rejected: " ^ second)

  unfoldable pub correct : Result String LeadDecision → Turn H W LeadDecision
  correct (ok decision) = pure decision
  correct (err reason) = do
    second ← run_turn (correction_prompt brain.config.max_prompt_bytes reason)
    λ s. (map_err (second_reason reason) (parse second), s)

  unfoldable pub decide_turn : LeadContext → Turn H W LeadDecision
  decide_turn ctx = do
    reply ← run_turn (render_prompt brain.print brain.config.max_prompt_bytes ctx)
    correct (parse reply)

  -- `drop`: a client that is there is closed
  unfoldable pub drop_brain : CodexState H W → CodexState H W
  drop_brain s = elim (s.server) [
    | none ↦ s
    | some server ↦ record s { server = none; world = (brain.app.close server s.world).1 }
  ]

  -- `LeadBrain::decide`: the board is left alone meanwhile
  unfoldable pub decide : {B : Type 0} → Brain B (CodexState H W)
  decide ctx (s, board) = let (r, t) = decide_turn ctx s in (r, (t, board))

  -- `CodexLeadBrain::new` starts no process
  unfoldable pub new : W → Result LeadBrainError (CodexState H W)
  new world =
      map_ok (λ _. record { server = none; thread_id = none; world = world })
        (map_err LeadBrainError.unavailable (validate brain.paths brain.config))
