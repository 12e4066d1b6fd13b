-- ===== src/Samples/Codex.antt =====
-- The theorems on the resident brain, at a scripted app server that first sends an event of no
-- interest, a tool call, the end of an earlier turn and a reply that is no decision, and then a
-- follow-up task.
use research_agent_system.Common.{
  ℕ, String, true, if◌then◌else◌, ◌==◌, string_eq, none, some, List, [], ◌∷◌, ◌≡◌, ◌≢◌, ◌↔◌, inl,
  refl, ok, err, Exec,
}
use research_agent_system.Common.Trim.{
  trim_matches, is_ascii_whitespace, trim, trim_start_matches, trim_end_matches, is_whitespace,
}
use research_agent_system.Registry.TaskKind.{TaskKind}
use research_agent_system.Scheduler.Schedule.{TaskSpec}
use research_agent_system.Lead.Data.{LeadContext, LeadDecision}
use research_agent_system.CodexLead.Config.{
  Paths, CodexLeadConfig, validate, validate_launch, validate_model,
}
use research_agent_system.CodexLead.Wire.{
  TaskKindWire, DecisionWire, follow_up, Reader, to_task_kind,
}
use research_agent_system.CodexLead.Prompt.{render_prompt, correction_prompt}
use research_agent_system.CodexLead.Budget.{WithInstruction, prompts-WithInstruction}
use research_agent_system.CodexLead.Parse.{check_target, task_spec, decide_wire, parse_reply}
use research_agent_system.CodexLead.Contract.{IsDecisionOf}
use research_agent_system.CodexLead.Accepts.{parse_reply_iff}
use research_agent_system.CodexLead.Interface.{
  CodexBridgeError, closed, CodexBridgeEvent, notification, tool_call, turn_completed, AppServer,
  CodexState, CodexLeadBrain,
}
use research_agent_system.CodexLead.Server.{pump_turn, working_directory, decide_turn}
use research_agent_system.CodexLead.Pump.{Ends, pump_turn_iff}
use research_agent_system.CodexLead.Turns.{IsDecided, decide_turn_iff}
use research_agent_system.CodexLead.Resident.{IsPaired, IsResident, decide_turn-IsPaired}

-- the replies that are still to come, and the events
abbrev Script : Type 0
Script = List String × List (CodexBridgeEvent ℕ)

abbrev next_scripted : Exec Script CodexBridgeError (CodexBridgeEvent ℕ)
next_scripted (replies, []) = (err closed, (replies, []))
next_scripted (replies, e ∷ events) = (ok e, (replies, events))

abbrev next_reply : Exec Script CodexBridgeError String
next_reply ([], events) = (err closed, ([], events))
next_reply (reply ∷ replies, events) = (ok reply, (replies, events))

abbrev scripted : AppServer String ℕ ℕ Script
scripted = record {
  spawn_launch = λ launch overrides w. (ok 7, w);
  initialize = λ server name version w. (ok tt, w);
  start_thread_with_options = λ server directory instructions sandbox approval w. (ok "thread", w);
  start_turn = λ server thread prompt w. (ok "turn", w);
  next_event = λ server. next_scripted;
  final_agent_message = λ server thread turn. next_reply;
  respond_ras_elicitation = λ server id name w. (ok tt, w);
  respond_tool = λ server id done text w. (ok tt, w);
  close = λ server w. (ok tt, w);
  debug_text = λ text. text;
}

abbrev directories : Paths String
directories = record {
  is_dir = λ p. true;
  to_str = some;
  to_string_lossy = λ p. p;
  has_no_name = λ p. p == "";
}

abbrev codex_config : CodexLeadConfig String
codex_config = record {
  launch = record { program = "codex"; args = [] };
  working_directory = "/work";
  model = none;
  overrides = [];
  max_prompt_bytes = 8192;
  max_answer_bytes = 1000;
  max_events = 10;
}

abbrev one_word : Reader
one_word text =
    if text == "go"
    then ok (
        follow_up
          (record { kind = TaskKindWire.bulk; target = some "b"; objective = " build it " }))
    else err "expected value"

abbrev codex : CodexLeadBrain String ℕ ℕ Script
codex = record {
  config = codex_config;
  candidates = "a" ∷ "b" ∷ [];
  paths = directories;
  app = scripted;
  from_str = one_word;
  print = λ payload. "{}";
}

abbrev build_spec : TaskSpec
build_spec = record {
  objective = "build it";
  kind = TaskKind.bulk;
  target = some "b";
  parent = none;
  context = [];
}

abbrev build_decision : LeadDecision
build_decision = LeadDecision.follow_up (build_spec ∷ [])

abbrev first_round : LeadContext
first_round = record {
  root_task_id = 1;
  objective = "ship it";
  round = 0;
  candidates = "a" ∷ "b" ∷ [];
  results = [];
  artifacts = [];
  failures = [];
  messages = [];
}

abbrev first_turn : Script
first_turn = (
  "I would rather talk" ∷ "\n go\n" ∷ [],
  notification "thinking"
      ∷ tool_call 1 "call" "shell"
      ∷ turn_completed "thread" "earlier"
      ∷ turn_completed "thread" "turn"
      ∷ turn_completed "" ""
      ∷ [],
)

abbrev idle : CodexState ℕ Script
idle = record { server = none; thread_id = none; world = first_turn }

abbrev decided : CodexState ℕ Script
decided = record { server = some 7; thread_id = some "thread"; world = ([], []) }

-- the reply is read without the white space around it
reply-parsed : parse_reply one_word codex.candidates 1000 "\n go\n" ≡ ok build_decision
unfolding parse_reply decide_wire task_spec check_target trim_matches trim_start_matches
    trim_end_matches is_ascii_whitespace trim is_whitespace to_task_kind
reply-parsed = refl

config-valid : validate directories codex_config ≡ ok tt
unfolding validate validate_launch validate_model trim trim_matches trim_start_matches
    trim_end_matches is_whitespace
config-valid = refl

parse_reply-iff_example :
    (parse_reply one_word codex.candidates 1000 "\n go\n" ≡ ok build_decision) ↔ (
      (trim_matches is_ascii_whitespace "\n go\n" ≢ "")
      × ((wire : DecisionWire) × (one_word (trim_matches is_ascii_whitespace "\n go\n") ≡ ok wire)
          × IsDecisionOf codex.candidates 1000 wire build_decision))
parse_reply-iff_example = parse_reply_iff one_word codex.candidates 1000 "\n go\n" build_decision

prompts-WithInstruction_example :
    WithInstruction 8192 (render_prompt codex.print 8192 first_round)
    × WithInstruction 8192 (correction_prompt 8192 "the reply was empty")
prompts-WithInstruction_example =
    prompts-WithInstruction directories codex_config config-valid codex.print first_round
      "the reply was empty"

pump_turn-iff_example :
    (pump_turn codex 7 "thread" "turn" 10 first_turn
      ≡ (ok "I would rather talk", ("\n go\n" ∷ [], turn_completed "" "" ∷ [])))
    ↔ Ends codex 7 "thread" "turn" 10 "I would rather talk" first_turn
        ("\n go\n" ∷ [], turn_completed "" "" ∷ [])
pump_turn-iff_example =
    pump_turn_iff codex 7 "thread" "turn" 10 "I would rather talk" first_turn
      ("\n go\n" ∷ [], turn_completed "" "" ∷ [])

decide_turn-iff_example :
    (decide_turn codex first_round idle ≡ (ok build_decision, decided))
    ↔ IsDecided codex first_round idle build_decision decided
decide_turn-iff_example = decide_turn_iff codex first_round idle build_decision decided

decide_turn-IsPaired_example :
    IsPaired codex (decide_turn codex first_round idle).1
    × ((server : ℕ) (thread : String)
        → IsResident codex server thread idle
        → IsResident codex server thread (decide_turn codex first_round idle).1)
decide_turn-IsPaired_example = decide_turn-IsPaired codex first_round idle (inl (refl, refl))
