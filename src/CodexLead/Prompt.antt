-- ===== src/CodexLead/Prompt.antt =====
-- The prompts of crates/agentmosaic-runtime/src/codex_lead.rs. The printer of JSON is a parameter:
-- it prints a payload, whose fields are those that the code puts together.
use Prim.Native.Nat.{◌/◌, max}
use Prim.Native.String
use Prim.Native.String.{len}
use research_agent_system.Common.{ℕ, ◌+◌, ◌-◌, min, String, List, map, length}
use research_agent_system.Board.Data.{AgentTaskResult, ArtifactMeta, AgentMessage}
use research_agent_system.Events.Text.{bounded}
use research_agent_system.Lead.Data.{LeadContext}

infixr 65 ◌^◌
abbrev ◌^◌ : String → String → String
s ^ t = String.◌++◌ s t

abbrev pub prompt_prefix : String
prompt_prefix = "Current lead context (compact JSON):\n"

abbrev pub prompt_suffix : String
prompt_suffix =
    "Reply with exactly one JSON object and nothing else: no prose, no markdown fences. Use action delegate, follow_up, or complete, exactly as your developer instructions specify."

-- The value that is printed.
pub record Payload : Type 0 where
  pub root_task_id : ℕ
  pub objective : String
  pub round : ℕ
  pub candidates : List String
  pub results : List (ℕ × String)
  pub artifacts : List ArtifactMeta
  pub failures : List (ℕ × String)
  pub messages : List AgentMessage

-- `payload.to_string()`
abbrev pub Printer : Type 0
Printer = Payload → String

-- `bound_utf8`
abbrev pub bound_utf8 : String → ℕ → String
bound_utf8 text max_bytes = bounded max_bytes text

-- `clamp(64, 4096)`
abbrev pub clamp_text : ℕ → ℕ
clamp_text n = min (max n 64) 4096

unfoldable pub bytes_per_text : LeadContext → ℕ → ℕ
bytes_per_text ctx budget =
    let entries =
      length ctx.results + length ctx.artifacts + length ctx.failures + length ctx.messages + 1 in
    clamp_text (budget / max entries 1)

unfoldable pub payload : LeadContext → ℕ → Payload
payload ctx per_text = record {
  root_task_id = ctx.root_task_id;
  objective = bound_utf8 ctx.objective per_text;
  round = ctx.round;
  candidates = ctx.candidates;
  results =
      map {A = ℕ × AgentTaskResult} {B = ℕ × String} (λ r. (r.0, bound_utf8 r.1.summary per_text))
        ctx.results;
  artifacts =
      map {A = ArtifactMeta} {B = ArtifactMeta}
        (λ a. record { path = bound_utf8 a.path per_text; sha256 = a.sha256 }) ctx.artifacts;
  failures =
      map {A = ℕ × String} {B = ℕ × String} (λ f. (f.0, bound_utf8 f.1 per_text)) ctx.failures;
  messages =
      map {A = AgentMessage} {B = AgentMessage}
        (λ m. record m { body = bound_utf8 m.body per_text }) ctx.messages;
}

unfoldable pub render_context : Printer → LeadContext → ℕ → String
render_context print ctx budget =
    bound_utf8 (print (payload ctx (bytes_per_text ctx budget))) budget

unfoldable pub render_prompt : Printer → ℕ → LeadContext → String
render_prompt print max_prompt_bytes ctx =
    let budget = max_prompt_bytes - (len prompt_prefix + len prompt_suffix + 2) in
    prompt_prefix ^ render_context print ctx budget ^ "\n" ^ prompt_suffix

unfoldable pub correction_prompt : ℕ → String → String
correction_prompt max_prompt_bytes reason =
    let head_budget = max_prompt_bytes - (len prompt_suffix + 2) in
    bound_utf8 ("Your previous reply was rejected: " ^ reason) head_budget ^ "\n" ^ prompt_suffix

-- The contract, as the developer instructions of the thread.
abbrev pub developer_instructions : String
developer_instructions =
    "You are the Lead of a heterogeneous coding agent team. You plan, delegate, "
    ^ "and synthesize. You never run shell commands, never edit files, and never "
    ^ "read repository content yourself: your workers do the work, and their "
    ^ "results and artifacts reach you as context.\n\n"
    ^ "Reply to every turn with exactly one JSON object and nothing else: no prose "
    ^ "before or after it, no markdown fences, no comments. Choose exactly one of:\n"
    ^ "1. Delegate work, 1 to 32 tasks (the first round):\n"
    ^ "{\"action\":\"delegate\",\"tasks\":[{\"kind\":\"bulk\",\"target\":\"<agent id>\",\"objective\":\"...\"}]}\n"
    ^ "2. Follow up with exactly one further task, grounded in the results you were given:\n"
    ^ "{\"action\":\"follow_up\",\"task\":{\"kind\":\"reasoning\",\"target\":null,\"objective\":\"...\"}}\n"
    ^ "3. Complete the objective:\n"
    ^ "{\"action\":\"complete\",\"answer\":\"...\",\"selected_task_ids\":[2],\"selected_artifacts\":[{\"task_id\":2,\"path\":\"result.txt\",\"sha256\":\"<64 lowercase hex>\"}]}\n\n"
    ^ "Rules:\n" ^ "- Every task object has exactly the three keys kind, target, objective. "
    ^ "kind is one of bulk, tool, review, reasoning, utility.\n"
    ^ "- target is either null (the scheduler chooses) or exactly one candidate "
    ^ "agent id from the context. Never invent an agent id.\n"
    ^ "- objective is a non-empty string stating the work to do.\n"
    ^ "- complete needs a non-empty answer and at least one selected_task_ids "
    ^ "entry; each id must be a task that succeeded in the context you were given. "
    ^ "Each selected_artifacts entry must name one of those ids and an exact path "
    ^ "and sha256 from the context. Never invent results, paths, or digests.\n"
    ^ "- Unknown fields, missing fields, extra text, empty answers, and any other "
    ^ "shape are rejected."

unfoldable pub render_exec_prompt : Printer → ℕ → LeadContext → String
render_exec_prompt print max_prompt_bytes ctx =
    developer_instructions ^ "\n\n" ^ render_prompt print max_prompt_bytes ctx
