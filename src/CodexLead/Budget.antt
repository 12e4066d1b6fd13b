-- ===== src/CodexLead/Budget.antt =====
-- The prompts of crates/agentmosaic-runtime/src/codex_lead.rs keep the bound on their bytes, and
-- carry the whole reply instruction.
use Prim.Native.String
use Prim.Native.String.{len}
use text.Mathlib.TextPositions.{len-append}
use text.Mathlib.TextLemmas.{append_assoc}
use text.Mathlib.TextBridge.{IsSuffix}
use research_agent_system.Common.{
  ℕ, ◌+◌, ◌-◌, ◌≤◌, String, ◌≡◌, arith, subst, ok, ltb, not, ◌==◌, nat_eq,
}
use research_agent_system.Common.Fallible.{refuse_if, guarded_iff, seq-eq-ok, refuse_if-eq-ok}
use research_agent_system.Events.Text.{bounded, bounded-longest}
use research_agent_system.Lead.Data.{LeadContext}
use research_agent_system.CodexLead.Config.{
  Paths, CodexLeadConfig, min_prompt_bytes, validate, validate_launch, validate_model,
}
use research_agent_system.CodexLead.Prompt.{
  Printer, prompt_prefix, prompt_suffix, render_context, render_prompt, correction_prompt,
}

-- A configuration that is valid has room for the reply instruction, for an answer and for an event.
validate-bounds :
    {P : Type 0} (paths : Paths P) (config : CodexLeadConfig P)
    → validate paths config ≡ ok tt
    → (min_prompt_bytes ≤ config.max_prompt_bytes)
      × (1 ≤ config.max_answer_bytes)
      × (1 ≤ config.max_events)
unfolding validate
validate-bounds paths config h =
    let h₁ = seq-eq-ok (validate_launch paths config.launch) _ h in
    let h₂ = seq-eq-ok (refuse_if (not (paths.is_dir config.working_directory)) _) _ h₁ in
    let h₃ = seq-eq-ok (validate_model paths config.model) _ h₂ in
    let (prompt, h₄) = (guarded_iff (ltb config.max_prompt_bytes min_prompt_bytes) _ _ tt).0 h₃ in
    let (answer, h₅) = (guarded_iff (config.max_answer_bytes == 0) _ _ tt).0 h₄ in
    let events = refuse_if-eq-ok (config.max_events == 0) _ h₅ in ground arith

infixr 65 ◌^◌
abbrev ◌^◌ : String → String → String
s ^ t = String.◌++◌ s t

-- The reply instruction on a line of its own, after a text with room for it.
abbrev pub WithInstruction : ℕ → String → Type 0
WithInstruction bound text = (len text ≤ bound) × IsSuffix prompt_suffix text

instruct :
    (head : String) (bound : ℕ)
    → len head + 1 + len prompt_suffix ≤ bound
    → WithInstruction bound (head ^ "\n" ^ prompt_suffix)
instruct head bound h = (
  omega (arith, len-append head ("\n" ^ prompt_suffix), len-append "\n" prompt_suffix),
  (head ^ "\n", append_assoc head "\n" prompt_suffix),
)

framed :
    (text : String) (bound : ℕ)
    → min_prompt_bytes ≤ bound
    → WithInstruction bound (
        prompt_prefix
        ^ bounded (bound - (len prompt_prefix + len prompt_suffix + 2)) text
        ^ "\n"
        ^ prompt_suffix)
framed text bound h =
    let cut = bounded (bound - (len prompt_prefix + len prompt_suffix + 2)) text in
    let short = bounded-longest (bound - (len prompt_prefix + len prompt_suffix + 2)) text in
    subst (WithInstruction bound) (append_assoc prompt_prefix cut ("\n" ^ prompt_suffix))
      (instruct (prompt_prefix ^ cut) bound (omega (arith, len-append prompt_prefix cut, short.1)))

-- Under a valid configuration the prompt of a round has at most `max_prompt_bytes` bytes and ends
-- with the reply instruction, whatever the context is, and so has a correction, whatever the
-- reason is.
pub prompts-WithInstruction :
    {P : Type 0} (paths : Paths P) (config : CodexLeadConfig P)
    → validate paths config ≡ ok tt
    → (print : Printer) (ctx : LeadContext) (reason : String)
    → WithInstruction config.max_prompt_bytes (render_prompt print config.max_prompt_bytes ctx)
      × WithInstruction config.max_prompt_bytes (correction_prompt config.max_prompt_bytes reason)
unfolding render_prompt render_context correction_prompt
prompts-WithInstruction paths config h print ctx reason =
    let room = (validate-bounds paths config h).0 in
    (
      framed _ config.max_prompt_bytes room,
      instruct _ config.max_prompt_bytes (
          omega (
            arith,
            (bounded-longest (config.max_prompt_bytes - (len prompt_suffix + 2))
                ("Your previous reply was rejected: " ^ reason)).1,
          )),
    )
