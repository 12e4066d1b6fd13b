-- ===== src/CodexLead/Turns.antt =====
-- `decide_turn` of crates/agentmosaic-runtime/src/codex_lead.rs: a decision comes from the first
-- reply or from the one correction, and every turn runs on the one thread.
use Prim.Native.String
use Prim.Native.String.{len, slice}
use text.Mathlib.TextBridge.{IsPrefix}
use text.Mathlib.TextPositions.{slice-append_left}
use research_agent_system.Common.Trim.{trim_matches, is_ascii_whitespace}
use research_agent_system.Events.Text.{bounded-longest}
use research_agent_system.Common.{
  ℕ, ◌+◌, ◌-◌, ◌≤◌, ◌≢◌, arith, String, ◌≡◌, ◌↔◌, ◌⊎◌, refl, sym, ap, ◌∙◌, subst, Result, ok, err,
  bind-eq-ok, bind-run, map_err, inl, inr,
}
use research_agent_system.Common.Fallible.{map_err-eq-ok}
use research_agent_system.Lead.Data.{LeadContext, LeadDecision, LeadBrainError}
use research_agent_system.CodexLead.Contract.{IsDecisionOf}
use research_agent_system.CodexLead.Accepts.{parse_reply_iff}
use research_agent_system.CodexLead.Wire.{DecisionWire}
use research_agent_system.CodexLead.Prompt.{render_prompt, correction_prompt, prompt_suffix}
use research_agent_system.CodexLead.Interface.{CodexState, CodexLeadBrain}
use research_agent_system.CodexLead.Server.{run_turn, parse, second_reason, correct, decide_turn}

err_inj : {A : Type 0} {x y : String} → ◌≡◌ {A = Result String A} (err x) (err y) → x ≡ y
err_inj h = cc

-- `part` is the longest prefix of `text`, in whole characters, of at most `max` bytes.
abbrev pub IsLongest : ℕ → String → String → Type 0
IsLongest max text part =
    IsPrefix part text
    × (len part ≤ max)
    × ((other : String) → IsPrefix other text → len other ≤ max → len other ≤ len part)

-- There is one longest prefix.
IsLongest-unique :
    (max : ℕ) (text part other : String)
    → IsLongest max text part
    → IsLongest max text other
    → part ≡ other
IsLongest-unique max text part other (pre, few, most) (pre', few', most') =
    let same : len part ≡ len other = omega (arith, most other pre' few', most' part pre few) in
    cut part pre ∙ ap (slice text 0) same ∙ sym (cut other pre')
  where
    cut : (p : String) → IsPrefix p text → p ≡ slice text 0 (len p)
    cut p (rest, e) = sym (slice-append_left p rest) ∙ ap (λ t. slice t 0 (len p)) e

module _ {P V H W : Type 0} (brain : CodexLeadBrain P V H W) where
  abbrev pub prompt_of : LeadContext → String
  prompt_of = render_prompt brain.print brain.config.max_prompt_bytes

  abbrev pub correction_of : String → String
  correction_of = correction_prompt brain.config.max_prompt_bytes

  -- The decision that the contract allows for the one decision object that a reply is.
  abbrev pub Says : String → LeadDecision → Type 0
  Says reply decision =
      (trim_matches is_ascii_whitespace reply ≢ "")
      × ((wire : DecisionWire) × (brain.from_str (trim_matches is_ascii_whitespace reply) ≡ ok wire)
          × IsDecisionOf brain.candidates brain.config.max_answer_bytes wire decision)

  -- A correction that states a reason: as much of it as its share of the prompt's bytes allows in
  -- whole characters, and then the instruction to reply with one object.
  abbrev pub States : String → String → Type 0
  States reason correction =
      (stated : String) × (correction ≡ String.◌++◌ stated (String.◌++◌ "\n" prompt_suffix))
      × IsLongest (brain.config.max_prompt_bytes - (len prompt_suffix + 2))
          (String.◌++◌ "Your previous reply was rejected: " reason) stated

  -- The reply to the correction is accepted.
  abbrev pub IsCorrected : String → CodexState H W → LeadDecision → CodexState H W → Type 0
  IsCorrected reason s decision t =
      (correction : String) × States reason correction
      × ((second : String) × (run_turn brain correction s ≡ (ok second, t)) × Says second decision)

  -- The first reply is accepted, or it is rejected and the reply to the correction is accepted.
  abbrev pub IsDecided : LeadContext → CodexState H W → LeadDecision → CodexState H W → Type 0
  IsDecided ctx s decision t =
      (reply : String) × (u : CodexState H W) × (run_turn brain (prompt_of ctx) s ≡ (ok reply, u))
      × ((Says reply decision × (u ≡ t))
          ⊎ ((reason : String) × (parse brain reply ≡ err reason)
              × IsCorrected reason u decision t))

  parse_iff :
      (reply : String) (decision : LeadDecision)
      → (parse brain reply ≡ ok decision) ↔ Says reply decision
  parse_iff reply decision =
      parse_reply_iff brain.from_str brain.candidates brain.config.max_answer_bytes reply decision

  correction-States : (reason : String) → States reason (correction_of reason)
  unfolding correction_prompt
  correction-States reason = (_, refl, bounded-longest _ _)

  -- Only one text states a reason.
  States-eq :
      (reason correction : String) → States reason correction → correction ≡ correction_of reason
  unfolding correction_prompt
  States-eq reason correction (stated, e, longest) =
      e
      ∙ ap (λ t. String.◌++◌ t (String.◌++◌ "\n" prompt_suffix))
          (IsLongest-unique _ _ stated _ longest (bounded-longest _ _))

  correct-IsDecided :
      (r : Result String LeadDecision) (u : CodexState H W) (decision : LeadDecision)
      (t : CodexState H W)
      → (correct brain r u ≡ (ok decision, t)) ↔ (
          ((r ≡ ok decision) × (u ≡ t))
          ⊎ ((reason : String) × (r ≡ err reason) × IsCorrected reason u decision t))
  unfolding correct
  correct-IsDecided (ok d) u decision t =
      (λ h. inl (cc, cc), λ c. elim c [ inl (p, q) ↦ cc | inr (reason, p, q) ↦ absurd cc ])
  correct-IsDecided (err reason) u decision t = (
    λ h.
        let (second, v, e, h') = bind-eq-ok (run_turn brain (correction_of reason)) _ h in
        let accepted = map_err-eq-ok _ (parse brain second) (ap (λ p. p.0) h') in
        inr (
          reason,
          refl,
          (
            correction_of reason,
            correction-States reason,
            (
              second,
              e ∙ ap (λ w. (ok second, w)) (ap (λ p. p.1) h'),
              (parse_iff second decision).0 accepted,
            ),
          ),
        ),
    λ c. elim c [
      | inl (p, q) ↦ absurd cc
      | inr (other, p, (correction, states, (second, e, says))) ↦
          let text : correction ≡ correction_of reason =
            States-eq other correction states ∙ ap correction_of (sym (err_inj p)) in
          bind-run (run_turn brain (correction_of reason)) _
            (subst (λ x. run_turn brain x u ≡ (ok second, t)) text e)
          ∙ ap {A = Result String LeadDecision}
              {B = Result LeadBrainError LeadDecision × CodexState H W}
              (λ r. (map_err (second_reason brain reason) r, t))
              ((parse_iff second decision).1 says)
    ],
  )

  -- The first reply's verdict, in the words of the contract.
  first_iff :
      (reply : String) (u : CodexState H W) (decision : LeadDecision) (t : CodexState H W)
      → (correct brain (parse brain reply) u ≡ (ok decision, t)) ↔ (
          (Says reply decision × (u ≡ t))
          ⊎ ((reason : String) × (parse brain reply ≡ err reason)
              × IsCorrected reason u decision t))
  first_iff reply u decision t =
      let (to, from) = correct-IsDecided (parse brain reply) u decision t in
      let (says, parsed) = parse_iff reply decision in
      (
        λ h. elim (to h) [ inl (p, q) ↦ inl (says p, q) | inr rejected ↦ inr rejected ],
        λ c. from (elim c [ inl (p, q) ↦ inl (parsed p, q) | inr rejected ↦ inr rejected ]),
      )

  -- `decide_turn` returns a decision exactly if the first reply says it, or the first reply is
  -- rejected for a reason and the reply to the correction says it, on the same brain after the first
  -- turn. A reply says a decision if it is, without the white space around it, one decision object
  -- for which the contract allows the decision. The correction states the reason, as far as its
  -- bytes allow, and repeats the instruction.
  pub decide_turn_iff :
      (ctx : LeadContext) (s : CodexState H W) (decision : LeadDecision) (t : CodexState H W)
      → (decide_turn brain ctx s ≡ (ok decision, t)) ↔ IsDecided ctx s decision t
  unfolding decide_turn
  decide_turn_iff ctx s decision t = (
    λ h.
        let (reply, u, e, h') = bind-eq-ok (run_turn brain (prompt_of ctx)) _ h in
        (reply, u, e, (first_iff reply u decision t).0 h'),
    λ (reply, u, e, c).
        bind-run (run_turn brain (prompt_of ctx)) _ e ∙ (first_iff reply u decision t).1 c,
  )
