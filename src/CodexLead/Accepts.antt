-- ===== src/CodexLead/Accepts.antt =====
-- `parse_reply` of crates/agentmosaic-runtime/src/codex_lead.rs accepts exactly what the contract
-- allows.
use research_agent_system.Common.{map_ok, map_err, ℕ, String, List, ◌≡◌, ◌≢◌, ◌↔◌, sym, ap, ◌∙◌, ok}
use research_agent_system.Common.Fallible.{
  collect, guarded_iff, bind-eq-ok, bind-of_ok, ok_inj, map_ok-eq-ok, map_err-eq-ok,
}
use research_agent_system.Common.Trim.{is_ascii_whitespace, trim_matches}
use research_agent_system.Lead.Data.{LeadDecision}
use research_agent_system.CodexLead.Wire.{DecisionWire, delegate, follow_up, complete, Reader}
use research_agent_system.CodexLead.Parse.{task_spec, team_result, decide_wire, parse_reply}
use research_agent_system.CodexLead.Repeats.{
  is_empty_text_iff, or-false_iff, ltb-false_iff, is_empty-false_iff,
}
use research_agent_system.CodexLead.Contract.{IsSpecOf, IsDecisionOf}
use research_agent_system.CodexLead.Parts.{
  Implements, collect-Pairwise, task_spec_iff, team_result_iff,
}

-- The decision that is made of what was read is the one that the contract allows, if there is one.
decide_wire_iff :
    (candidates : List String) (max : ℕ)
    → Implements (decide_wire candidates max) (IsDecisionOf candidates max)
unfolding decide_wire
decide_wire_iff candidates max (delegate tasks) decision = (
  λ h.
      let (count, h₁) = (guarded_iff _ _ _ decision).0 h in
      let (specs, each, h₂) = bind-eq-ok (collect (task_spec candidates) tasks) _ h₁ in
      let (one, few) = (or-false_iff _ _).0 count in
      (
        specs,
        sym (ok_inj h₂),
        (is_empty-false_iff tasks).0 one,
        (ltb-false_iff _ _).0 few,
        (collect-Pairwise (task_spec candidates) (IsSpecOf candidates) (task_spec_iff candidates)
              tasks specs).0
            each,
      ),
  λ (specs, same, one, few, each). (guarded_iff _ _ _ decision).1 (
    (or-false_iff _ _).1 ((is_empty-false_iff tasks).1 one, (ltb-false_iff _ _).1 few),
    bind-of_ok _ _ (
          (collect-Pairwise (task_spec candidates) (IsSpecOf candidates) (task_spec_iff candidates)
              tasks specs).1
            each)
        ∙ ap ok (sym same),
  ),
)
decide_wire_iff candidates max (follow_up task) decision = (
  λ h.
      let (spec, e, h') = bind-eq-ok (task_spec candidates task) _ h in
      (spec, sym (ok_inj h'), (task_spec_iff candidates task spec).0 e),
  λ (spec, same, of). bind-of_ok _ _ ((task_spec_iff candidates task spec).1 of) ∙ ap ok (sym same),
)
decide_wire_iff candidates max (complete text ids artifacts) decision = (
  λ h.
      let (result, e, same) =
        map_ok-eq-ok LeadDecision.complete (team_result max text ids artifacts) h in
      (result, sym same, (team_result_iff max text ids artifacts result).0 e),
  λ (result, same, of).
      ap (map_ok LeadDecision.complete) ((team_result_iff max text ids artifacts result).1 of)
      ∙ ap ok (sym same),
)

-- `parse_reply` accepts a reply exactly if, without the white space around it, it is not empty, is
-- read as one decision object, and the contract allows a decision for that object; that decision
-- is what it returns.
pub parse_reply_iff :
    (from_str : Reader) (candidates : List String) (max : ℕ) (reply : String)
    (decision : LeadDecision)
    → (parse_reply from_str candidates max reply ≡ ok decision) ↔ (
        (trim_matches is_ascii_whitespace reply ≢ "")
        × ((wire : DecisionWire) × (from_str (trim_matches is_ascii_whitespace reply) ≡ ok wire)
            × IsDecisionOf candidates max wire decision))
unfolding parse_reply
parse_reply_iff from_str candidates max reply decision = (
  λ h.
      let (full, h₁) = (guarded_iff _ _ _ decision).0 h in
      let (wire, e, h₂) =
        bind-eq-ok (map_err _ (from_str (trim_matches is_ascii_whitespace reply))) _ h₁ in
      (
        (is_empty_text_iff _).0 full,
        (
          wire,
          map_err-eq-ok _ (from_str (trim_matches is_ascii_whitespace reply)) e,
          (decide_wire_iff candidates max wire decision).0 h₂,
        ),
      ),
  λ (full, (wire, e, of)). (guarded_iff _ _ _ decision).1 (
    (is_empty_text_iff _).1 full,
    bind-of_ok _ _ (ap (map_err _) e) ∙ (decide_wire_iff candidates max wire decision).1 of,
  ),
)
