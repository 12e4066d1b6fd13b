-- ===== src/Events/Unchanged.antt =====
-- An event that is within the bounds is left as it is.
use mathlib.Core.Option
use research_agent_system.Common.{
  ℕ, zero, suc, ◌≤◌, String, Bool, Option, none, some, List, [], ◌∷◌, map, length, take, All, ◌≡◌,
  refl, arith, ap,
}
use research_agent_system.Events.Text.{truncate}
use research_agent_system.Events.RuntimeEvent.{
  RuntimePlanItem, RuntimePermissionOption, RuntimePermissionDecision, allowed, denied, cancelled,
  RuntimeEvent, session_started, session_resumed, assistant_message_delta,
  assistant_message_completed, reasoning_summary, plan_updated, tool_call_started,
  tool_call_updated, tool_call_completed, command_started, command_completed, file_changed,
  permission_requested, permission_resolved, subagent_started, subagent_completed, usage_updated,
  runtime_warning, runtime_error, checkpoint_created,
}
use research_agent_system.Events.Bounded.{
  max_runtime_id_bytes, max_runtime_summary_bytes, truncate_id, truncate_summary, bound_item,
  bound_option, bound_decision, keep_if, bound_fields,
}
use research_agent_system.Events.Within.{
  Fits, FitsIfAny, ItemFits, OptionFits, DecisionFits, FiniteIfAny, IsWithin,
}

truncate-eq : (text : String) (max : ℕ) → Fits max text → truncate text max ≡ text
unfolding truncate
truncate-eq text max h = ground arith

truncate_id-eq : (text : String) → Fits max_runtime_id_bytes text → truncate_id text ≡ text
unfolding truncate_id
truncate_id-eq text h = truncate-eq text max_runtime_id_bytes h

truncate_summary-eq :
    (text : String) → Fits max_runtime_summary_bytes text → truncate_summary text ≡ text
unfolding truncate_summary
truncate_summary-eq text h = truncate-eq text max_runtime_summary_bytes h

some_id-eq : (o : Option String) → FitsIfAny max_runtime_id_bytes o → Option.map truncate_id o ≡ o
some_id-eq none h = refl
some_id-eq (some text) h = ap some (truncate_id-eq text h)

some_summary-eq :
    (o : Option String) → FitsIfAny max_runtime_summary_bytes o → Option.map truncate_summary o ≡ o
some_summary-eq none h = refl
some_summary-eq (some text) h = ap some (truncate_summary-eq text h)

bound_item-eq : (item : RuntimePlanItem) → ItemFits item → bound_item item ≡ item
unfolding bound_item
bound_item-eq item h = rw (truncate-eq item.text _ h.0) (rw (some_id-eq item.status h.1) refl)

bound_option-eq : (o : RuntimePermissionOption) → OptionFits o → bound_option o ≡ o
unfolding bound_option
bound_option-eq o h = rw (truncate_id-eq o.option_id h.0) (rw (truncate_id-eq o.label h.1) refl)

bound_decision-eq : (d : RuntimePermissionDecision) → DecisionFits d → bound_decision d ≡ d
unfolding bound_decision
bound_decision-eq denied h = refl
bound_decision-eq (allowed id) h = ap allowed (some_id-eq id h)
bound_decision-eq cancelled h = refl

keep_if-eq :
    {F : Type 0} (p : F → Bool) (cost : Option F) → FiniteIfAny p cost → keep_if p cost ≡ cost
keep_if-eq p none h = refl
keep_if-eq p (some c) h = rw h refl

map-take-eq {ℓ κ} :
    {A : Type ℓ} (P : A → Type κ) (f : A → A)
    → ((a : A) → P a → f a ≡ a)
    → (n : ℕ) (xs : List A) → length xs ≤ n
    → All P xs
    → map f (take n xs) ≡ xs
map-take-eq P f fixed zero [] short h = refl
map-take-eq P f fixed zero (x ∷ xs) short h = absurd (omega arith)
map-take-eq P f fixed (suc n) [] short h = refl
map-take-eq P f fixed (suc n) (x ∷ xs) short h =
    rw (fixed x h.0) (rw (map-take-eq P f fixed n xs (omega arith) h.1) refl)

-- An event whose fields are within their bounds is its own bounded form.
pub bound_fields-eq :
    {F : Type 0} (p : F → Bool) (e : RuntimeEvent F) → IsWithin p e → bound_fields p e ≡ e
unfolding bound_fields
bound_fields-eq p (session_started id) h = rw (truncate_id-eq id h) refl
bound_fields-eq p (session_resumed id) h = rw (truncate_id-eq id h) refl
bound_fields-eq p (assistant_message_delta text) h = rw (truncate_summary-eq text h) refl
bound_fields-eq p (assistant_message_completed text) h = rw (truncate-eq text _ h) refl
bound_fields-eq p (reasoning_summary text) h = rw (truncate_summary-eq text h) refl
bound_fields-eq p (plan_updated items) h =
    rw (map-take-eq ItemFits bound_item bound_item-eq _ items h.0 h.1) refl
bound_fields-eq p (tool_call_started id tool input) h =
    rw (truncate_id-eq id h.0, truncate_id-eq tool h.1, truncate_summary-eq input h.2) refl
bound_fields-eq p (tool_call_updated id status output) h =
    rw (truncate_id-eq id h.0, truncate_id-eq status h.1, some_summary-eq output h.2) refl
bound_fields-eq p (tool_call_completed id tool done output) h =
    rw (truncate_id-eq id h.0, truncate_id-eq tool h.1, truncate_summary-eq output h.2) refl
bound_fields-eq p (command_started id command) h =
    rw (truncate_id-eq id h.0, truncate-eq command _ h.1) refl
bound_fields-eq p (command_completed id code output) h =
    rw (truncate_id-eq id h.0, truncate_summary-eq output h.1) refl
bound_fields-eq p (file_changed path change) h = rw (truncate_summary-eq path h) refl
bound_fields-eq p (permission_requested id action options) h =
    rw
      (
        truncate_id-eq id h.0,
        truncate_summary-eq action h.1,
        map-take-eq OptionFits bound_option bound_option-eq _ options h.2 h.3,
      )
      refl
bound_fields-eq p (permission_resolved id decision) h =
    rw (truncate_id-eq id h.0, bound_decision-eq decision h.1) refl
bound_fields-eq p (subagent_started id parent) h =
    rw (truncate_id-eq id h.0, some_id-eq parent h.1) refl
bound_fields-eq p (subagent_completed id status) h =
    rw (truncate_id-eq id h.0, truncate_id-eq status h.1) refl
bound_fields-eq p (usage_updated input cached output reasoning cost) h =
    rw (keep_if-eq p cost h) refl
bound_fields-eq p (runtime_warning code message) h =
    rw (some_id-eq code h.0, truncate_summary-eq message h.1) refl
bound_fields-eq p (runtime_error code message) h =
    rw (some_id-eq code h.0, truncate_summary-eq message h.1) refl
bound_fields-eq p (checkpoint_created id) h = rw (some_id-eq id h) refl
