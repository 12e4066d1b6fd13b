-- ===== src/Events/Within.antt =====
-- What the bounds of crates/agentmosaic-team/src/runtime_event.rs promise of an event.
use Prim.Native.String.{len}
use mathlib.Core.Option
use research_agent_system.Common.{
  ℕ, zero, suc, ◌≤◌, String, Bool, true, Bool-cases, Option, none, some, List, [], ◌∷◌, map, length,
  take, All, ◌≡◌, inl, inr, arith,
}
use research_agent_system.Events.Text.{len-truncate-le}
use research_agent_system.Events.RuntimeEvent.{
  RuntimePlanItem, RuntimePermissionOption, RuntimePermissionDecision, allowed, denied, cancelled,
  RuntimeEvent, session_started, session_resumed, assistant_message_delta,
  assistant_message_completed, reasoning_summary, plan_updated, tool_call_started,
  tool_call_updated, tool_call_completed, command_started, command_completed, file_changed,
  permission_requested, permission_resolved, subagent_started, subagent_completed, usage_updated,
  runtime_warning, runtime_error, checkpoint_created,
}
use research_agent_system.Events.Bounded.{
  max_runtime_id_bytes, max_runtime_summary_bytes, max_assistant_message_bytes, max_command_bytes,
  max_plan_item_bytes, max_plan_items, max_permission_options, truncate_id, truncate_summary,
  bound_item, bound_option, bound_decision, keep_if, bound_fields,
}

abbrev pub Fits : ℕ → String → Type 0
Fits max text = len text ≤ max

abbrev pub FitsIfAny : ℕ → Option String → Type 0
FitsIfAny max none = Unit
FitsIfAny max (some text) = Fits max text

abbrev pub ItemFits : RuntimePlanItem → Type 0
ItemFits item = Fits max_plan_item_bytes item.text × FitsIfAny max_runtime_id_bytes item.status

abbrev pub OptionFits : RuntimePermissionOption → Type 0
OptionFits option =
    Fits max_runtime_id_bytes option.option_id × Fits max_runtime_id_bytes option.label

abbrev pub DecisionFits : RuntimePermissionDecision → Type 0
DecisionFits (allowed id) = FitsIfAny max_runtime_id_bytes id
DecisionFits decision = Unit

abbrev pub FiniteIfAny : {F : Type 0} → (F → Bool) → Option F → Type 0
FiniteIfAny is_finite none = Unit
FiniteIfAny is_finite (some cost) = is_finite cost ≡ true

-- every field is within its bound
abbrev pub IsWithin : {F : Type 0} → (F → Bool) → RuntimeEvent F → Type 0
IsWithin p (session_started id) = Fits max_runtime_id_bytes id
IsWithin p (session_resumed id) = Fits max_runtime_id_bytes id
IsWithin p (assistant_message_delta text) = Fits max_runtime_summary_bytes text
IsWithin p (assistant_message_completed text) = Fits max_assistant_message_bytes text
IsWithin p (reasoning_summary text) = Fits max_runtime_summary_bytes text
IsWithin p (plan_updated items) = (length items ≤ max_plan_items) × All ItemFits items
IsWithin p (tool_call_started id tool input) =
    Fits max_runtime_id_bytes id
    × Fits max_runtime_id_bytes tool
    × Fits max_runtime_summary_bytes input
IsWithin p (tool_call_updated id status output) =
    Fits max_runtime_id_bytes id
    × Fits max_runtime_id_bytes status
    × FitsIfAny max_runtime_summary_bytes output
IsWithin p (tool_call_completed id tool done output) =
    Fits max_runtime_id_bytes id
    × Fits max_runtime_id_bytes tool
    × Fits max_runtime_summary_bytes output
IsWithin p (command_started id command) =
    Fits max_runtime_id_bytes id × Fits max_command_bytes command
IsWithin p (command_completed id code output) =
    Fits max_runtime_id_bytes id × Fits max_runtime_summary_bytes output
IsWithin p (file_changed path change) = Fits max_runtime_summary_bytes path
IsWithin p (permission_requested id action options) =
    Fits max_runtime_id_bytes id
    × Fits max_runtime_summary_bytes action
    × (length options ≤ max_permission_options)
    × All OptionFits options
IsWithin p (permission_resolved id decision) = Fits max_runtime_id_bytes id × DecisionFits decision
IsWithin p (subagent_started id parent) =
    Fits max_runtime_id_bytes id × FitsIfAny max_runtime_id_bytes parent
IsWithin p (subagent_completed id status) =
    Fits max_runtime_id_bytes id × Fits max_runtime_id_bytes status
IsWithin p (usage_updated input cached output reasoning cost) = FiniteIfAny p cost
IsWithin p (runtime_warning code message) =
    FitsIfAny max_runtime_id_bytes code × Fits max_runtime_summary_bytes message
IsWithin p (runtime_error code message) =
    FitsIfAny max_runtime_id_bytes code × Fits max_runtime_summary_bytes message
IsWithin p (checkpoint_created id) = FitsIfAny max_runtime_id_bytes id

pub truncate_id-Fits : (text : String) → Fits max_runtime_id_bytes (truncate_id text)
unfolding truncate_id
truncate_id-Fits text = len-truncate-le text max_runtime_id_bytes (omega arith)

truncate_summary-Fits : (text : String) → Fits max_runtime_summary_bytes (truncate_summary text)
unfolding truncate_summary
truncate_summary-Fits text = len-truncate-le text max_runtime_summary_bytes (omega arith)

pub some_id-Fits : (o : Option String) → FitsIfAny max_runtime_id_bytes (Option.map truncate_id o)
some_id-Fits none = tt
some_id-Fits (some text) = truncate_id-Fits text

some_summary-Fits :
    (o : Option String) → FitsIfAny max_runtime_summary_bytes (Option.map truncate_summary o)
some_summary-Fits none = tt
some_summary-Fits (some text) = truncate_summary-Fits text

bound_item-Fits : (item : RuntimePlanItem) → ItemFits (bound_item item)
unfolding bound_item
bound_item-Fits item =
    (len-truncate-le item.text max_plan_item_bytes (omega arith), some_id-Fits item.status)

bound_option-Fits : (option : RuntimePermissionOption) → OptionFits (bound_option option)
unfolding bound_option
bound_option-Fits option = (truncate_id-Fits option.option_id, truncate_id-Fits option.label)

bound_decision-Fits : (d : RuntimePermissionDecision) → DecisionFits (bound_decision d)
unfolding bound_decision
bound_decision-Fits denied = tt
bound_decision-Fits (allowed id) = some_id-Fits id
bound_decision-Fits cancelled = tt

keep_if-FiniteIfAny : {F : Type 0} (p : F → Bool) (cost : Option F) → FiniteIfAny p (keep_if p cost)
keep_if-FiniteIfAny p none = tt
keep_if-FiniteIfAny p (some c) = elim (Bool-cases (p c)) [
  | inl finite ↦ rw finite finite
  | inr infinite ↦ rw infinite tt
]

module _ {ℓ} {A B : Type ℓ} where
  length-map-take : (f : A → B) (n : ℕ) (xs : List A) → length (map f (take n xs)) ≤ n
  length-map-take f zero xs = omega arith
  length-map-take f (suc n) [] = omega arith
  length-map-take f (suc n) (x ∷ xs) = omega (arith, length-map-take f n xs)

  map-All {κ} :
      (P : B → Type κ) (f : A → B) → ((a : A) → P (f a)) → (xs : List A) → All P (map f xs)
  map-All P f h [] = tt
  map-All P f h (x ∷ xs) = (h x, map-All P f h xs)

-- Every field is within its bound afterwards.
pub bound_fields-IsWithin :
    {F : Type 0} (p : F → Bool) (e : RuntimeEvent F) → IsWithin p (bound_fields p e)
unfolding bound_fields
bound_fields-IsWithin p (session_started id) = truncate_id-Fits id
bound_fields-IsWithin p (session_resumed id) = truncate_id-Fits id
bound_fields-IsWithin p (assistant_message_delta text) = truncate_summary-Fits text
bound_fields-IsWithin p (assistant_message_completed text) =
    len-truncate-le text max_assistant_message_bytes (omega arith)
bound_fields-IsWithin p (reasoning_summary text) = truncate_summary-Fits text
bound_fields-IsWithin p (plan_updated items) = (
  length-map-take bound_item max_plan_items items,
  map-All ItemFits bound_item bound_item-Fits (take max_plan_items items),
)
bound_fields-IsWithin p (tool_call_started id tool input) =
    (truncate_id-Fits id, truncate_id-Fits tool, truncate_summary-Fits input)
bound_fields-IsWithin p (tool_call_updated id status output) =
    (truncate_id-Fits id, truncate_id-Fits status, some_summary-Fits output)
bound_fields-IsWithin p (tool_call_completed id tool done output) =
    (truncate_id-Fits id, truncate_id-Fits tool, truncate_summary-Fits output)
bound_fields-IsWithin p (command_started id command) =
    (truncate_id-Fits id, len-truncate-le command max_command_bytes (omega arith))
bound_fields-IsWithin p (command_completed id code output) =
    (truncate_id-Fits id, truncate_summary-Fits output)
bound_fields-IsWithin p (file_changed path change) = truncate_summary-Fits path
bound_fields-IsWithin p (permission_requested id action options) = (
  truncate_id-Fits id,
  truncate_summary-Fits action,
  length-map-take bound_option max_permission_options options,
  map-All OptionFits bound_option bound_option-Fits (take max_permission_options options),
)
bound_fields-IsWithin p (permission_resolved id decision) =
    (truncate_id-Fits id, bound_decision-Fits decision)
bound_fields-IsWithin p (subagent_started id parent) = (truncate_id-Fits id, some_id-Fits parent)
bound_fields-IsWithin p (subagent_completed id status) =
    (truncate_id-Fits id, truncate_id-Fits status)
bound_fields-IsWithin p (usage_updated input cached output reasoning cost) =
    keep_if-FiniteIfAny p cost
bound_fields-IsWithin p (runtime_warning code message) =
    (some_id-Fits code, truncate_summary-Fits message)
bound_fields-IsWithin p (runtime_error code message) =
    (some_id-Fits code, truncate_summary-Fits message)
bound_fields-IsWithin p (checkpoint_created id) = some_id-Fits id
