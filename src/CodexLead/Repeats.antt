-- ===== src/CodexLead/Repeats.antt =====
-- The loop over `selected_task_ids` in crates/agentmosaic-runtime/src/codex_lead.rs, and the other
-- tests that the contract states as propositions.
use Prim.Native.String.{String}
use text.Mathlib.TextLemmas.{cons≢nil}
use research_agent_system.Common.{
  ℕ, ◌≤◌, Bool, true, false, not, ◌||◌, List, [], ◌∷◌, ◌++◌, length, All, is_empty, contains,
  IsNodup, ◌≡◌, ◌≢◌, ◌↔◌, refl, arith, ltb, ok, ◌==◌, nat_eq,
}
use research_agent_system.Common.Fallible.{guarded_iff}
use research_agent_system.Common.Trim.{is_empty_text}
use research_agent_system.CodexLead.Parse.{check_repeats}

pub is_empty_text_iff : (text : String) → (is_empty_text text ≡ false) ↔ (text ≢ "")
is_empty_text_iff String.[] = (λ h. absurd cc, λ h. absurd (h refl))
is_empty_text_iff (String.◌∷◌ c s) = (λ h. cons≢nil, λ h. refl)

pub not-false_iff : (b : Bool) → (not b ≡ false) ↔ (b ≡ true)
not-false_iff true = (λ h. refl, λ h. refl)
not-false_iff false = (λ h. absurd cc, λ h. absurd cc)

pub or-false_iff : (a b : Bool) → ((a || b) ≡ false) ↔ ((a ≡ false) × (b ≡ false))
or-false_iff true b = (λ h. absurd cc, λ h. absurd cc)
or-false_iff false b = (λ h. (refl, h), λ h. h.1)

pub ltb-false_iff : (a b : ℕ) → (ltb a b ≡ false) ↔ (b ≤ a)
ltb-false_iff a b = ground arith

pub is_empty-false_iff {ℓ} : {A : Type ℓ} (xs : List A) → (is_empty xs ≡ false) ↔ (1 ≤ length xs)
is_empty-false_iff [] = ground arith
is_empty-false_iff (x ∷ xs) = ground arith

contains-snoc-false :
    (a b : ℕ) (xs : List ℕ)
    → (contains a (xs ++ b ∷ []) ≡ false) ↔ ((contains a xs ≡ false) × ((a == b) ≡ false))
contains-snoc-false a b [] = ground arith
contains-snoc-false a b (x ∷ xs) = ground (arith, contains-snoc-false a b xs)

fresh-snoc :
    (x : ℕ) (earlier ids : List ℕ)
    → All (λ a. contains a (earlier ++ x ∷ []) ≡ false) ids
      ↔ (All (λ a. contains a earlier ≡ false) ids × (contains x ids ≡ false))
fresh-snoc x earlier [] = (λ h. (tt, refl), λ h. tt)
fresh-snoc x earlier (a ∷ ids) = (
  λ h. ground (arith, contains-snoc-false a x earlier, fresh-snoc x earlier ids),
  λ h. ground (arith, contains-snoc-false a x earlier, fresh-snoc x earlier ids),
)

-- The loop returns exactly when no id repeats, or is an earlier one.
check_repeats-from :
    (earlier ids : List ℕ)
    → (check_repeats earlier ids ≡ ok tt)
      ↔ (IsNodup ids × All (λ a. contains a earlier ≡ false) ids)
unfolding check_repeats
check_repeats-from earlier [] = (λ h. (tt, tt), λ h. refl)
check_repeats-from earlier (id ∷ ids) = (
  λ h.
      let (fresh, h') = (guarded_iff _ _ _ tt).0 h in
      let (nodup, all) = (check_repeats-from (earlier ++ id ∷ []) ids).0 h' in
      let (old, new) = (fresh-snoc id earlier ids).0 all in ((new, nodup), (fresh, old)),
  λ h. (guarded_iff _ _ _ tt).1 (
    h.1.0,
    (check_repeats-from (earlier ++ id ∷ []) ids).1
        (h.0.1, (fresh-snoc id earlier ids).1 (h.1.1, h.0.0)),
  ),
)

pub check_repeats_iff : (ids : List ℕ) → (check_repeats [] ids ≡ ok tt) ↔ IsNodup ids
check_repeats_iff ids =
    (λ h. ((check_repeats-from [] ids).0 h).0, λ h. (check_repeats-from [] ids).1 (h, all-new ids))
  where
    all-new : (ids : List ℕ) → All (λ a. contains a [] ≡ false) ids
    all-new [] = tt
    all-new (a ∷ ids) = (refl, all-new ids)
