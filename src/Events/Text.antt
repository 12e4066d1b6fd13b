-- ===== src/Events/Text.antt =====
-- The bounds on text: `bounded_event_text` of crates/agentmosaic-team/src/run_event.rs, and
-- `truncate` of runtime_event.rs. Lengths and positions count bytes of UTF-8.
use Prim.Native.Nat.{compare as compare_ℕ}
use Prim.Native.String.{len, slice}
use Prim.Native.String
use text.Mathlib.Text.{is_char_boundary, is_eq}
use text.Mathlib.TextEquality.{slice-prefix}
use text.Mathlib.TextBridge.{IsPrefix}
use text.Mathlib.TextPositions.{len-append, boundary-zero}
use text.Mathlib.TextLemmas.{append-nil}
use text.Mathlib.TextPositions.{boundary-append}
use research_agent_system.Common.{leb→le}
use native.Mathlib.Decide.{ℕ_discrete}
use research_agent_system.Common.{
  Ordering, subst, refl, ℕ, zero, suc, ◌-◌, ◌≤◌, min, String, ◌≡◌, true, arith, leb, if◌then◌else◌,
  Bool-cases, inl, inr,
}

-- `while end > 0 && !text.is_char_boundary(end) { end -= 1; }`
unfoldable pub boundary_below : String → ℕ → ℕ
boundary_below text zero = zero
boundary_below text (suc n) =
    let lower = boundary_below text n in if is_char_boundary text (suc n) then suc n else lower

-- The longest part of at most `max` bytes that splits no character.
unfoldable pub bounded : ℕ → String → String
unfolding boundary_below
bounded max text = if leb (len text) max then text else slice text 0 (boundary_below text max)

abbrev pub max_event_text_bytes : ℕ
max_event_text_bytes = 512

unfoldable pub bounded_event_text : String → String
unfolding bounded
bounded_event_text text = bounded max_event_text_bytes text

abbrev pub truncation_marker : String
truncation_marker = "...[truncated]"

-- `truncate`, whose result ends in the marker if it had to cut.
unfoldable pub truncate : String → ℕ → String
unfolding boundary_below
truncate text max_bytes =
    if leb (len text) max_bytes
    then text
    else String.◌++◌
        (slice text 0 (boundary_below text (min (max_bytes - len truncation_marker) (len text))))
        truncation_marker

-- The loop ends at a boundary, at most where it began,
boundary_below-is_boundary :
    (text : String) (n : ℕ)
    → (is_char_boundary text (boundary_below text n) ≡ true) × (boundary_below text n ≤ n)
unfolding boundary_below
boundary_below-is_boundary text zero = (boundary-zero text, omega arith)
boundary_below-is_boundary text (suc n) = ground (arith, boundary_below-is_boundary text n)

-- and passes no boundary on the way.
boundary_below-max :
    (text : String) (n k : ℕ) → k ≤ n → is_char_boundary text k ≡ true → k ≤ boundary_below text n
unfolding boundary_below
boundary_below-max text zero k h b = h
boundary_below-max text (suc n) k h b = elim (ℕ_discrete k (suc n)) [
  | yes e ↦ ground (arith, subst (λ j. is_char_boundary text j ≡ true) e b)
  | no other ↦ ground (arith, boundary_below-max text n k)
]

len-slice_boundary :
    (text : String) (k : ℕ) → is_char_boundary text k ≡ true → len (slice text 0 k) ≡ k
len-slice_boundary text k b = eq_by_is_eq (compare_ℕ (len (slice text 0 k)) k) refl b
  where
    eq_by_is_eq :
        (o : Ordering)
        → compare_ℕ (len (slice text 0 k)) k ≡ o
        → is_eq o ≡ true
        → len (slice text 0 k) ≡ k
    eq_by_is_eq Ordering.eq e h = ground arith
    eq_by_is_eq Ordering.lt e h = cc
    eq_by_is_eq Ordering.gt e h = cc

len-cut :
    (text : String) (n : ℕ) → len (slice text 0 (boundary_below text n)) ≡ boundary_below text n
len-cut text n = len-slice_boundary text _ (boundary_below-is_boundary text n).0

prefix-len : (part text : String) → IsPrefix part text → len part ≤ len text
prefix-len part text pre =
    subst (λ t. len part ≤ len t) pre.1 (omega (arith, len-append part pre.0))

-- Bounded text is the longest prefix of the text, in whole characters, that has at most `max`
-- bytes: it is a prefix, it keeps the bound, and no prefix that keeps the bound is longer.
pub bounded-longest :
    (max : ℕ) (text : String)
    → IsPrefix (bounded max text) text
      × (len (bounded max text) ≤ max)
      × ((part : String) → IsPrefix part text → len part ≤ max → len part ≤ len (bounded max text))
unfolding bounded
bounded-longest max text = elim (Bool-cases (leb (len text) max)) [
  | inl short ↦ rw short (
    ("", append-nil text),
    leb→le _ _ short,
    λ part pre fits. ground (arith, prefix-len part text pre),
  )
  | inr long ↦ rw long (
    slice-prefix text (boundary_below text max),
    ground (arith, len-cut text max, boundary_below-is_boundary text max),
    λ part pre fits. rw (len-cut text max) (
        boundary_below-max text max (len part) fits
          (subst (λ t. is_char_boundary t (len part) ≡ true) pre.1 (boundary-append part pre.0))),
  )
]

-- What `truncate` returns has at most `max_bytes` bytes, if the marker has.
pub len-truncate-le :
    (text : String) (max_bytes : ℕ)
    → len truncation_marker ≤ max_bytes
    → len (truncate text max_bytes) ≤ max_bytes
unfolding truncate
len-truncate-le text max_bytes h = elim (Bool-cases (leb (len text) max_bytes)) [
  | inl short ↦ rw short (ground arith)
  | inr long ↦ rw (long) (
      ground (
        arith,
        len-append (slice text 0 (boundary_below text (min (max_bytes - 14) (len text))))
            truncation_marker,
        len-cut text (min (max_bytes - 14) (len text)),
        boundary_below-is_boundary text (min (max_bytes - 14) (len text)),
      ))
]
