-- ===== src/Common/TextOrder.antt =====
-- The order of `str`: by code points, which is the order of the UTF-8 bytes.
use Prim.Native.Nat.{Ordering}
use Prim.Native.String.{String, [], ◌∷◌, compare}
use Prim.Native.String.compare
use mathlib.Core.Path.{◌≡◌}
use native.Mathlib.Omega.{arith}

pub gt→lt : (s t : String) → compare s t ≡ Ordering.gt → compare t s ≡ Ordering.lt
gt→lt [] [] h = ground (arith, compare.nil-nil)
gt→lt [] (d ∷ t) h = ground (arith, compare.nil-cons d t)
gt→lt (c ∷ s) [] h = compare.nil-cons c s
gt→lt (c ∷ s) (d ∷ t) h =
    ground (arith, compare.cons-cons c d s t, compare.cons-cons d c t s, gt→lt s t)

pub compare_trans :
    (s t u : String)
    → compare s t ≡ Ordering.lt
    → compare t u ≡ Ordering.lt
    → compare s u ≡ Ordering.lt
compare_trans [] [] u p q = ground (arith, compare.nil-nil)
compare_trans (c ∷ s) [] u p q = ground (arith, compare.cons-nil c s)
compare_trans s (d ∷ t) [] p q = ground (arith, compare.cons-nil d t)
compare_trans [] (d ∷ t) (e ∷ u) p q = compare.nil-cons e u
compare_trans (c ∷ s) (d ∷ t) (e ∷ u) p q = ground (
  arith,
  compare.cons-cons c d s t,
  compare.cons-cons d e t u,
  compare.cons-cons c e s u,
  compare_trans s t u,
)

-- The order of `sort` and of `BTreeMap` keys.
abbrev pub ◌≺◌ : String → String → Type 0
◌≺◌ s t = compare s t ≡ Ordering.lt
