-- ===== src/Common/TreeMap.antt =====
-- `std::collections::BTreeMap<String, V>`: entries in the order of their keys, each key once.
use Prim.Native.Nat.{Ordering}
use Prim.Native.String.{String, compare}
use mathlib.Core.Path.{◌≡◌, refl}
use mathlib.Core.Bool.{Bool, true, ◌||◌}
use mathlib.Core.Option.{Option, none, some}
use mathlib.Core.List.{List, [], ◌∷◌, map}
use native.Mathlib.Omega.{arith}
use text.Mathlib.TextEquality.{eq_iff, path_by_compare}
use text.Mathlib.TextPositions.{compare_refl}
use research_agent_system.Common.Tests.{if◌then◌else◌, ◌==◌, string_eq}
use research_agent_system.Common.Lists.{All, any}
use research_agent_system.Common.TextOrder.{gt→lt, compare_trans}

abbrev pub TreeMap {ℓ} : Type ℓ → Type ℓ
TreeMap V = List (String × V)

module _ {ℓ} {V : Type ℓ} where
  unfoldable pub insert : String → V → TreeMap V → TreeMap V
  insert k v [] = (k, v) ∷ []
  insert k v ((j, w) ∷ m) = elim (compare k j) [
    | Ordering.lt ↦ (k, v) ∷ (j, w) ∷ m
    | Ordering.eq ↦ (k, v) ∷ m
    | Ordering.gt ↦ (j, w) ∷ insert k v m
  ]

  unfoldable pub get : String → TreeMap V → Option V
  get k [] = none
  get k ((j, w) ∷ m) = if j == k then some w else get k m

  unfoldable pub keys : TreeMap V → List String
  keys m = map (λ e. e.0) m

  -- Every key comes before the keys behind it.
  abbrev pub IsSorted : TreeMap V → Type ℓ
  IsSorted [] = Unit
  IsSorted ((k, v) ∷ m) = All (λ e. compare k e.0 ≡ Ordering.lt) m × IsSorted m

  pub get-insert :
      (k j : String) (v : V) (m : TreeMap V)
      → IsSorted m
      → get j (insert k v m) ≡ (if k == j then some v else get j m)
  unfolding get insert
  get-insert k j v [] s = refl
  get-insert k j v ((i, w) ∷ m) s =
      ground
        (arith, eq_iff k j, eq_iff i j, path_by_compare k i, compare_refl i, get-insert k j v m)

  pub All-insert {κ} :
      (P : String × V → Type κ) (k : String) (v : V) (m : TreeMap V)
      → P (k, v)
      → All P m
      → All P (insert k v m)
  unfolding insert
  All-insert P k v [] p a = (p, tt)
  All-insert P k v ((j, w) ∷ m) p a = ground (arith, All-insert P k v m)

  pub All-get {κ} :
      (P : String × V → Type κ) (k : String) {v : V} (m : TreeMap V)
      → All P m
      → get k m ≡ some v
      → P (k, v)
  unfolding get
  All-get P k [] a h = cc
  All-get P k {v} ((j, w) ∷ m) a h = ground (arith, eq_iff j k, All-get P k {v = v} m)

  All-Above :
      (k j : String) (m : TreeMap V)
      → compare k j ≡ Ordering.lt
      → All (λ e. compare j e.0 ≡ Ordering.lt) m
      → All (λ e. compare k e.0 ≡ Ordering.lt) m
  All-Above k j [] h a = tt
  All-Above k j ((i, w) ∷ m) h a = (compare_trans k j i h a.0, All-Above k j m h a.1)

  pub insert-IsSorted : (k : String) (v : V) (m : TreeMap V) → IsSorted m → IsSorted (insert k v m)
  unfolding insert
  insert-IsSorted k v [] s = (tt, tt)
  insert-IsSorted k v ((j, w) ∷ m) s = ground (
    arith,
    path_by_compare k j,
    gt→lt k j,
    All-Above k j m,
    All-insert (λ e. compare j e.0 ≡ Ordering.lt) k v m,
    insert-IsSorted k v m,
  )

  pub any-insert :
      (p : String × V → Bool) (k : String) (v : V) (m : TreeMap V)
      → any p (insert k v m) ≡ true
      → (p (k, v) || any p m) ≡ true
  unfolding insert
  any-insert p k v [] h = h
  any-insert p k v ((j, w) ∷ m) h = ground (arith, any-insert p k v m)

  pub any-get :
      (p : String × V → Bool) (k : String) (v : V) (m : TreeMap V)
      → get k m ≡ some v
      → p (k, v) ≡ true
      → any p m ≡ true
  unfolding get
  any-get p k v [] g h = cc
  any-get p k v ((j, w) ∷ m) g h = ground (arith, eq_iff j k, any-get p k v m)
