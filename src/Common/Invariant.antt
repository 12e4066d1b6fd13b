-- ===== src/Common/Invariant.antt =====
-- What a method that may fail leaves true of its object, whether it succeeds or fails.
use research_agent_system.Common.Outcome.{Result, ok, err, Exec, continue, ◌>>=◌}

module _ {ℓ} {S E : Type ℓ} (P : S → Type ℓ) where
  -- A method after which `P` still holds.
  abbrev pub Preserves : {A : Type ℓ} → Exec S E A → Type ℓ
  Preserves m = (s : S) → P s → P (m s).1

  pub bind-Preserves :
      {A B : Type ℓ} (m : Exec S E A) (f : A → Exec S E B)
      → Preserves m
      → ((a : A) → Preserves (f a))
      → Preserves (m >>= f)
  bind-Preserves {A} {B} m f hm hf s p = go (m s).0 (m s).1 (hm s p)
    where
      go : (r : Result E A) (u : S) → P u → P (continue f r u).1
      go (ok a) u q = hf a u q
      go (err e) u q = q
