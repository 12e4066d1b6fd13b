-- ===== src/Common/Outcome.antt =====
-- `Result` and the `?` operator: pure, and over a state that a failure leaves as far as it came.
use mathlib.Core.Path.{◌≡◌, refl}
use mathlib.Core.Logic.{◌⊎◌, inl, inr}
use mathlib.Core.Bool.{Bool, true, false}
use mathlib.Core.Option.{Option, none, some}
use mathlib.Core.List.{List, [], ◌∷◌}

pub data Result {ℓ κ} (E : Type ℓ) (A : Type κ) : Type (ℓ ⊔ κ) where
  ok : A → Result E A
  err : E → Result E A

-- A method that may fail and changes an object of type `S`: an early return keeps what was done.
abbrev pub Exec {ℓ} : Type ℓ → Type ℓ → Type ℓ → Type ℓ
Exec S E A = S → Result E A × S

abbrev pub continue {ℓ} : {S E A B : Type ℓ} → (A → Exec S E B) → Result E A → S → Result E B × S
continue f (ok a) s = f a s
continue f (err e) s = (err e, s)

infixl 10 ◌>>=◌ ◌>>◌
abbrev pub ◌>>=◌ {ℓ} : {S E A B : Type ℓ} → Exec S E A → (A → Exec S E B) → Exec S E B
◌>>=◌ m f s = continue f (m s).0 (m s).1

abbrev pub ◌>>◌ {ℓ} : {S E A B : Type ℓ} → Exec S E A → Exec S E B → Exec S E B
m >> n = m >>= λ _. n

abbrev pub pure {ℓ} : {S E A : Type ℓ} → A → Exec S E A
pure a s = (ok a, s)

abbrev pub raise {ℓ} : {S E A : Type ℓ} → E → Exec S E A
raise e s = (err e, s)

-- `if refused { return Err(e); }`
abbrev pub refuse_when {ℓ} : {S E : Type ℓ} → Bool → E → Exec S E (Unit {ℓ})
refuse_when true e = raise e
refuse_when false e = pure tt

-- `?` on a plain result
abbrev pub of_result {ℓ} : {S E A : Type ℓ} → Result E A → Exec S E A
of_result r s = (r, s)

-- `map_err`
abbrev pub map_err {ℓ κ μ} :
    {E : Type ℓ} {F : Type κ} {A : Type μ} → (E → F) → Result E A → Result F A
map_err f (ok a) = ok a
map_err f (err e) = err (f e)

-- `map`
abbrev pub map_ok {ℓ κ μ} :
    {E : Type ℓ} {A : Type κ} {B : Type μ} → (A → B) → Result E A → Result E B
map_ok f (ok a) = ok (f a)
map_ok f (err e) = err e

-- `ok_or`
abbrev pub ok_or {ℓ κ} : {E : Type ℓ} {A : Type κ} → Option A → E → Result E A
ok_or none e = err e
ok_or (some a) e = ok a

-- `for x in xs { step(x)?; }`
abbrev pub for_each {ℓ} :
    {S E A : Type ℓ} → (A → Exec S E (Unit {ℓ})) → List A → Exec S E (Unit {ℓ})
for_each step [] = pure tt
for_each step (x ∷ xs) = do step x; for_each step xs

module _ {ℓ} {S E A B : Type ℓ} where
  -- A step that returns hands over its value and its state.
  pub bind-run :
      (m : Exec S E A) (f : A → Exec S E B) {s t : S} {a : A}
      → m s ≡ (ok a, t)
      → (m >>= f) s ≡ f a t
  bind-run m f h i = continue f (h i).0 (h i).1

  -- A sequence returns exactly when its parts do.
  pub bind-eq-ok :
      (m : Exec S E A) (f : A → Exec S E B) {s t : S} {b : B}
      → (m >>= f) s ≡ (ok b, t)
      → (a : A) × (u : S) × (m s ≡ (ok a, u)) × (f a u ≡ (ok b, t))
  bind-eq-ok m f {s} {t} {b} h = go (m s).0 refl h
    where
      go :
          (r : Result E A)
          → (m s).0 ≡ r
          → continue f r (m s).1 ≡ (ok b, t)
          → (a : A) × (u : S) × (m s ≡ (ok a, u)) × (f a u ≡ (ok b, t))
      go (ok a) p h = (a, (m s).1, λ i. (p i, (m s).1), h)
      go (err e) p h = cc

  -- A sequence fails where its first failing part does.
  pub bind-eq-err :
      (m : Exec S E A) (f : A → Exec S E B) (s : S) (e : E)
      → ((m >>= f) s).0 ≡ err e
      → ((m s).0 ≡ err e) × (((m >>= f) s).1 ≡ (m s).1)
        ⊎ ((a : A) × (u : S) × (m s ≡ (ok a, u)) × ((m >>= f) s ≡ f a u))
  bind-eq-err m f s e h = go (m s).0 refl h
    where
      go :
          (r : Result E A)
          → (m s).0 ≡ r
          → (continue f r (m s).1).0 ≡ err e
          → (r ≡ err e) × ((continue f r (m s).1).1 ≡ (m s).1)
            ⊎ ((a : A) × (u : S) × (m s ≡ (ok a, u)) × (continue f r (m s).1 ≡ f a u))
      go (ok a) p h = inr (a, (m s).1, (λ i. (p i, (m s).1)), refl)
      go (err x) p h = inl (cc, refl)

module _ {ℓ} {S E A : Type ℓ} where
  pub pure-eq-ok : {s t : S} {a b : A} → pure {S = S} {E = E} a s ≡ (ok b, t) → (b ≡ a) × (t ≡ s)
  pure-eq-ok h = (cc, cc)

-- A guard that lets through had nothing to refuse, and changes nothing.
pub refuse_when-eq-ok {ℓ} :
    {S E : Type ℓ} (b : Bool) (e : E) {s t : S} {u : Unit {ℓ}}
    → refuse_when b e s ≡ (ok u, t)
    → (b ≡ false) × (t ≡ s)
refuse_when-eq-ok true e h = absurd cc
refuse_when-eq-ok false e h = (refl, cc)
