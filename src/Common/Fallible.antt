-- ===== src/Common/Fallible.antt =====
-- `?` on a plain `Result`: the first failure is the result.
use mathlib.Core.Path.{◌≡◌, refl, ap}
use mathlib.Core.Logic.{◌↔◌}
use mathlib.Core.List.{List, [], ◌∷◌}
use mathlib.Core.Bool.{Bool, true, false}
use research_agent_system.Common.Outcome.{Result, ok, err, map_ok, map_err}

infixl 10 ◌>>=◌ ◌>>◌
abbrev pub ◌>>=◌ {ℓ κ μ} :
    {E : Type ℓ} {A : Type κ} {B : Type μ} → Result E A → (A → Result E B) → Result E B
ok a >>= f = f a
err e >>= f = err e

abbrev pub ◌>>◌ {ℓ κ μ} :
    {E : Type ℓ} {A : Type κ} {B : Type μ} → Result E A → Result E B → Result E B
m >> n = m >>= λ _. n

-- `if refused { return Err(e); }`
abbrev pub refuse_if {ℓ} : {E : Type ℓ} → Bool → E → Result E (Unit {0})
refuse_if true e = err e
refuse_if false e = ok tt

-- `.map(f).collect::<Result<Vec<_>, _>>()`, and the loop that pushes what `f` returns
unfoldable pub collect {ℓ κ μ} :
    {E : Type ℓ} {A : Type κ} {B : Type μ} → (A → Result E B) → List A → Result E (List B)
collect f [] = ok []
collect f (x ∷ xs) = do y ← f x; ys ← collect f xs; ok (y ∷ ys)

-- A guard lets through exactly what it does not refuse.
pub refuse_if-eq-ok {ℓ} :
    {E : Type ℓ} (b : Bool) (e : E) {u : Unit {0}} → refuse_if b e ≡ ok u → b ≡ false
refuse_if-eq-ok true e h = cc
refuse_if-eq-ok false e h = refl

-- A chain returns exactly when its parts do.
pub bind-eq-ok {ℓ κ μ} :
    {E : Type ℓ} {A : Type κ} {B : Type μ} (step : Result E A) (next : A → Result E B) {end : B}
    → (step >>= next) ≡ ok end
    → (a : A) × (step ≡ ok a) × (next a ≡ ok end)
bind-eq-ok (err e) next h = cc
bind-eq-ok (ok a) next h = (a, refl, h)

module _ {ℓ κ} {E : Type ℓ} {B : Type κ} where
  err-ne-ok : {e : E} {end : B} → err e ≡ ok end → ⊥
  err-ne-ok h = cc

  -- A guarded computation returns exactly when the guard lets through and the rest returns.
  pub guarded_iff :
      (b : Bool) (e : E) (rest : Result E B) (end : B)
      → ((refuse_if b e >> rest) ≡ ok end) ↔ ((b ≡ false) × (rest ≡ ok end))
  guarded_iff true e rest end = (λ h. absurd (err-ne-ok h), λ h. absurd cc)
  guarded_iff false e rest end = (λ h. (refl, h), λ h. h.1)

-- After a part that returns comes the rest.
pub bind-of_ok {ℓ κ μ} :
    {E : Type ℓ} {A : Type κ} {B : Type μ} (step : Result E A) (next : A → Result E B) {a : A}
    → step ≡ ok a
    → (step >>= next) ≡ next a
bind-of_ok step next h i = h i >>= next

pub ok_inj {ℓ κ} : {E : Type ℓ} {A : Type κ} {x y : A} → ◌≡◌ {A = Result E A} (ok x) (ok y) → x ≡ y
ok_inj h = cc

pub map_ok-eq-ok {ℓ κ μ} :
    {E : Type ℓ} {A : Type κ} {B : Type μ} (f : A → B) (r : Result E A) {b : B}
    → map_ok f r ≡ ok b
    → (a : A) × (r ≡ ok a) × (f a ≡ b)
map_ok-eq-ok f (ok a) h = (a, refl, ok_inj h)
map_ok-eq-ok f (err e) h = absurd cc

pub map_err-eq-ok {ℓ κ μ} :
    {E : Type ℓ} {F : Type κ} {A : Type μ} (f : E → F) (r : Result E A) {a : A}
    → map_err f r ≡ ok a
    → r ≡ ok a
map_err-eq-ok f (ok a) h = ap ok (ok_inj h)
map_err-eq-ok f (err e) h = absurd cc

pub seq-eq-ok {ℓ κ μ} :
    {E : Type ℓ} {A : Type κ} {B : Type μ} (step : Result E A) (rest : Result E B) {end : B}
    → (step >> rest) ≡ ok end
    → rest ≡ ok end
seq-eq-ok (err e) rest h = absurd cc
seq-eq-ok (ok a) rest h = h

pub collect-one {ℓ κ μ} :
    {E : Type ℓ} {A : Type κ} {B : Type μ} (f : A → Result E B) (x : A) {y : B}
    → f x ≡ ok y
    → collect f (x ∷ []) ≡ ok (y ∷ [])
unfolding collect
collect-one f x h = rw h refl
