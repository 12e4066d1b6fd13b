-- ===== src/Events/Shrink.antt =====
-- The loop that drops the last item while an event of crates/agentmosaic-team/src/runtime_event.rs
-- is over the ceiling, and `Vec::pop`.
use mathlib.Core.Option
use research_agent_system.Common.{
  ℕ, zero, suc, ◌≤◌, Bool, true, false, Bool-cases, Option, none, some, Option-cases, List, [], ◌∷◌,
  ◌++◌, length, length-append, All, subst, ◌≡◌, refl, sym, ap, ◌∙◌, ◌⊎◌, inl, inr, arith,
}
use research_agent_system.Events.Bounded.{shrink, pop}

module _ {ℓ} {X : Type ℓ} (over : X → Bool) (drop : X → Option X) where
  -- the loop has nothing left to do
  abbrev pub IsDone : X → Type ℓ
  IsDone x = (over x ≡ false) ⊎ (drop x ≡ none)

  -- A loop with nothing to do changes nothing,
  pub shrink-eq : (n : ℕ) (x : X) → IsDone x → shrink over drop n x ≡ x
  unfolding shrink
  shrink-eq zero x h = refl
  shrink-eq (suc n) x (inl small) = rw (shrink, small) refl
  shrink-eq (suc n) x (inr last) = elim (Bool-cases (over x)) [
    | inl big ↦ rw (shrink, big, last) refl
    | inr small ↦ rw (shrink, small) refl
  ]

  -- and one that goes on has dropped something.
  shrink-step :
      (n : ℕ) (x y : X)
      → over x ≡ true
      → drop x ≡ some y
      → shrink over drop (suc n) x ≡ shrink over drop n y
  unfolding shrink
  shrink-step n x y big more = rw (shrink, big, more) refl

  -- Either the loop has nothing to do, or it drops something.
  next : (x : X) → IsDone x ⊎ ((y : X) × (over x ≡ true) × (drop x ≡ some y))
  next x = elim (Bool-cases (over x)) [
    | inl big ↦ elim (Option-cases (drop x)) [
      | inl last ↦ inl (inr last)
      | inr (y, more) ↦ inr (y, big, more)
    ]
    | inr small ↦ inl (inl small)
  ]

  -- With a round of fuel for each thing there is to drop, the loop ends by itself.
  pub shrink-IsDone :
      (size : X → ℕ)
      → ((x y : X) → drop x ≡ some y → size x ≡ suc (size y))
      → (n : ℕ) (x : X) → size x ≤ n
      → IsDone (shrink over drop n x)
  unfolding shrink
  shrink-IsDone size one zero x h = elim (Option-cases (drop x)) [
    | inl last ↦ inr last
    | inr (y, more) ↦ absurd (omega (arith, one x y more))
  ]
  shrink-IsDone size one (suc n) x h = elim (next x) [
    | inl done ↦ subst IsDone (sym (shrink-eq (suc n) x done)) done
    | inr (y, big, more) ↦
        subst IsDone (sym (shrink-step n x y big more))
          (shrink-IsDone size one n y (omega (arith, one x y more)))
  ]

  -- What every drop keeps, the loop keeps.
  pub shrink-keeps {κ} :
      (P : X → Type κ)
      → ((x y : X) → drop x ≡ some y → P x → P y)
      → (n : ℕ) (x : X) → P x
      → P (shrink over drop n x)
  unfolding shrink
  shrink-keeps P keep zero x p = p
  shrink-keeps P keep (suc n) x p = elim (next x) [
    | inl done ↦ subst P (sym (shrink-eq (suc n) x done)) p
    | inr (y, big, more) ↦
        subst P (sym (shrink-step n x y big more)) (shrink-keeps P keep n y (keep x y more p))
  ]

module _ {ℓ} {A : Type ℓ} where
  -- `pop` takes the last element away.
  pop-eq :
      (x : A) (xs : List A)
      → (ys : List A) × (y : A) × (pop (x ∷ xs) ≡ some ys) × (ys ++ y ∷ [] ≡ x ∷ xs)
  unfolding pop
  pop-eq x [] = ([], x, refl, refl)
  pop-eq x (z ∷ xs) =
      let (ys, y, e, p) = pop-eq z xs in
      (x ∷ ys, y, ap (Option.map (λ zs. x ∷ zs)) e, ap (λ zs. x ∷ zs) p)

  pub pop-some : (xs ys : List A) → pop xs ≡ some ys → (y : A) × (ys ++ y ∷ [] ≡ xs)
  unfolding pop
  pop-some [] ys h = absurd (Option.none-ne-some _ h)
  pop-some (x ∷ xs) ys h =
      let (zs, z, e, p) = pop-eq x xs in
      (z, ap (λ l. l ++ z ∷ []) (Option.some-injective _ _ (sym h ∙ e)) ∙ p)

  pub pop-none : (xs : List A) → pop xs ≡ none → length xs ≡ 0
  unfolding pop
  pop-none [] h = refl
  pop-none (x ∷ xs) h = absurd (Option.none-ne-some _ (sym h ∙ (pop-eq x xs).2))

  All-front {κ} : (P : A → Type κ) (xs ys : List A) → All P (xs ++ ys) → All P xs
  All-front P [] ys h = tt
  All-front P (x ∷ xs) ys h = (h.0, All-front P xs ys h.1)

  -- What bounds a list bounds its front.
  pub front-fits {κ} :
      (front rest all : List A) (P : A → Type κ) {n : ℕ}
      → length all ≤ n
      → All P all
      → front ++ rest ≡ all
      → (length front ≤ n) × All P front
  front-fits front rest all P short h q = (
    omega (arith, length-append front rest, ap length q),
    All-front P front rest (subst (All P) (sym q) h),
  )
