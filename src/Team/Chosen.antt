-- ===== src/Team/Chosen.antt =====
-- Which Lead `resolve_lead` of crates/agentmosaic-runtime/src/team_runner.rs chooses.
use research_agent_system.Common.{
  String, Bool, true, false, Option, none, some, List, [], ◌∷◌, ◌++◌, All, filter, find, ◌==◌,
  if◌then◌else◌, string_eq, ◌≡◌, ◌↔◌, refl, sym, ap, ◌∙◌, ok, err, ok_or,
}
use research_agent_system.Common.Fallible.{bind-eq-ok, bind-of_ok, ok_inj}
use research_agent_system.Storage.Agents.{AgentRegistryRecord}
use research_agent_system.Storage.Upsert.{if-true}
use research_agent_system.Team.Records.{
  given, is_reasoner, unregistered, lead_if_reasoner, requested_lead, only_lead, resolve_lead,
}

module _ {A : Type 0} where
  -- The list has `a` in it, and what stands before it fails the test.
  abbrev pub IsFirst : (A → Bool) → List A → A → Type 0
  IsFirst p xs a =
      (front : List A) × (back : List A) × (xs ≡ front ++ a ∷ back)
      × (p a ≡ true)
      × All (λ x. p x ≡ false) front

  -- What stands behind it fails the test as well.
  abbrev pub IsOnly : (A → Bool) → List A → A → Type 0
  IsOnly p xs a =
      (front : List A) × (back : List A) × (xs ≡ front ++ a ∷ back)
      × (p a ≡ true)
      × All (λ x. p x ≡ false) front
      × All (λ x. p x ≡ false) back

  find-IsFirst : (p : A → Bool) (xs : List A) (a : A) → find p xs ≡ some a → IsFirst p xs a
  find-IsFirst p [] a h = absurd cc
  find-IsFirst p (x ∷ xs) a h = by_head (p x) refl h (find-IsFirst p xs a)
    where
      by_head :
          (b : Bool)
          → p x ≡ b
          → (if b then some x else find p xs) ≡ some a
          → (find p xs ≡ some a → IsFirst p xs a)
          → IsFirst p (x ∷ xs) a
      by_head true q h ih =
          let same : x ≡ a = cc in ([], xs, (λ i. same i ∷ xs), ap p (sym same) ∙ q, tt)
      by_head false q h ih =
          let (front, back, e, t, f) = ih h in (x ∷ front, back, ap (λ l. x ∷ l) e, t, (q, f))

  IsFirst-find :
      (p : A → Bool) (front back : List A) (a : A)
      → p a ≡ true
      → All (λ x. p x ≡ false) front
      → find p (front ++ a ∷ back) ≡ some a
  IsFirst-find p [] back a h f = ap (λ b. if b then some a else find p back) h
  IsFirst-find p (x ∷ front) back a h f =
      ap (λ b. if b then some x else find p (front ++ a ∷ back)) f.0
      ∙ IsFirst-find p front back a h f.1

  filter-nil : (p : A → Bool) (xs : List A) → filter p xs ≡ [] → All (λ x. p x ≡ false) xs
  filter-nil p [] h = tt
  filter-nil p (x ∷ xs) h = by_head (p x) refl h (filter-nil p xs)
    where
      by_head :
          (b : Bool)
          → p x ≡ b
          → (if b then x ∷ filter p xs else filter p xs) ≡ []
          → (filter p xs ≡ [] → All (λ x. p x ≡ false) xs)
          → All (λ x. p x ≡ false) (x ∷ xs)
      by_head true q h ih = absurd cc
      by_head false q h ih = (q, ih h)

  nil-filter : (p : A → Bool) (xs : List A) → All (λ x. p x ≡ false) xs → filter p xs ≡ []
  nil-filter p [] h = refl
  nil-filter p (x ∷ xs) h =
      ap (λ b. if b then x ∷ filter p xs else filter p xs) h.0 ∙ nil-filter p xs h.1

  filter-IsOnly : (p : A → Bool) (xs : List A) (a : A) → filter p xs ≡ a ∷ [] → IsOnly p xs a
  filter-IsOnly p [] a h = absurd cc
  filter-IsOnly p (x ∷ xs) a h = by_head (p x) refl h (filter-IsOnly p xs a)
    where
      by_head :
          (b : Bool)
          → p x ≡ b
          → (if b then x ∷ filter p xs else filter p xs) ≡ a ∷ []
          → (filter p xs ≡ a ∷ [] → IsOnly p xs a)
          → IsOnly p (x ∷ xs) a
      by_head true q h ih =
          let same : x ≡ a = cc in
          let rest : filter p xs ≡ [] = cc in
          ([], xs, (λ i. same i ∷ xs), ap p (sym same) ∙ q, tt, filter-nil p xs rest)
      by_head false q h ih =
          let (front, back, e, t, f, g) = ih h in (x ∷ front, back, ap (λ l. x ∷ l) e, t, (q, f), g)

  IsOnly-filter :
      (p : A → Bool) (front back : List A) (a : A)
      → p a ≡ true
      → All (λ x. p x ≡ false) front
      → All (λ x. p x ≡ false) back
      → filter p (front ++ a ∷ back) ≡ a ∷ []
  IsOnly-filter p [] back a h f g =
      ap (λ b. if b then a ∷ filter p back else filter p back) h
      ∙ ap (λ l. a ∷ l) (nil-filter p back g)
  IsOnly-filter p (x ∷ front) back a h f g =
      ap (λ b. if b then x ∷ filter p (front ++ a ∷ back) else filter p (front ++ a ∷ back)) f.0
      ∙ IsOnly-filter p front back a h f.1 g

-- The Lead that a run has to have: the requested agent, or else the only reasoner.
abbrev pub IsLead : List AgentRegistryRecord → Option String → AgentRegistryRecord → Type 0
IsLead records (some id) lead = IsFirst (λ r. r.id == id) records lead × (is_reasoner lead ≡ true)
IsLead records none lead = IsOnly is_reasoner records lead

ok_or-eq-ok : {A E : Type 0} (o : Option A) (e : E) {a : A} → ok_or o e ≡ ok a → o ≡ some a
ok_or-eq-ok none e h = absurd cc
ok_or-eq-ok (some a) e h = ap some (ok_inj h)

if-eq-ok :
    {A E : Type 0} (b : Bool) (e : E) {a c : A}
    → (if b then ok a else err e) ≡ ok c
    → (b ≡ true) × (a ≡ c)
if-eq-ok true e h = (refl, ok_inj h)
if-eq-ok false e h = absurd cc

requested_lead_iff :
    (records : List AgentRegistryRecord) (id : String) (lead : AgentRegistryRecord)
    → (requested_lead records id ≡ ok lead) ↔ IsLead records (some id) lead
unfolding requested_lead
requested_lead_iff records id lead = (
  λ h.
      let (found, p, h₁) = bind-eq-ok (ok_or (find (λ r. r.id == id) records) _) _ h in
      let (reasoner, same) = if-eq-ok (is_reasoner found) _ h₁ in
      (
        find-IsFirst (λ r. r.id == id) records lead
            (ok_or-eq-ok (find (λ r. r.id == id) records) _ p ∙ ap some same),
        ap is_reasoner (sym same) ∙ reasoner,
      ),
  λ ((front, back, e, t, f), reasoner).
      bind-of_ok (ok_or (find (λ r. r.id == id) records) (unregistered id)) (lead_if_reasoner id) (
        ap (λ o. ok_or o (unregistered id))
          (ap (find (λ r. r.id == id)) e ∙ IsFirst-find (λ r. r.id == id) front back lead t f))
      ∙ if-true (ok lead) _ reasoner,
)

only_lead_iff :
    (records : List AgentRegistryRecord) (lead : AgentRegistryRecord)
    → (only_lead (filter is_reasoner records) ≡ ok lead) ↔ IsLead records none lead
unfolding only_lead
only_lead_iff records lead = (
  λ h. filter-IsOnly is_reasoner records lead (only (filter is_reasoner records) h),
  λ (front, back, e, t, f, g).
      ap (λ l. only_lead (filter is_reasoner l)) e
      ∙ ap only_lead (IsOnly-filter is_reasoner front back lead t f g),
)
  where
    only : (rs : List AgentRegistryRecord) → only_lead rs ≡ ok lead → rs ≡ lead ∷ []
    only [] h = absurd cc
    only (r ∷ []) h = ap (λ x. x ∷ []) (ok_inj h)
    only (r ∷ s ∷ rs) h = absurd cc

-- `resolve_lead` returns an agent exactly if it is the Lead: with a request that is not blank, the
-- first agent that has the requested id without the white space around it, and that agent is a
-- reasoner; without one, the only reasoner of the registry.
pub resolve_lead_iff :
    (records : List AgentRegistryRecord) (requested : Option String) (lead : AgentRegistryRecord)
    → (resolve_lead records requested ≡ ok lead) ↔ IsLead records (given requested) lead
unfolding resolve_lead
resolve_lead_iff records requested lead = by_request (given requested)
  where
    by_request :
        (request : Option String)
        → ((elim request [
          | some id ↦ requested_lead records id
          | none ↦ only_lead (filter is_reasoner records)
        ])
            ≡ ok lead)
          ↔ IsLead records request lead
    by_request (some id) = requested_lead_iff records id lead
    by_request none = only_lead_iff records lead
