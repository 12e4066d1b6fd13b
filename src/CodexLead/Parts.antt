-- ===== src/CodexLead/Parts.antt =====
-- What `task_spec`, the loop over the artifacts and `team_result` of
-- crates/agentmosaic-runtime/src/codex_lead.rs return.
use research_agent_system.Common.{
  ℕ, String, Option, none, some, List, [], ◌∷◌, ◌≡◌, ◌↔◌, refl, sym, ap, ◌∙◌, Result, ok,
}
use research_agent_system.Common.Fallible.{collect, guarded_iff, bind-eq-ok, bind-of_ok, ok_inj}
use research_agent_system.Common.Trim.{trim}
use research_agent_system.Lead.Data.{TeamResult}
use research_agent_system.CodexLead.Wire.{ArtifactWire}
use research_agent_system.CodexLead.Parse.{
  check_repeats, check_target, task_spec, artifact_ref, team_result,
}
use research_agent_system.CodexLead.Repeats.{
  is_empty_text_iff, not-false_iff, ltb-false_iff, is_empty-false_iff, check_repeats_iff,
}
use research_agent_system.CodexLead.Contract.{Pairwise, IsRoutable, IsSpecOf, IsRefOf, IsResultOf}

-- a computation that returns exactly what a relation allows
abbrev pub Implements {ℓ κ μ ν} :
    {E : Type ℓ} {A : Type κ} {B : Type μ}
    → (A → Result E B)
    → (A → B → Type ν)
    → Type (κ ⊔ μ ⊔ ℓ ⊔ ν)
Implements {A = A} {B = B} f R = (x : A) (y : B) → (f x ≡ ok y) ↔ R x y

-- Collecting implements the relation on each element.
pub collect-Pairwise {ℓ κ μ} :
    {E : Type ℓ} {A : Type κ} {B : Type μ} (f : A → Result E B) (R : A → B → Type 0)
    → Implements f R
    → Implements (collect f) (Pairwise R)
unfolding collect
collect-Pairwise f R imp [] [] = (λ h. tt, λ h. refl)
collect-Pairwise f R imp [] (y ∷ ys) = (λ h. absurd cc, λ h. absurd h)
collect-Pairwise f R imp (x ∷ xs) [] = (
  λ h.
      let (z, e, h') = bind-eq-ok (f x) _ h in
      let (zs, e', h'') = bind-eq-ok (collect f xs) _ h' in absurd cc,
  λ h. absurd h,
)
collect-Pairwise f R imp (x ∷ xs) (y ∷ ys) = (
  λ h.
      let (z, e, h') = bind-eq-ok (f x) _ h in
      let (zs, e', h'') = bind-eq-ok (collect f xs) _ h' in
      ((imp x y).0 (e ∙ ap ok cc), (collect-Pairwise f R imp xs ys).0 (e' ∙ ap ok cc)),
  λ h. rw ((imp x y).1 h.0) (rw ((collect-Pairwise f R imp xs ys).1 h.1) refl),
)

check_target_iff :
    (candidates : List String) (target checked : Option String)
    → (check_target candidates target ≡ ok checked)
      ↔ (IsRoutable candidates target × (checked ≡ target))
unfolding check_target
check_target_iff candidates none checked = (λ h. (tt, sym (ok_inj h)), λ h. ap ok (sym h.1))
check_target_iff candidates (some t) checked = (
  λ h.
      let (routable, same) = (guarded_iff _ _ (ok (some t)) checked).0 h in
      ((not-false_iff _).0 routable, sym (ok_inj same)),
  λ h. (guarded_iff _ _ (ok (some t)) checked).1 ((not-false_iff _).1 h.0, ap ok (sym h.1)),
)

pub task_spec_iff :
    (candidates : List String) → Implements (task_spec candidates) (IsSpecOf candidates)
unfolding task_spec
task_spec_iff candidates task spec = (
  λ h.
      let (full, h') = (guarded_iff _ _ _ spec).0 h in
      let (target, e, h'') = bind-eq-ok (check_target candidates task.target) _ h' in
      let (routable, same) = (check_target_iff candidates task.target target).0 e in
      (
        (is_empty_text_iff (trim task.objective)).0 full,
        routable,
        rw (sym same) (sym (ok_inj h'')),
      ),
  λ h. (guarded_iff _ _ _ spec).1 (
    (is_empty_text_iff (trim task.objective)).1 h.0,
    rw ((check_target_iff candidates task.target task.target).1 (h.1, refl)) (ap ok (sym h.2)),
  ),
)

artifact_ref_iff : (ids : List ℕ) → Implements (artifact_ref ids) (IsRefOf ids)
unfolding artifact_ref
artifact_ref_iff ids artifact reference = (
  λ h.
      let (full, h₁) = (guarded_iff _ _ _ reference).0 h in
      let (selected, h₂) = (guarded_iff _ _ _ reference).0 h₁ in
      let (hex, h₃) = (guarded_iff _ _ _ reference).0 h₂ in
      (
        (is_empty_text_iff (trim artifact.path)).0 full,
        (not-false_iff _).0 selected,
        (not-false_iff _).0 hex,
        sym (ok_inj h₃),
      ),
  λ h. (guarded_iff _ _ _ reference).1 (
    (is_empty_text_iff (trim artifact.path)).1 h.0,
    (guarded_iff _ _ _ reference).1 (
      (not-false_iff _).1 h.1,
      (guarded_iff _ _ _ reference).1 ((not-false_iff _).1 h.2, ap ok (sym h.3)),
    ),
  ),
)

-- a loop over the list that lets everything through returns `tt`
ok_unit : (r : Result String (Unit {0})) (u : Unit {0}) → r ≡ ok u → r ≡ ok tt
ok_unit r u h = cc

pub team_result_iff :
    (max : ℕ) (text : String) (ids : List ℕ) (artifacts : List ArtifactWire) (result : TeamResult)
    → (team_result max text ids artifacts ≡ ok result) ↔ IsResultOf max text ids artifacts result
unfolding team_result
team_result_iff max text ids artifacts result = (
  λ h.
      let (answered, h₁) = (guarded_iff _ _ _ result).0 h in
      let (short, h₂) = (guarded_iff _ _ _ result).0 h₁ in
      let (some_ids, h₃) = (guarded_iff _ _ _ result).0 h₂ in
      let (few, h₄) = (guarded_iff _ _ _ result).0 h₃ in
      let (u, once, h₅) = bind-eq-ok (check_repeats [] ids) _ h₄ in
      let (few', h₆) = (guarded_iff _ _ _ result).0 h₅ in
      let (refs, each, h₇) = bind-eq-ok (collect (artifact_ref ids) artifacts) _ h₆ in
      record {
        answer = ap (λ r. r.answer) (sym (ok_inj h₇));
        is_answered = (is_empty_text_iff (trim text)).0 answered;
        bounded = (ltb-false_iff _ _).0 short;
        task_refs = ap (λ r. r.task_refs) (sym (ok_inj h₇));
        grounded = (is_empty-false_iff ids).0 some_ids;
        few_ids = (ltb-false_iff _ _).0 few;
        distinct = (check_repeats_iff ids).0 (ok_unit _ u once);
        few_artifacts = (ltb-false_iff _ _).0 few';
        artifact_refs =
            (collect-Pairwise (artifact_ref ids) (IsRefOf ids) (artifact_ref_iff ids) artifacts
                result.artifact_refs).0
              (each ∙ ap (λ r. ok (r.artifact_refs)) (ok_inj h₇));
      },
  λ h.
      let each =
        (collect-Pairwise (artifact_ref ids) (IsRefOf ids) (artifact_ref_iff ids) artifacts
            result.artifact_refs).1
          h.artifact_refs in
      (guarded_iff _ _ _ result).1 (
        (is_empty_text_iff (trim text)).1 h.is_answered,
        (guarded_iff _ _ _ result).1 (
          (ltb-false_iff _ _).1 h.bounded,
          (guarded_iff _ _ _ result).1 (
            (is_empty-false_iff ids).1 h.grounded,
            (guarded_iff _ _ _ result).1 (
              (ltb-false_iff _ _).1 h.few_ids,
              bind-of_ok _ _ ((check_repeats_iff ids).1 h.distinct)
                  ∙ (guarded_iff _ _ _ result).1 (
                    (ltb-false_iff _ _).1 h.few_artifacts,
                    bind-of_ok _ _ each ∙ ap ok (built h.answer h.task_refs),
                  ),
            ),
          ),
        ),
      ),
)
  where
    built :
        {a : String} {r : List ℕ}
        → result.answer ≡ a
        → result.task_refs ≡ r
        → ◌≡◌ {A = TeamResult}
            (record { answer = a; task_refs = r; artifact_refs = result.artifact_refs })
            result
    built p q i = record {
      answer = sym p i;
      task_refs = sym q i;
      artifact_refs = result.artifact_refs;
    }
