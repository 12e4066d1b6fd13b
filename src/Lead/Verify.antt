-- ===== src/Lead/Verify.antt =====
-- What `verify_completion` has checked when it passes.
use research_agent_system.Common.{
  ℕ, ◌≡◌, refl, ap, ◌∙◌, sym, subst, Bool, true, false, not, Option, none, some, List, [], ◌∷◌,
  arith, ok, Exec, for_each, bind-eq-ok, pure-eq-ok, nat_eq, ◌==◌, is_empty, any, contains,
}
use research_agent_system.Board.Data.{
  TaskRecord, ArtifactMeta, SelectedArtifactRef, BoardError, artifact_eq,
}
use research_agent_system.Board.TaskStatus.{TaskStatus, status_eq}
use research_agent_system.Board.Trait.{TaskBoard}
use research_agent_system.Lead.Data.{LeadState, LeadStep, TeamResult, on_store}
use research_agent_system.Lead.Tree.{descends_from, grounded}
use research_agent_system.Lead.Final.{
  require, verify_task, verify_artifact, verify_refs, verify_completion,
}

module _ {B S : Type 0} where
  require-eq-ok : (b : Bool) (s s' : LeadState B S) → require b s ≡ (ok tt, s') → b ≡ true
  require-eq-ok true s s' h = refl
  require-eq-ok false s s' h = absurd (ground arith)

  grounded-eq-ok :
      (found : Option TaskRecord) (s s' : LeadState B S) {r : TaskRecord}
      → grounded found s ≡ (ok r, s')
      → found ≡ some r
  grounded-eq-ok none s s' h = absurd (ground arith)
  grounded-eq-ok (some q) s s' h = ap some (sym (pure-eq-ok h).0)

  pub on_store-eq-ok :
      {A : Type 0} (m : Exec B BoardError A) (s s' : LeadState B S) {a : A}
      → on_store m s ≡ (ok a, s')
      → m s.observed.store ≡ (ok a, s'.observed.store)
  unfolding on_store
  on_store-eq-ok m s s' h = ground arith

  -- The steps of a loop, one after the other, from `s` to `s'`.
  abbrev pub Each :
      {A : Type 0}
      → (A → LeadState B S → LeadState B S → Type 0)
      → List A
      → LeadState B S
      → LeadState B S
      → Type 0
  Each P [] s s' = s ≡ s'
  Each P (x ∷ xs) s s' = (u : LeadState B S) × P x s u × Each P xs u s'

  for_each-eq-ok :
      {A : Type 0} (P : A → LeadState B S → LeadState B S → Type 0)
      (step : A → LeadStep B S (Unit {0}))
      → ((a : A) (s s' : LeadState B S) → step a s ≡ (ok tt, s') → P a s s')
      → (xs : List A) (s s' : LeadState B S) → for_each step xs s ≡ (ok tt, s')
      → Each P xs s s'
  for_each-eq-ok P step f [] s s' h = sym (pure-eq-ok h).1
  for_each-eq-ok P step f (x ∷ xs) s s' h =
      let (_, u, h1, h2) = bind-eq-ok (step x) _ h in
      (u, f x s u h1, for_each-eq-ok P step f xs u s' h2)

  require-stays : (b : Bool) (s s' : LeadState B S) → require b s ≡ (ok tt, s') → s' ≡ s
  require-stays true s s' h = (pure-eq-ok h).1
  require-stays false s s' h = absurd (ground arith)

  grounded-stays :
      (found : Option TaskRecord) (s s' : LeadState B S) {r : TaskRecord}
      → grounded found s ≡ (ok r, s')
      → s' ≡ s
  grounded-stays none s s' h = absurd (ground arith)
  grounded-stays (some q) s s' h = (pure-eq-ok h).1

module _ {B : Type 0} (S : Type 0) (board : TaskBoard B) (root : ℕ) where
  -- A task that an answer may rest on, as the board had it between `s` and `s'`: it was read as
  -- succeeded, and climbing its parents from there reached the root.
  pub record IsGround (id : ℕ) (s s' : LeadState B S) : Type 0 where
    pub not_root : (id == root) ≡ false
    pub row : TaskRecord
    pub seen : LeadState B S
    pub read : on_store (board.task id) s ≡ (ok (some row), seen)
    pub has_succeeded : (row.status == TaskStatus.succeeded) ≡ true
    pub reaches_root : descends_from board root id seen ≡ (ok true, s')

  -- An artifact that an answer may name: one of those that the board then had for a task of the
  -- answer.
  pub record IsProduced (refs : List ℕ) (selected : SelectedArtifactRef) (s s' : LeadState B S)
      : Type 0 where
    pub of_ref : contains selected.task_id refs ≡ true
    pub found : List ArtifactMeta
    pub read : on_store (board.artifacts selected.task_id) s ≡ (ok found, s')
    pub is_found : any (λ a. a == selected.artifact) found ≡ true

  verify_task-IsGround :
      (id : ℕ) (s s' : LeadState B S) → verify_task board root id s ≡ (ok tt, s') → IsGround id s s'
  unfolding verify_task
  verify_task-IsGround id s s' h =
      let (_, u, h1, h2) = bind-eq-ok (require (not (id == root))) _ h in
      let (found, v, h3, h4) = bind-eq-ok (on_store (board.task id)) _ h2 in
      let (r, w, h5, h6) = bind-eq-ok (grounded found) _ h4 in
      let (_, x, h7, h8) = bind-eq-ok (require (r.status == TaskStatus.succeeded)) _ h6 in
      let (below, y, h9, h10) = bind-eq-ok (descends_from board root id) _ h8 in
      let same : x ≡ v = require-stays _ w x h7 ∙ grounded-stays found v w h5 in
      record {
        not_root = ground (arith, require-eq-ok (not (id == root)) s u h1);
        row = r;
        seen = v;
        read =
            ap (on_store (board.task id)) (sym (require-stays _ s u h1))
            ∙ h3
            ∙ ap (λ o. (ok o, v)) (grounded-eq-ok found v w h5);
        has_succeeded = require-eq-ok _ w x h7;
        reaches_root =
            ap (descends_from board root id) (sym same)
            ∙ h9
            ∙ (λ i. (ok (require-eq-ok below y s' h10 i), y))
            ∙ ap (λ z. (ok true, z)) (sym (require-stays below y s' h10));
      }

  verify_artifact-IsProduced :
      (refs : List ℕ) (selected : SelectedArtifactRef) (s s' : LeadState B S)
      → verify_artifact board refs selected s ≡ (ok tt, s')
      → IsProduced refs selected s s'
  unfolding verify_artifact
  verify_artifact-IsProduced refs selected s s' h =
      let (_, u, h1, h2) = bind-eq-ok (require (contains selected.task_id refs)) _ h in
      let (found, v, h3, h4) = bind-eq-ok (on_store (board.artifacts selected.task_id)) _ h2 in
      record {
        of_ref = require-eq-ok _ s u h1;
        found = found;
        read =
            ap (on_store (board.artifacts selected.task_id)) (sym (require-stays _ s u h1))
            ∙ h3
            ∙ ap (λ z. (ok found, z)) (sym (require-stays _ v s' h4));
        is_found = require-eq-ok _ v s' h4;
      }

  -- The references of an answer, verified one after the other from `s` to `s'`.
  pub record IsVerified (result : TeamResult) (s s' : LeadState B S) : Type 0 where
    pub has_refs : is_empty result.task_refs ≡ false
    pub between : LeadState B S
    pub tasks : Each IsGround result.task_refs s between
    pub artifacts : Each (IsProduced result.task_refs) result.artifact_refs between s'

  pub verify_completion-IsVerified :
      (result : TeamResult) (s s' : LeadState B S)
      → s.root_id ≡ some root
      → verify_completion board result s ≡ (ok tt, s')
      → IsVerified result s s'
  unfolding verify_completion verify_refs
  verify_completion-IsVerified result s s' e h =
      let (_, u, h1, h2) =
        bind-eq-ok (require (not (is_empty result.task_refs)))
          (λ _. verify_refs board result s.root_id) h in
      let (_, v, h3, h4) =
        bind-eq-ok (for_each (verify_task board root) result.task_refs) _ (rw e at h2) in
      record {
        has_refs = ground (arith, require-eq-ok (not (is_empty result.task_refs)) s u h1);
        between = v;
        tasks =
            subst (λ z. Each IsGround result.task_refs z v) (require-stays _ s u h1)
              (for_each-eq-ok IsGround (verify_task board root) verify_task-IsGround
                result.task_refs u v h3);
        artifacts =
            for_each-eq-ok (IsProduced result.task_refs) (verify_artifact board result.task_refs)
              (verify_artifact-IsProduced result.task_refs) result.artifact_refs v s' h4;
      }
