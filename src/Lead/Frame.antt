-- ===== src/Lead/Frame.antt =====
-- What the steps of the Lead leave of its two fields, whether they succeed or fail.
use research_agent_system.Common.{
  ℕ, zero, suc, String, Bool, true, false, Option, none, some, List, [], ◌∷◌, arith, Result, ok,
  err, Exec, continue, ◌>>=◌, pure, for_each, nat_eq, ◌==◌, if◌then◌else◌,
}
use research_agent_system.Board.TaskStatus.{TaskStatus}
use research_agent_system.Board.Data.{TaskRecord, BoardError, SelectedArtifactRef, TaskAttempt}
use research_agent_system.Board.Trait.{TaskBoard}
use research_agent_system.Events.RunEvent.{RunEvent}
use research_agent_system.Scheduler.Run.{Future}
use research_agent_system.Lead.Data.{
  Lead, LeadState, LeadStep, LeadError, LeadContext, Brain, TeamResult, on_store, on_scheduler,
  announce, think,
}
use research_agent_system.Lead.Tree.{climb, descends_from, grounded}
use research_agent_system.Lead.Context.{
  Facts, add_status, add_record, add_tasks, context_of, build_context,
}
use research_agent_system.Lead.Final.{
  require, verify_task, verify_artifact, verify_refs, verify_completion, settle_final,
  persist_final,
}

module _ {B S : Type 0} (P : LeadState B S → Type 0) where
  -- A step after which `P` still holds.
  abbrev pub Preserves : {A : Type 0} → LeadStep B S A → Type 0
  Preserves m = (s : LeadState B S) → P s → P (m s).1

  pub bind-Preserves :
      {A C : Type 0} (m : LeadStep B S A) (f : A → LeadStep B S C)
      → Preserves m
      → ((a : A) → Preserves (f a))
      → Preserves (m >>= f)
  bind-Preserves {A} {C} m f hm hf s p = go (m s).0 (m s).1 (hm s p)
    where
      go : (r : Result LeadError A) (u : LeadState B S) → P u → P (continue f r u).1
      go (ok a) u q = hf a u q
      go (err e) u q = q

  pub for_each-Preserves :
      {A : Type 0} (step : A → LeadStep B S (Unit {0}))
      → ((a : A) → Preserves (step a))
      → (xs : List A) → Preserves (for_each step xs)
  for_each-Preserves step h [] s p = p
  for_each-Preserves step h (x ∷ xs) s p =
      bind-Preserves (step x) (λ _. for_each step xs) (h x) (λ _. for_each-Preserves step h xs) s p

-- `P` reads only the Lead's own fields.
module _ {B S : Type 0} (Q : Option ℕ → List ℕ → Type 0) where
  abbrev pub Fields : LeadState B S → Type 0
  Fields s = Q s.root_id s.task_ids

  abbrev pub Keeps : {A : Type 0} → LeadStep B S A → Type 0
  Keeps m = Preserves Fields m

  pub on_store-Preserves : {A : Type 0} (m : Exec B BoardError A) → Keeps (on_store m)
  unfolding on_store
  on_store-Preserves m s p = p

  pub on_scheduler-Preserves : {A : Type 0} (m : Future B A) → Keeps (on_scheduler m)
  unfolding on_scheduler
  on_scheduler-Preserves m s p = p

  pub announce-Preserves : (e : RunEvent) → Keeps (announce e)
  unfolding announce
  announce-Preserves e s p = p

  pub think-Preserves : (decide : Brain B S) (ctx : LeadContext) → Keeps (think decide ctx)
  unfolding think
  think-Preserves decide ctx s p = p

  require-Preserves : (b : Bool) → Keeps (require b)
  require-Preserves true s p = p
  require-Preserves false s p = p

  grounded-Preserves : (found : Option TaskRecord) → Keeps (grounded found)
  grounded-Preserves none s p = p
  grounded-Preserves (some r) s p = p

  module _ (board : TaskBoard B) where
    add_status-Preserves :
        (facts : Facts) (id : ℕ) (status : TaskStatus) → Keeps (add_status board facts id status)
    unfolding add_status
    add_status-Preserves facts id TaskStatus.succeeded s p =
        bind-Preserves Fields (on_store (board.attempts id)) _
          (on_store-Preserves (board.attempts id)) (λ _ u q. q) s p
    add_status-Preserves facts id TaskStatus.failed s p =
        bind-Preserves Fields (on_store (board.attempts id)) _
          (on_store-Preserves (board.attempts id)) (λ _ u q. q) s p
    add_status-Preserves facts id TaskStatus.pending s p = p
    add_status-Preserves facts id TaskStatus.assigned s p = p
    add_status-Preserves facts id TaskStatus.running s p = p
    add_status-Preserves facts id TaskStatus.cancelled s p = p

    add_record-Preserves :
        (facts : Facts) (id : ℕ) (found : Option TaskRecord)
        → Keeps (add_record board facts id found)
    unfolding add_record
    add_record-Preserves facts id none s p = p
    add_record-Preserves facts id (some r) s p =
        bind-Preserves Fields (add_status board facts id r.status) _
          (add_status-Preserves facts id r.status)
          (λ f.
            bind-Preserves Fields (on_store (board.artifacts id)) _
              (on_store-Preserves (board.artifacts id)) (λ _ u q. q))
          s p

    add_tasks-Preserves : (facts : Facts) (ids : List ℕ) → Keeps (add_tasks board facts ids)
    unfolding add_tasks
    add_tasks-Preserves facts [] s p = p
    add_tasks-Preserves facts (id ∷ ids) s p =
        bind-Preserves Fields (on_store (board.task id)) _ (on_store-Preserves (board.task id))
          (λ found.
            bind-Preserves Fields (add_record board facts id found) _
              (add_record-Preserves facts id found) (λ f. add_tasks-Preserves f ids))
          s p

    context_of-Preserves :
        (lead : Lead B S) (objective : String) (round : ℕ) (root : Option ℕ) (ids : List ℕ)
        → Keeps (context_of board lead objective round root ids)
    unfolding context_of
    context_of-Preserves lead objective round none ids s p = p
    context_of-Preserves lead objective round (some root) ids s p =
        bind-Preserves Fields (add_tasks board _ ids) _ (add_tasks-Preserves _ ids)
          (λ facts.
            bind-Preserves Fields (on_store (board.messages_to lead.lead_agent)) _
              (on_store-Preserves (board.messages_to lead.lead_agent)) (λ _ u q. q))
          s p

    pub build_context-Preserves :
        (lead : Lead B S) (objective : String) (round : ℕ)
        → Keeps (build_context board lead objective round)
    unfolding build_context
    build_context-Preserves lead objective round s p =
        context_of-Preserves lead objective round s.root_id s.task_ids s p

    up-Preserves :
        (root hops : ℕ)
        → ((k : ℕ) → Keeps (climb board root hops k))
        → (parent : Option ℕ)
        → Keeps (elim parent [
          | none ↦ pure false
          | some above ↦ if above == root then pure true else climb board root hops above
        ])
    up-Preserves root hops further none s p = p
    up-Preserves root hops further (some above) s p = ground (arith, further above s p)

    climb-Preserves : (root hops current : ℕ) → Keeps (climb board root hops current)
    unfolding climb
    climb-Preserves root zero current s p = p
    climb-Preserves root (suc hops) current s p =
        bind-Preserves Fields (on_store (board.task current)) _
          (on_store-Preserves (board.task current))
          (λ found.
            bind-Preserves Fields (grounded found) _ (grounded-Preserves found)
              (λ r. up-Preserves root hops (climb-Preserves root hops) r.parent_task))
          s p

    verify_task-Preserves : (root id : ℕ) → Keeps (verify_task board root id)
    unfolding verify_task descends_from
    verify_task-Preserves root id s p =
        bind-Preserves Fields (require _) _ (require-Preserves _)
          (λ _.
            bind-Preserves Fields (on_store (board.task id)) _ (on_store-Preserves (board.task id))
              (λ found. bind-Preserves Fields (grounded found) _ (grounded-Preserves found) (λ r.
                bind-Preserves Fields (require _) _ (require-Preserves _) (λ _.
                  bind-Preserves Fields (climb board root _ id) _ (climb-Preserves root _ id)
                    (λ b. require-Preserves b)))))
          s p

    verify_artifact-Preserves :
        (refs : List ℕ) (selected : SelectedArtifactRef)
        → Keeps (verify_artifact board refs selected)
    unfolding verify_artifact
    verify_artifact-Preserves refs selected s p =
        bind-Preserves Fields (require _) _ (require-Preserves _)
          (λ _.
            bind-Preserves Fields (on_store (board.artifacts selected.task_id)) _
              (on_store-Preserves (board.artifacts selected.task_id))
              (λ found. require-Preserves _))
          s p

    verify_refs-Preserves :
        (result : TeamResult) (root : Option ℕ) → Keeps (verify_refs board result root)
    unfolding verify_refs
    verify_refs-Preserves result none s p = p
    verify_refs-Preserves result (some root) s p =
        bind-Preserves Fields (for_each (verify_task board root) result.task_refs) _
          (for_each-Preserves Fields (verify_task board root) (verify_task-Preserves root)
            result.task_refs)
          (λ _.
            for_each-Preserves Fields (verify_artifact board result.task_refs)
              (verify_artifact-Preserves result.task_refs) result.artifact_refs)
          s p

    pub verify_completion-Preserves : (result : TeamResult) → Keeps (verify_completion board result)
    unfolding verify_completion
    verify_completion-Preserves result s p =
        bind-Preserves Fields (require _) _ (require-Preserves _)
          (λ _. verify_refs-Preserves result s.root_id) s p

    settle_final-Preserves : (a : TaskAttempt) (b : Bool) → Keeps (settle_final board a b)
    unfolding settle_final
    settle_final-Preserves a true = on_store-Preserves (board.complete_attempt a)
    settle_final-Preserves a false = on_store-Preserves (board.record_attempt a)

    pub persist_final-Preserves :
        (agent : String) (root : ℕ) (result : TeamResult)
        → Keeps (persist_final board agent root result)
    unfolding persist_final
    persist_final-Preserves agent root result s p =
        bind-Preserves Fields
          (on_store (board.record_final_refs root result.task_refs result.artifact_refs)) _
          (on_store-Preserves (board.record_final_refs root result.task_refs result.artifact_refs))
          (λ _.
            bind-Preserves Fields (on_store (board.attempts root)) _
              (on_store-Preserves (board.attempts root))
              (λ rows.
                bind-Preserves Fields (settle_final board _ _) _ (settle_final-Preserves _ _)
                  (λ _. on_store-Preserves (board.set_status root TaskStatus.succeeded))))
          s p
