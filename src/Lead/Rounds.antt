-- ===== src/Lead/Rounds.antt =====
-- The rounds of the Lead: they keep its root and its budget of tasks, and they answer only through
-- `finish`.
use research_agent_system.Common.{
  map_err, ℕ, zero, suc, ◌+◌, ◌≤◌, String, ◌≡◌, refl, ap, Bool, true, false, Option, some, List, [],
  ◌∷◌, map, length, length-append, arith, leb, Result, ok, err, continue, ◌>>◌, pure, nat_eq,
  if◌then◌else◌,
}
use research_agent_system.Board.Trait.{TaskBoard}
use research_agent_system.Events.RunEvent.{lead_round_started, for_round}
use research_agent_system.Scheduler.Run.{Observed, ScheduleError}
use research_agent_system.Scheduler.Schedule.{TaskSpec, ScheduledResult, schedule}
use research_agent_system.Lead.Data.{
  Lead, LeadState, LeadStep, LeadError, LeadDecision, delegate, follow_up, complete, LeadContext,
  TeamResult, on_scheduler, announce, think,
}
use research_agent_system.Lead.Context.{build_context}
use research_agent_system.Lead.Final.{verify_completion, persist_final}
use research_agent_system.Lead.Loop.{under, remember, extend_tasks, follow, finish, rounds}
use research_agent_system.Lead.Budget.{schedule-length}
use research_agent_system.Lead.Frame.{
  Fields, bind-Preserves, build_context-Preserves, announce-Preserves, think-Preserves,
  verify_completion-Preserves, persist_final-Preserves,
}

module _ {B S : Type 0} (board : TaskBoard B) (lead : Lead B S) (root : ℕ) where
  -- The root is set, and the tasks are within the budget.
  abbrev pub IsWithin : LeadState B S → Type 0
  IsWithin s = (s.root_id ≡ some root) × (length s.task_ids ≤ lead.max_tasks)

  abbrev pub Budget : Option ℕ → List ℕ → Type 0
  Budget o ids = (o ≡ some root) × (length ids ≤ lead.max_tasks)

  abbrev pub Stays : {A : Type 0} → LeadStep B S A → Type 0
  Stays m = (s : LeadState B S) → IsWithin s → IsWithin (m s).1

  length-map-ids :
      (results : List ScheduledResult) → length (map (λ r. r.task_id) results) ≡ length results
  length-map-ids [] = refl
  length-map-ids (r ∷ rest) = ap suc (length-map-ids rest)

  length-map-under :
      (specs : List TaskSpec) → length (map (under board lead root) specs) ≡ length specs
  length-map-under [] = refl
  length-map-under (r ∷ rest) = ap suc (length-map-under rest)

  remembered :
      (specs : List TaskSpec) (s : LeadState B S) (r : Result ScheduleError (List ScheduledResult))
      (o : Observed B)
      → IsWithin s
      → length s.task_ids + length specs ≤ lead.max_tasks
      → ((results : List ScheduledResult) → r ≡ ok results → length results ≤ length specs)
      → IsWithin
          (continue
            (remember board lead)
            (map_err LeadError.schedule r)
            (record s { observed = o })).1
  unfolding remember
  remembered specs s (ok results) o p fits few = (
    p.0,
    omega (
      arith,
      few results refl,
      length-append {0} s.task_ids (map (λ r. r.task_id) results),
      length-map-ids results,
    ),
  )
  remembered specs s (err e) o p fits few = p

  if-IsWithin :
      {A : Type 0} (b : Bool) (x y : Result LeadError A × LeadState B S)
      → (b ≡ true → IsWithin x.1)
      → IsWithin y.1
      → IsWithin (if b then x else y).1
  if-IsWithin true x y hx hy = hx refl
  if-IsWithin false x y hx hy = hy

  pub extend_tasks-IsWithin : (specs : List TaskSpec) → Stays (extend_tasks board lead specs root)
  unfolding extend_tasks on_scheduler
  extend_tasks-IsWithin specs s p =
      if-IsWithin (leb (length s.task_ids + length specs) lead.max_tasks) _ _
        (λ fits.
          let m = schedule board lead.scheduler (map (under board lead root) specs) s.observed in
          remembered specs s m.0 m.1 p (ground arith) (λ results e. omega (
            arith,
            schedule-length board lead.scheduler (map (under board lead root) specs) s.observed m.1
                results (λ i. (e i, m.1)),
            length-map-under specs,
          )))
        p

  pub follow-IsWithin :
      (ctx : LeadContext) (specs : List TaskSpec) → Stays (follow board lead root ctx specs)
  unfolding follow
  follow-IsWithin ctx specs s p = ground (arith, extend_tasks-IsWithin specs s p)

  finish-IsWithin : (round : ℕ) (result : TeamResult) → Stays (finish board lead root round result)
  unfolding finish
  finish-IsWithin round result = ground (arith, answered)
    where
      answered : Stays (do
        verify_completion board result
        persist_final board lead.lead_agent root result
        pure result)
      answered =
          bind-Preserves (Fields Budget) (verify_completion board result) _
            (verify_completion-Preserves Budget board result)
            (λ _.
              bind-Preserves (Fields Budget) (persist_final board lead.lead_agent root result) _
                (persist_final-Preserves Budget board lead.lead_agent root result) (λ _ s p. p))

  decided :
      (objective : String) (left round : ℕ) (ctx : LeadContext)
      → Stays (rounds board lead root objective left (round + 1))
      → (decision : LeadDecision)
      → Stays (elim decision [
        | delegate specs ↦ do
          extend_tasks board lead specs root
          rounds board lead root objective left (round + 1)
        | follow_up specs ↦ do
          follow board lead root ctx specs
          rounds board lead root objective left (round + 1)
        | complete result ↦ finish board lead root round result
      ])
  decided objective left round ctx later (delegate specs) =
      bind-Preserves (Fields Budget) (extend_tasks board lead specs root) _
        (extend_tasks-IsWithin specs) (λ _. later)
  decided objective left round ctx later (follow_up specs) =
      bind-Preserves (Fields Budget) (follow board lead root ctx specs) _
        (follow-IsWithin ctx specs) (λ _. later)
  decided objective left round ctx later (complete result) = finish-IsWithin round result

  pub rounds-IsWithin :
      (objective : String) (left round : ℕ) → Stays (rounds board lead root objective left round)
  unfolding rounds
  rounds-IsWithin objective zero round s p = p
  rounds-IsWithin objective (suc left) round s p =
      bind-Preserves (Fields Budget) (build_context board lead objective round) _
        (build_context-Preserves Budget board lead objective round)
        (λ ctx.
          bind-Preserves (Fields Budget)
            (announce (lead_round_started root round (for_round round))) _
            (announce-Preserves Budget (lead_round_started root round (for_round round)))
            (λ _.
              bind-Preserves (Fields Budget) (think lead.decide ctx) _
                (think-Preserves Budget lead.decide ctx)
                (decided objective left round ctx (rounds-IsWithin objective left (round + 1)))))
        s p
