-- ===== src/Lead/Answer.antt =====
-- What a run of the Lead guarantees: its budget of tasks, and the grounds of its answer.
use research_agent_system.Common.{
  ℕ, zero, suc, ◌+◌, ◌≤◌, ◌<◌, String, ◌≡◌, refl, ap, subst, none, some, length, arith, ok, ◌>>◌,
  bind-eq-ok, nat_eq,
}
use research_agent_system.Board.Data.{artifact_eq}
use research_agent_system.Board.TaskStatus.{status_eq}
use research_agent_system.Board.Trait.{TaskBoard}
use research_agent_system.Registry.TaskKind.{TaskKind}
use research_agent_system.Events.RunEvent.{lead_round_started, for_round}
use research_agent_system.Lead.Data.{
  Lead, LeadState, LeadStep, LeadDecision, delegate, follow_up, complete, LeadContext, TeamResult,
  on_store, announce, think,
}
use research_agent_system.Lead.Context.{build_context}
use research_agent_system.Lead.Loop.{
  extend_tasks, follow, finish, rounds, from_root, run_rounds, set_root, run,
}
use research_agent_system.Lead.Rounds.{
  IsWithin, Budget, Stays, rounds-IsWithin, extend_tasks-IsWithin, follow-IsWithin,
}
use research_agent_system.Lead.Frame.{
  bind-Preserves, on_store-Preserves, build_context-Preserves, announce-Preserves, think-Preserves,
}
use research_agent_system.Lead.Answered.{
  IsAnswered, Reached, at_start, delegated, followed_up, Asked, finish-IsAnswered,
}

module _ {B S : Type 0} (board : TaskBoard B) (lead : Lead B S) where
  module _ (root : ℕ) where
    after :
        {A : Type 0} (m : LeadStep B S A) (s u : LeadState B S) {a : A}
        → Stays board lead root m
        → IsWithin board lead root s
        → m s ≡ (ok a, u)
        → IsWithin board lead root u
    after m s u stays p h = subst (IsWithin board lead root) (ap (λ o. o.1) h) (stays s p)

    abbrev Answers : String → LeadState B S → ℕ → LeadStep B S TeamResult → Type 0
    Answers objective start round m =
        (s s' : LeadState B S) (result : TeamResult)
        → IsWithin board lead root s
        → Reached board lead root objective start round s
        → m s ≡ (ok result, s')
        → (last : ℕ) × IsAnswered board lead root objective start last result s'

    -- The same after the brain was asked in a round that began in the state `q`, and decided.
    abbrev AnswersFrom :
        String
        → LeadState B S
        → ℕ
        → LeadContext
        → LeadState B S
        → LeadDecision
        → LeadStep B S TeamResult
        → Type 0
    AnswersFrom objective start round ctx q decision m =
        (s s' : LeadState B S) (result : TeamResult)
        → Asked board lead root objective round q ctx decision s
        → IsWithin board lead root s
        → m s ≡ (ok result, s')
        → (last : ℕ) × IsAnswered board lead root objective start last result s'

    decision-Answers :
        (objective : String) (start : LeadState B S) (left round : ℕ) (ctx : LeadContext)
        (q : LeadState B S)
        → round < lead.max_rounds
        → Reached board lead root objective start round q
        → Answers objective start (round + 1) (rounds board lead root objective left (round + 1))
        → (decision : LeadDecision)
        → AnswersFrom objective start round ctx q decision (elim decision [
          | delegate specs ↦ do
            extend_tasks board lead specs root
            rounds board lead root objective left (round + 1)
          | follow_up specs ↦ do
            follow board lead root ctx specs
            rounds board lead root objective left (round + 1)
          | complete result ↦ finish board lead root round result
        ])
    decision-Answers objective start left round ctx q few came later (delegate specs) s s' result t
          p h =
        let (_, u, h1, h2) = bind-eq-ok (extend_tasks board lead specs root) _ h in
        later u s' result
          (after (extend_tasks board lead specs root) s u
            (extend_tasks-IsWithin board lead root specs) p h1)
          (delegated s ctx specs came t h1) h2
    decision-Answers objective start left round ctx q few came later (follow_up specs) s s' result t
          p h =
        let (_, u, h1, h2) = bind-eq-ok (follow board lead root ctx specs) _ h in
        later u s' result
          (after (follow board lead root ctx specs) s u (follow-IsWithin board lead root ctx specs)
            p h1)
          (followed_up s ctx specs came t h1) h2
    decision-Answers objective start left round ctx q few came later (complete given) s s' result t
          p h =
        (
          round,
          finish-IsAnswered board lead root objective start round result given ctx q s s' few came t
              p.0 h,
        )

    rounds-IsAnswered :
        (objective : String) (start : LeadState B S) (left round : ℕ)
        → round + left ≤ lead.max_rounds
        → Answers objective start round (rounds board lead root objective left round)
    unfolding rounds
    rounds-IsAnswered objective start zero round few s s' result p came h = absurd (ground arith)
    rounds-IsAnswered objective start (suc left) round few s s' result p came h =
        let (ctx, u, h1, h2) = bind-eq-ok (build_context board lead objective round) _ h in
        let (_, v, h3, h4) =
          bind-eq-ok (announce (lead_round_started root round (for_round round))) _ h2 in
        let (decision, w, h5, h6) = bind-eq-ok (think lead.decide ctx) _ h4 in
        let pu =
          after (build_context board lead objective round) s u
            (build_context-Preserves (Budget board lead root) board lead objective round) p h1 in
        let pv =
          after (announce (lead_round_started root round (for_round round))) u v
            (announce-Preserves (Budget board lead root)
              (lead_round_started root round (for_round round)))
            pu h3 in
        let pw =
          after (think lead.decide ctx) v w
            (think-Preserves (Budget board lead root) lead.decide ctx) pv h5 in
        decision-Answers objective start left round ctx s (omega arith) came
          (rounds-IsAnswered objective start left (round + 1) (omega arith)) decision w s' result
          (record { seen = u; built = h1; asked = v; announced = h3; decided = h5 }) pw h6

  -- A run that starts within its budget of tasks stays within it, whatever the brain decides and
  -- whether the run succeeds or fails.
  pub run-length :
      (objective : String) (s : LeadState B S)
      → length s.task_ids ≤ lead.max_tasks
      → length (run board lead objective s).1.task_ids ≤ lead.max_tasks
  unfolding run set_root run_rounds from_root
  run-length objective s few =
      bind-Preserves (λ u. length u.task_ids ≤ lead.max_tasks)
        (on_store (board.create_task objective none TaskKind.reasoning none)) _
        (on_store-Preserves (λ o ids. length ids ≤ lead.max_tasks)
          (board.create_task objective none TaskKind.reasoning none))
        (λ root u p.
          (rounds-IsWithin board lead root objective lead.max_rounds 0
            (record u { root_id = some root }) (refl, p)).1)
        s few

  -- If a run that starts within its budget of tasks succeeds, then it created its root and went
  -- through rounds, in each of which the brain was asked with the context of the board and delegated
  -- or followed up, until it gave the answer in a round after the first and before `max_rounds`.
  -- From the state that this decision left, the task and artifact references, which are not empty,
  -- were verified one after the other; the board as that left it took the references, the Lead's
  -- attempt with the answer and the root as succeeded, and nothing else; and the run ends with that
  -- board.
  pub run-IsAnswered :
      (objective : String) (s s' : LeadState B S) (result : TeamResult)
      → length s.task_ids ≤ lead.max_tasks
      → run board lead objective s ≡ (ok result, s')
      → (root : ℕ) × (u : LeadState B S) × (on_store
            (board.create_task objective none TaskKind.reasoning none)
            s
          ≡ (ok root, u))
        × (round : ℕ) × IsAnswered board lead root objective
            (record u { root_id = some root })
            round
            result
            s'
  unfolding run set_root run_rounds from_root
  run-IsAnswered objective s s' result few h =
      let create = board.create_task objective none TaskKind.reasoning none in
      let (root, u, h1, h2) = bind-eq-ok (on_store create) _ h in
      let within : length u.task_ids ≤ lead.max_tasks =
        subst (λ t. length t.task_ids ≤ lead.max_tasks) (ap (λ o. o.1) h1)
          (on_store-Preserves (λ o ids. length ids ≤ lead.max_tasks) create s few) in
      let start : LeadState B S = record u { root_id = some root } in
      let (round, answered) =
        rounds-IsAnswered root objective start lead.max_rounds 0 (omega arith) start s' result
          (refl, within) at_start h2 in
      (root, u, h1, round, answered)
