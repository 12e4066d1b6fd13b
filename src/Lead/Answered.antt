-- ===== src/Lead/Answered.antt =====
-- What an answer of the Lead is: the rounds that led to it, the board that it was verified on, and how
-- it was stored.
use research_agent_system.Common.{
  ℕ, ◌+◌, ◌<◌, String, ◌≡◌, refl, ap, sym, subst, List, Bool, true, false, Bool-cases, ◌⊎◌, inl,
  inr, some, arith, ok, bind-eq-ok, pure-eq-ok, nat_eq, ◌==◌, any,
}
use research_agent_system.Board.Data.{artifact_eq, TaskAttempt}
use research_agent_system.Board.TaskStatus.{TaskStatus, status_eq}
use research_agent_system.Board.Trait.{TaskBoard}
use research_agent_system.Events.RunEvent.{lead_round_started, for_round}
use research_agent_system.Lead.Data.{
  Lead, LeadState, LeadDecision, delegate, follow_up, complete, LeadContext, TeamResult, on_store,
  announce, think,
}
use research_agent_system.Scheduler.Schedule.{TaskSpec}
use research_agent_system.Lead.Context.{build_context}
use research_agent_system.Lead.Final.{final_attempt, verify_completion, settle_final, persist_final}
use research_agent_system.Lead.Loop.{extend_tasks, follow, finish}
use research_agent_system.Lead.Verify.{IsVerified, verify_completion-IsVerified, on_store-eq-ok}

module _ {B S : Type 0} (board : TaskBoard B) (lead : Lead B S) where
  module _ (root : ℕ) where
    -- The answer as it was stored, from `start` to `end` and with nothing in between: the selected
    -- tasks and artifacts, then the Lead's attempt with the answer, which replaces the attempt 1 of
    -- the root if the board had one and is new otherwise, then the root as succeeded.
    pub record IsPersisted (result : TeamResult) (start end : B) : Type 0 where
      pub selected : B
      pub refs_put :
          board.record_final_refs root result.task_refs result.artifact_refs start
          ≡ (ok tt, selected)
      pub rows : List TaskAttempt
      pub listed : B
      pub read : board.attempts root selected ≡ (ok rows, listed)
      pub attempted : B
      pub attempt_put :
          ((any (λ a. a.attempt == 1) rows ≡ true)
            × (board.complete_attempt (final_attempt root lead.lead_agent result) listed
                ≡ (ok tt, attempted)))
          ⊎ ((any (λ a. a.attempt == 1) rows ≡ false)
              × (board.record_attempt (final_attempt root lead.lead_agent result) listed
                  ≡ (ok tt, attempted)))
      pub root_put : board.set_status root TaskStatus.succeeded attempted ≡ (ok tt, end)

    settled :
        (a : TaskAttempt) (b : Bool) (s s' : LeadState B S)
        → settle_final board a b s ≡ (ok tt, s')
        → ((b ≡ true) × (board.complete_attempt a s.observed.store ≡ (ok tt, s'.observed.store)))
          ⊎ ((b ≡ false) × (board.record_attempt a s.observed.store ≡ (ok tt, s'.observed.store)))
    unfolding settle_final
    settled a true s s' h = inl (refl, on_store-eq-ok (board.complete_attempt a) s s' h)
    settled a false s s' h = inr (refl, on_store-eq-ok (board.record_attempt a) s s' h)

    persist_final-IsPersisted :
        (result : TeamResult) (s s' : LeadState B S)
        → persist_final board lead.lead_agent root result s ≡ (ok tt, s')
        → IsPersisted result s.observed.store s'.observed.store
    unfolding persist_final
    persist_final-IsPersisted result s s' h =
        let (_, u, h1, h2) =
          bind-eq-ok (on_store (board.record_final_refs root result.task_refs result.artifact_refs))
            _ h in
        let (rows, v, h3, h4) = bind-eq-ok (on_store (board.attempts root)) _ h2 in
        let (_, w, h5, h6) =
          bind-eq-ok
            (settle_final board (final_attempt root lead.lead_agent result)
              (any (λ a. a.attempt == 1) rows))
            _ h4 in
        record {
          selected = u.observed.store;
          refs_put = on_store-eq-ok _ s u h1;
          rows = rows;
          listed = v.observed.store;
          read = on_store-eq-ok (board.attempts root) u v h3;
          attempted = w.observed.store;
          attempt_put = settled _ _ v w h5;
          root_put = on_store-eq-ok _ w s' h6;
        }

    -- In the round `round`, which began in the state `s`, the brain was asked with the context of the
    -- board as it was then, and decided.
    pub record Asked (objective : String) (round : ℕ) (s : LeadState B S) (context : LeadContext)
        (decision : LeadDecision) (s' : LeadState B S) : Type 0 where
      pub seen : LeadState B S
      pub built : build_context board lead objective round s ≡ (ok context, seen)
      pub asked : LeadState B S
      pub announced :
          announce (lead_round_started root round (for_round round)) seen ≡ (ok tt, asked)
      pub decided : think lead.decide context asked ≡ (ok decision, s')

    -- The rounds before: from `start` the Lead came to `round` in the state `s`.
    pub data Reached (objective : String) (start : LeadState B S) : ℕ → LeadState B S → Type 0 where
      at_start : Reached objective start 0 start
      delegated :
          {round : ℕ} {s s' : LeadState B S} (u : LeadState B S) (context : LeadContext)
          (specs : List TaskSpec)
          → Reached objective start round s
          → Asked objective round s context (delegate specs) u
          → extend_tasks board lead specs root u ≡ (ok tt, s')
          → Reached objective start (round + 1) s'
      followed_up :
          {round : ℕ} {s s' : LeadState B S} (u : LeadState B S) (context : LeadContext)
          (specs : List TaskSpec)
          → Reached objective start round s
          → Asked objective round s context (follow_up specs) u
          → follow board lead root context specs u ≡ (ok tt, s')
          → Reached objective start (round + 1) s'

    -- An answer of the Lead in the round `round` of a run from `start`: the brain gave it, its
    -- references were verified on the board as it was then, and it was stored there; the run ends
    -- with that board.
    pub record IsAnswered (objective : String) (start : LeadState B S) (round : ℕ)
        (result : TeamResult) (s' : LeadState B S) : Type 0 where
      pub later_round : 0 < round
      pub before_last : round < lead.max_rounds
      pub begun : LeadState B S
      pub reached : Reached objective start round begun
      pub context : LeadContext
      pub decided_at : LeadState B S
      pub decided : Asked objective round begun context (complete result) decided_at
      pub verified_at : LeadState B S
      pub verified : IsVerified S board root result decided_at verified_at
      pub persisted : IsPersisted result verified_at.observed.store s'.observed.store

    pub finish-IsAnswered :
        (objective : String) (start : LeadState B S) (round : ℕ) (result given : TeamResult)
        (ctx : LeadContext) (q s s' : LeadState B S)
        → round < lead.max_rounds
        → Reached objective start round q
        → Asked objective round q ctx (complete given) s
        → s.root_id ≡ some root
        → finish board lead root round given s ≡ (ok result, s')
        → IsAnswered objective start round result s'
    unfolding finish
    finish-IsAnswered objective start round result given ctx q s s' few came t e h =
        elim (Bool-cases (round == 0)) [
          | inl first ↦ absurd (ground (arith, first, h))
          | inr later ↦
              let (_, u, h1, h2) = bind-eq-ok (verify_completion board given) _ (rw later at h) in
              let (_, v, h3, h4) =
                bind-eq-ok (persist_final board lead.lead_agent root given) _ h2 in
              let (same, ends) = pure-eq-ok h4 in
              record {
                later_round = ground (arith, later);
                before_last = few;
                begun = q;
                reached = came;
                context = ctx;
                decided_at = s;
                decided = subst (λ r. Asked objective round q ctx (complete r) s) (sym same) t;
                verified_at = u;
                verified =
                    subst (λ r. IsVerified S board root r s u) (sym same)
                      (verify_completion-IsVerified S board root given s u e h1);
                persisted =
                    subst (IsPersisted result u.observed.store)
                      (sym (ap (λ o. o.observed.store) ends))
                      (subst (λ r. IsPersisted r u.observed.store v.observed.store) (sym same)
                        (persist_final-IsPersisted given u v h3));
              }
        ]
