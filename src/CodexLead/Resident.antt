-- ===== src/CodexLead/Resident.antt =====
-- One thread for the whole objective: what the turns of crates/agentmosaic-runtime/src/codex_lead.rs
-- leave of the client and of the thread.
use research_agent_system.Common.{
  String, Option, none, some, ◌≡◌, ◌⊎◌, refl, sym, ap, subst, Result, ok, err, Exec, inr,
}
use research_agent_system.Common.Invariant.{Preserves, bind-Preserves}
use research_agent_system.Lead.Data.{LeadContext, LeadDecision, LeadBrainError}
use research_agent_system.CodexLead.Interface.{CodexBridgeError, CodexState, CodexLeadBrain}
use research_agent_system.CodexLead.Server.{
  in_world, keep_thread, working_directory, utf8_path, spawn, try_thread, start_thread,
  ensure_thread, running, running_server, resume_thread, run_turn, correct, decide_turn, parse,
}
use research_agent_system.CodexLead.Turns.{prompt_of, correction_of}

module _ {P V H W : Type 0} (brain : CodexLeadBrain P V H W) where
  -- the client runs the thread
  abbrev pub IsResident : H → String → CodexState H W → Type 0
  IsResident server thread s = (s.server ≡ some server) × (s.thread_id ≡ some thread)

  -- there is a client exactly if there is a thread
  abbrev pub IsPaired : CodexState H W → Type 0
  IsPaired s =
      ((s.server ≡ none) × (s.thread_id ≡ none))
      ⊎ ((server : H) × (thread : String) × (s.server ≡ some server) × (s.thread_id ≡ some thread))

  module _ (Q : Option H → Option String → Type 0) where
    abbrev Kept : CodexState H W → Type 0
    Kept s = Q s.server s.thread_id

    in_world-Kept : {A : Type 0} (m : Exec W LeadBrainError A) → Preserves Kept (in_world brain m)
    unfolding in_world
    in_world-Kept m s q = q

    running_server-Kept : Preserves Kept (running_server brain)
    unfolding running_server running
    running_server-Kept s q = subst Kept (sym (unmoved s.server)) q
      where
        unmoved : (o : Option H) → (running brain o s).1 ≡ s
        unmoved none = refl
        unmoved (some server) = refl

    -- A turn keeps what starting the thread keeps.
    run_turn-Kept :
        Preserves Kept (ensure_thread brain)
        → (prompt : String) → Preserves Kept (run_turn brain prompt)
    unfolding run_turn
    run_turn-Kept started prompt = bind-Preserves Kept (ensure_thread brain) _ started λ thread.
        bind-Preserves Kept (running_server brain) _ running_server-Kept λ server.
          bind-Preserves Kept (in_world brain _) _ (in_world-Kept _) λ turn. in_world-Kept _

    correct-Kept :
        Preserves Kept (ensure_thread brain)
        → (r : Result String LeadDecision) → Preserves Kept (correct brain r)
    unfolding correct
    correct-Kept started (ok decision) s q = q
    correct-Kept started (err reason) s q =
        bind-Preserves Kept (run_turn brain (correction_of brain reason)) _
          (run_turn-Kept started (correction_of brain reason)) (λ second s q. q) s q

    decide_turn-Kept :
        Preserves Kept (ensure_thread brain)
        → (ctx : LeadContext) → Preserves Kept (decide_turn brain ctx)
    unfolding decide_turn
    decide_turn-Kept started ctx =
        bind-Preserves Kept (run_turn brain (prompt_of brain ctx)) _
          (run_turn-Kept started (prompt_of brain ctx))
          λ reply. correct-Kept started (parse brain reply)

  resume-IsResident :
      (server : H) (thread : String) → Preserves (IsResident server thread) (ensure_thread brain)
  unfolding ensure_thread resume_thread
  resume-IsResident server thread s q =
      subst (IsResident server thread) (sym (ap (λ o. (resume_thread brain o s).1) q.1)) q

  -- Once a thread runs, every later decision is made on it, by the same client, whether the
  -- decision succeeds or fails.
  decide_turn-IsResident :
      (server : H) (thread : String) (ctx : LeadContext)
      → Preserves (IsResident server thread) (decide_turn brain ctx)
  decide_turn-IsResident server thread =
      decide_turn-Kept (λ c i. (c ≡ some server) × (i ≡ some thread))
        (resume-IsResident server thread)

  utf8_path-IsPaired : (o : Option String) → Preserves IsPaired (utf8_path brain o)
  unfolding utf8_path
  utf8_path-IsPaired none s q = q
  utf8_path-IsPaired (some directory) s q = q

  keep_thread-IsPaired :
      (server : H) (started : Result CodexBridgeError String)
      → Preserves IsPaired (keep_thread brain server started)
  unfolding keep_thread
  keep_thread-IsPaired server (ok thread) s q = inr (server, thread, refl, refl)
  keep_thread-IsPaired server (err error) s q = q

  spawn-IsPaired : Preserves IsPaired (spawn brain)
  unfolding spawn in_world
  spawn-IsPaired s q = q

  try_thread-IsPaired :
      (server : H) (directory : String) → Preserves IsPaired (try_thread brain server directory)
  unfolding try_thread
  try_thread-IsPaired server directory s q = q

  start_thread-IsPaired : Preserves IsPaired (start_thread brain)
  unfolding start_thread working_directory
  start_thread-IsPaired =
      bind-Preserves IsPaired (working_directory brain) _ (utf8_path-IsPaired _) λ directory.
        bind-Preserves IsPaired (spawn brain) _ spawn-IsPaired λ server.
          bind-Preserves IsPaired (try_thread brain server directory) _
            (try_thread-IsPaired server directory) (keep_thread-IsPaired server)

  ensure_thread-IsPaired : Preserves IsPaired (ensure_thread brain)
  unfolding ensure_thread resume_thread
  ensure_thread-IsPaired s = resume-IsPaired s.thread_id s
    where
      resume-IsPaired : (o : Option String) → Preserves IsPaired (resume_thread brain o)
      resume-IsPaired none s q = start_thread-IsPaired s q
      resume-IsPaired (some thread) s q = q

  -- A decision, taken or failed, leaves a client exactly if it leaves a thread, and a thread that
  -- ran before it, with its client, is the one after it.
  pub decide_turn-IsPaired :
      (ctx : LeadContext) (s : CodexState H W)
      → IsPaired s
      → IsPaired (decide_turn brain ctx s).1
        × ((server : H) (thread : String)
            → IsResident server thread s
            → IsResident server thread (decide_turn brain ctx s).1)
  decide_turn-IsPaired ctx s paired = (
    decide_turn-Kept
        (λ c i.
          ((c ≡ none) × (i ≡ none))
          ⊎ ((server : H) × (thread : String) × (c ≡ some server) × (i ≡ some thread)))
        ensure_thread-IsPaired ctx s paired,
    λ server thread. decide_turn-IsResident server thread ctx s,
  )
