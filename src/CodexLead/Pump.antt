-- ===== src/CodexLead/Pump.antt =====
-- `pump_turn` of crates/agentmosaic-runtime/src/codex_lead.rs against the events that it waits
-- for: which turn's reply it returns, and that it does return it.
use Prim.Native.String
use research_agent_system.Common.{
  ℕ, zero, suc, ◌<◌, String, Bool, true, false, Bool-cases, ◌||◌, subst, ◌≡◌, ◌↔◌, refl, ap, ◌∙◌,
  arith, Result, ok, err, Exec, bind-eq-ok, bind-run, map_err, inl, inr, if◌then◌else◌,
}
use research_agent_system.Lead.Data.{LeadBrainError}
use research_agent_system.CodexLead.Interface.{
  CodexBridgeError, CodexBridgeEvent, notification, tool_call, turn_completed, mcp_elicitation,
  CodexLeadBrain,
}
use research_agent_system.CodexLead.Server.{unavailable, call, is_other, handle, pump_turn}

module _ {P V H W : Type 0} (brain : CodexLeadBrain P V H W) (server : H)
    (thread_id turn_id : String) where
  -- a completion of another turn, or on another thread
  abbrev pub is_stale : String → String → Bool
  is_stale thread turn = is_other brain turn turn_id || is_other brain thread thread_id

  -- What the answer to an event that completes nothing does: a request is answered.
  abbrev pub IsAnswered : CodexBridgeEvent V → W → W → Type 0
  IsAnswered (notification text) u v = u ≡ v
  IsAnswered (tool_call request_id call_id tool) u v =
      brain.app.respond_tool server request_id false
        (String.◌++◌ "tool `" (String.◌++◌ tool "` is not available to the lead")) u
      ≡ (ok tt, v)
  IsAnswered (turn_completed thread turn) u v = (is_stale thread turn ≡ true) × (u ≡ v)
  IsAnswered (mcp_elicitation request_id name) u v =
      brain.app.respond_ras_elicitation server request_id name u ≡ (ok tt, v)

  -- So many events come and are answered, and none completes the turn.
  pub data Waits : ℕ → W → W → Type 0 where
    here : {w : W} → Waits 0 w w
    later :
        {n : ℕ} {w u v w' : W} {e : CodexBridgeEvent V}
        → brain.app.next_event server w ≡ (ok e, u)
        → IsAnswered e u v
        → Waits n v w'
        → Waits (suc n) w w'

  -- The next event completes the turn, and its message can be read.
  abbrev pub Completes : String → W → W → Type 0
  Completes reply w w' =
      (thread turn : String) × (u : W) × (brain.app.next_event server w
        ≡ (ok (turn_completed thread turn), u))
      × (is_stale thread turn ≡ false)
      × (brain.app.final_agent_message server thread turn u ≡ (ok reply, w'))

  abbrev pub Ends : ℕ → String → W → W → Type 0
  Ends n reply w w' = (k : ℕ) × (v : W) × (k < n) × Waits k w v × Completes reply v w'

  call-ok :
      {A : Type 0} (action : String) (m : Exec W CodexBridgeError A) {w w' : W} {a : A}
      → (call brain action m w ≡ (ok a, w')) ↔ (m w ≡ (ok a, w'))
  unfolding call
  call-ok {A} action m {w} {w'} {a} = (
    λ h. forth (m w) h,
    λ h.
        ap {A = Result CodexBridgeError A × W} {B = Result LeadBrainError A × W}
          (λ p. (map_err (unavailable brain action) p.0, p.1)) h,
  )
    where
      forth :
          (p : Result CodexBridgeError A × W)
          → ◌≡◌ {A = Result LeadBrainError A × W}
              (map_err (unavailable brain action) p.0, p.1)
              (ok a, w')
          → p ≡ (ok a, w')
      forth (ok b, u) h = cc
      forth (err e, u) h = absurd cc

  Ends-later :
      {n : ℕ} {reply : String} {w u v w' : W} {e : CodexBridgeEvent V}
      → brain.app.next_event server w ≡ (ok e, u)
      → IsAnswered e u v
      → Ends n reply v w'
      → Ends (suc n) reply w w'
  Ends-later came answered (k, x, lt, waits, completes) =
      (suc k, x, omega arith, later came answered waits, completes)

  abbrev refuse : V → String → Exec W LeadBrainError (Unit {0})
  refuse request_id tool = call brain "refuse a codex lead tool call" (
      brain.app.respond_tool server request_id false
        (String.◌++◌ "tool `" (String.◌++◌ tool "` is not available to the lead")))

  abbrev answer : V → String → Exec W LeadBrainError (Unit {0})
  answer request_id name =
      call brain "answer a codex lead elicitation"
        (brain.app.respond_ras_elicitation server request_id name)

  -- An event that is handled and still leads to a reply was answered, or it completed the turn.
  handle-Ends :
      (n : ℕ) (reply : String) (rest : Exec W LeadBrainError String) (w w' : W)
      → ((v : W) → rest v ≡ (ok reply, w') → Ends n reply v w')
      → (e : CodexBridgeEvent V) (u : W) → brain.app.next_event server w ≡ (ok e, u)
      → handle brain server thread_id turn_id rest e u ≡ (ok reply, w')
      → Ends (suc n) reply w w'
  unfolding handle
  handle-Ends n reply rest w w' ends (notification text) u came h = Ends-later came refl (ends u h)
  handle-Ends n reply rest w w' ends (tool_call request_id call_id tool) u came h =
      let (t, v, answered, h') =
        bind-eq-ok
          (call brain "refuse a codex lead tool call" (
            brain.app.respond_tool server request_id false
              (String.◌++◌ "tool `" (String.◌++◌ tool "` is not available to the lead"))))
          (λ _. rest) h in
      Ends-later came ((call-ok _ _).0 answered) (ends v h')
  handle-Ends n reply rest w w' ends (turn_completed thread turn) u came h =
      elim (Bool-cases (is_stale thread turn)) [
        | inl stale ↦ Ends-later came (stale, refl) (ends u (at_once true stale h))
        | inr fresh ↦ (
          0,
          w,
          omega arith,
          here,
          (thread, turn, u, came, fresh, (call-ok _ _).0 (at_once false fresh h)),
        )
      ]
    where
      at_once :
          (b : Bool)
          → is_stale thread turn ≡ b
          → handle brain server thread_id turn_id rest (turn_completed thread turn) u
            ≡ (ok reply, w')
          → (if b
                then rest
                else call brain "read the completed codex lead turn"
                    (brain.app.final_agent_message server thread turn))
              u
            ≡ (ok reply, w')
      at_once b q h =
          subst
            (λ b.
              (if b
                  then rest
                  else call brain "read the completed codex lead turn"
                      (brain.app.final_agent_message server thread turn))
                u
              ≡ (ok reply, w'))
            q h
  handle-Ends n reply rest w w' ends (mcp_elicitation request_id name) u came h =
      let (t, v, answered, h') =
        bind-eq-ok
          (call brain "answer a codex lead elicitation"
            (brain.app.respond_ras_elicitation server request_id name))
          (λ _. rest) h in
      Ends-later came ((call-ok _ _).0 answered) (ends v h')

  pump_turn-Ends :
      (n : ℕ) (reply : String) (w w' : W)
      → pump_turn brain server thread_id turn_id n w ≡ (ok reply, w')
      → Ends n reply w w'
  unfolding pump_turn
  pump_turn-Ends zero reply w w' h = absurd cc
  pump_turn-Ends (suc n) reply w w' h =
      let (e, u, came, h') =
        bind-eq-ok (call brain "read a codex lead event" (brain.app.next_event server)) _ h in
      handle-Ends n reply (pump_turn brain server thread_id turn_id n) w w'
        (λ v. pump_turn-Ends n reply v w') e u ((call-ok _ _).0 came) h'

  -- An answered event is followed by the next round.
  handle-answered :
      (rest : Exec W LeadBrainError String) (e : CodexBridgeEvent V) (u v : W)
      → IsAnswered e u v
      → handle brain server thread_id turn_id rest e u ≡ rest v
  unfolding handle
  handle-answered rest (notification text) u v h = ap rest h
  handle-answered rest (tool_call request_id call_id tool) u v h =
      bind-run (refuse request_id tool) (λ _. rest) {s = u} ((call-ok _ _).1 h)
  handle-answered rest (turn_completed thread turn) u v h = rw h.0 (ap rest h.1)
  handle-answered rest (mcp_elicitation request_id name) u v h =
      bind-run (answer request_id name) (λ _. rest) {s = u} ((call-ok _ _).1 h)

  -- The completion of the turn ends the loop with its message.
  handle-fresh :
      (rest : Exec W LeadBrainError String) (thread turn : String) (u : W)
      → is_stale thread turn ≡ false
      → handle brain server thread_id turn_id rest (turn_completed thread turn) u
        ≡ call brain "read the completed codex lead turn"
            (brain.app.final_agent_message server thread turn)
            u
  unfolding handle
  handle-fresh rest thread turn u fresh = rw fresh refl

  Waits-pump_turn :
      (n k : ℕ) (reply : String) {w v w' : W}
      → k < n
      → Waits k w v
      → Completes reply v w'
      → pump_turn brain server thread_id turn_id n w ≡ (ok reply, w')
  unfolding pump_turn
  Waits-pump_turn zero k reply lt waits completes = absurd (omega arith)
  Waits-pump_turn (suc n) k reply lt here (thread, turn, u, came, fresh, message) =
      bind-run (call brain "read a codex lead event" (brain.app.next_event server)) _
        ((call-ok _ _).1 came)
      ∙ handle-fresh _ thread turn u fresh
      ∙ (call-ok _ _).1 message
  Waits-pump_turn (suc n) k reply lt (later came answered waits) completes =
      bind-run (call brain "read a codex lead event" (brain.app.next_event server)) _
        ((call-ok _ _).1 came)
      ∙ handle-answered _ _ _ _ answered
      ∙ Waits-pump_turn n _ reply (omega arith) waits completes

  -- Pumping for a number of events returns a reply exactly if fewer events than that come first,
  -- each of them answered, and then the completion of this turn on this thread, whose message is
  -- the reply.
  pub pump_turn_iff :
      (n : ℕ) (reply : String) (w w' : W)
      → (pump_turn brain server thread_id turn_id n w ≡ (ok reply, w')) ↔ Ends n reply w w'
  pump_turn_iff n reply w w' = (
    pump_turn-Ends n reply w w',
    λ (k, v, lt, waits, completes). Waits-pump_turn n k reply lt waits completes,
  )
