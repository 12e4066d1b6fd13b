-- ===== src/Registry/AgentTier.antt =====
-- `AgentTier` of crates/agentmosaic-team/src/registry.rs.
use research_agent_system.Common.{◌≡◌, ◌↔◌, Bool, true, false, arith, PartialEq, string_eq}

pub data AgentTier : Type 0 where
  reasoner worker utility : AgentTier

abbrev pub tier_beq : AgentTier → AgentTier → Bool
tier_beq reasoner reasoner = true
tier_beq worker worker = true
tier_beq utility utility = true
tier_beq _ _ = false

pub tier_beq_iff : (a b : AgentTier) → (tier_beq a b ≡ true) ↔ (a ≡ b)
tier_beq_iff a b = ground arith

instance abbrev pub tier_eq : PartialEq AgentTier
tier_eq = record { same = tier_beq; same_iff = tier_beq_iff }
