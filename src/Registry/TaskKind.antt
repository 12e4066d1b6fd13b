-- ===== src/Registry/TaskKind.antt =====
-- `TaskKind` of crates/agentmosaic-team/src/registry.rs: its tier and its stored name.
use mathlib.Core.Path.{subst⁻¹}
use text.Mathlib.TextEquality.{eq_iff}
use research_agent_system.Common.{
  String, ◌≡◌, ◌↔◌, refl, Bool, true, false, Option, none, some, arith, if◌then◌else◌, ◌==◌,
  PartialEq, string_eq,
}
use research_agent_system.Registry.AgentTier.{AgentTier}

pub data TaskKind : Type 0 where
  reasoning review bulk tool utility : TaskKind

abbrev pub kind_beq : TaskKind → TaskKind → Bool
kind_beq reasoning reasoning = true
kind_beq review review = true
kind_beq bulk bulk = true
kind_beq tool tool = true
kind_beq utility utility = true
kind_beq _ _ = false

pub kind_beq_iff : (a b : TaskKind) → (kind_beq a b ≡ true) ↔ (a ≡ b)
kind_beq_iff a b = ground arith

instance abbrev pub kind_eq : PartialEq TaskKind
kind_eq = record { same = kind_beq; same_iff = kind_beq_iff }

-- `TaskKind::tier`
unfoldable pub tier : TaskKind → AgentTier
tier reasoning = AgentTier.reasoner
tier review = AgentTier.reasoner
tier bulk = AgentTier.worker
tier tool = AgentTier.worker
tier utility = AgentTier.utility

unfoldable pub as_str : TaskKind → String
as_str reasoning = "reasoning"
as_str review = "review"
as_str bulk = "bulk"
as_str tool = "tool"
as_str utility = "utility"

unfoldable pub restore : String → Option TaskKind
restore s =
    if s == "reasoning"
    then some reasoning
    else if s == "review"
    then some review
    else if s == "bulk"
    then some bulk
    else if s == "tool"
    then some tool
    else if s == "utility"
    then some utility
    else none

-- `restore` reads exactly the texts that `as_str` writes, each as the value it was written for.
pub restore_kind_iff : (s : String) (k : TaskKind) → (restore s ≡ some k) ↔ (s ≡ as_str k)
unfolding restore as_str
restore_kind_iff s k = (λ h. read s k h, λ e. subst⁻¹ (λ t. restore t ≡ some k) e (written k))
  where
    written : (k : TaskKind) → restore (as_str k) ≡ some k
    written reasoning = refl
    written review = refl
    written bulk = refl
    written tool = refl
    written utility = refl

    read : (s : String) (k : TaskKind) → restore s ≡ some k → s ≡ as_str k
    read s k h = ground (
      arith,
      eq_iff s "reasoning",
      eq_iff s "review",
      eq_iff s "bulk",
      eq_iff s "tool",
      eq_iff s "utility",
    )
