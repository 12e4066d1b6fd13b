-- ===== src/Board/TaskStatus.antt =====
-- `TaskStatus` of crates/agentmosaic-team/src/board.rs and its stored name.
use mathlib.Core.Path.{subst⁻¹}
use text.Mathlib.TextEquality.{eq_iff}
use research_agent_system.Common.{
  String, ◌≡◌, ◌↔◌, refl, Bool, true, false, Option, none, some, arith, if◌then◌else◌, ◌==◌,
  PartialEq, string_eq,
}

pub data TaskStatus : Type 0 where
  pending assigned running succeeded failed cancelled : TaskStatus

abbrev pub status_beq : TaskStatus → TaskStatus → Bool
status_beq pending pending = true
status_beq assigned assigned = true
status_beq running running = true
status_beq succeeded succeeded = true
status_beq failed failed = true
status_beq cancelled cancelled = true
status_beq _ _ = false

pub status_beq_iff : (a b : TaskStatus) → (status_beq a b ≡ true) ↔ (a ≡ b)
status_beq_iff a b = ground arith

instance abbrev pub status_eq : PartialEq TaskStatus
status_eq = record { same = status_beq; same_iff = status_beq_iff }

unfoldable pub as_str : TaskStatus → String
as_str pending = "pending"
as_str assigned = "assigned"
as_str running = "running"
as_str succeeded = "succeeded"
as_str failed = "failed"
as_str cancelled = "cancelled"

unfoldable pub restore : String → Option TaskStatus
restore s =
    if s == "pending"
    then some pending
    else if s == "assigned"
    then some assigned
    else if s == "running"
    then some running
    else if s == "succeeded"
    then some succeeded
    else if s == "failed"
    then some failed
    else if s == "cancelled"
    then some cancelled
    else none

-- `restore` reads exactly the texts that `as_str` writes, each as the value it was written for.
pub restore_status_iff : (s : String) (k : TaskStatus) → (restore s ≡ some k) ↔ (s ≡ as_str k)
unfolding restore as_str
restore_status_iff s k = (λ h. read s k h, λ e. subst⁻¹ (λ t. restore t ≡ some k) e (written k))
  where
    written : (k : TaskStatus) → restore (as_str k) ≡ some k
    written pending = refl
    written assigned = refl
    written running = refl
    written succeeded = refl
    written failed = refl
    written cancelled = refl

    read : (s : String) (k : TaskStatus) → restore s ≡ some k → s ≡ as_str k
    read s k h = ground (
      arith,
      eq_iff s "pending",
      eq_iff s "assigned",
      eq_iff s "running",
      eq_iff s "succeeded",
      eq_iff s "failed",
      eq_iff s "cancelled",
    )
