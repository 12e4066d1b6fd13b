-- ===== src/Registry/DriverKind.antt =====
-- `DriverKind` of crates/agentmosaic-team/src/registry.rs and its stored name.
use mathlib.Core.Path.{subst⁻¹}
use text.Mathlib.TextEquality.{eq_iff}
use research_agent_system.Common.{
  String, ◌≡◌, ◌↔◌, refl, Option, none, some, arith, if◌then◌else◌, ◌==◌, string_eq,
}

pub data DriverKind : Type 0 where
  native acp cli codex_app_server codex_exec claude_cli : DriverKind

unfoldable pub as_str : DriverKind → String
as_str native = "native"
as_str acp = "acp"
as_str cli = "cli"
as_str codex_app_server = "codex-app-server"
as_str codex_exec = "codex-exec"
as_str claude_cli = "claude-cli"

unfoldable pub restore : String → Option DriverKind
restore s =
    if s == "native"
    then some native
    else if s == "acp"
    then some acp
    else if s == "cli"
    then some cli
    else if s == "codex-app-server"
    then some codex_app_server
    else if s == "codex-exec"
    then some codex_exec
    else if s == "claude-cli"
    then some claude_cli
    else none

-- `restore` reads exactly the texts that `as_str` writes, each as the value it was written for.
restore_driver_iff : (s : String) (k : DriverKind) → (restore s ≡ some k) ↔ (s ≡ as_str k)
unfolding restore as_str
restore_driver_iff s k = (λ h. read s k h, λ e. subst⁻¹ (λ t. restore t ≡ some k) e (written k))
  where
    written : (k : DriverKind) → restore (as_str k) ≡ some k
    written native = refl
    written acp = refl
    written cli = refl
    written codex_app_server = refl
    written codex_exec = refl
    written claude_cli = refl

    read : (s : String) (k : DriverKind) → restore s ≡ some k → s ≡ as_str k
    read s k h = ground (
      arith,
      eq_iff s "native",
      eq_iff s "acp",
      eq_iff s "cli",
      eq_iff s "codex-app-server",
      eq_iff s "codex-exec",
      eq_iff s "claude-cli",
    )
