-- ===== src/Team/Inside.antt =====
-- The rules of crates/agentmosaic-runtime/src/driver_factory.rs on the values of the options, stated as
-- conditions, and what the guards on paths and limits let through.
use mathlib.Core.Option
use research_agent_system.Common.{
  ℕ, ◌<◌, String, Bool, true, false, ◌||◌, Option, none, some, List, [], ◌∷◌, any, All, ◌==◌,
  nat_eq, ◌≡◌, ◌↔◌, refl, ap, ◌∙◌, arith, Result, ok,
}
use research_agent_system.Common.Fallible.{◌>>◌, refuse_if, guarded_iff, bind-eq-ok, bind-of_ok}
use research_agent_system.Common.Trim.{trim, is_empty_text}
use research_agent_system.Registry.DriverKind.{DriverKind}
use research_agent_system.Team.Errors.{invalid_artifact_path}
use research_agent_system.Team.Options.{Component, normal, Paths, AgentOptions}
use research_agent_system.Team.Limits.{
  default_acp_timeout_seconds, default_acp_max_prompt_bytes, default_acp_max_result_bytes,
  default_codex_max_events, is_special, validate_artifact_path, validate_artifact_paths,
  AcpOptionValues,
}

-- A path that is not blank and goes down from the repository by ordinary names only.
abbrev pub IsInside : Paths → String → Type 0
IsInside paths path =
    (is_empty_text (trim path) ≡ false)
    × (paths.is_absolute path ≡ false)
    × All (λ c. c ≡ normal) (paths.components path)

-- A schema, if there is one, is inside the repository.
abbrev pub SchemaInside : Paths → Option String → Type 0
SchemaInside paths none = Unit
SchemaInside paths (some path) = IsInside paths path

abbrev pub FitsAcp : Paths → AgentOptions → Type 0
FitsAcp paths o =
    (0 < Option.get_or o.timeout_seconds default_acp_timeout_seconds)
    × (0 < Option.get_or o.max_prompt_bytes default_acp_max_prompt_bytes)
    × (0 < Option.get_or o.max_result_bytes default_acp_max_result_bytes)
    × All (IsInside paths) o.artifact_paths

-- The rules of a driver kind on the options.
abbrev pub Fits : Paths → Option DriverKind → AgentOptions → Type 0
Fits paths (some DriverKind.acp) o = FitsAcp paths o
Fits paths (some DriverKind.codex_app_server) o =
    (0 < Option.get_or o.max_events default_codex_max_events)
    × All (IsInside paths) o.artifact_paths
Fits paths (some DriverKind.codex_exec) o = FitsAcp paths o
Fits paths (some DriverKind.claude_cli) o = FitsAcp paths o
Fits paths _ o = Unit

-- The limits as they are used, with their defaults.
abbrev pub limits : AgentOptions → AcpOptionValues
limits o = record {
  timeout_seconds = Option.get_or o.timeout_seconds default_acp_timeout_seconds;
  max_prompt_bytes = Option.get_or o.max_prompt_bytes default_acp_max_prompt_bytes;
  max_result_bytes = Option.get_or o.max_result_bytes default_acp_max_result_bytes;
}

refused_iff : {E : Type 0} (b : Bool) (e : E) → (refuse_if b e ≡ ok tt) ↔ (b ≡ false)
refused_iff true e = (λ h. absurd cc, λ h. absurd cc)
refused_iff false e = (λ h. refl, λ h. refl)

pub guarded :
    {E B : Type 0} (b : Bool) (e : E) (rest : Result E B) {end : B}
    → b ≡ false
    → rest ≡ ok end
    → (refuse_if b e >> rest) ≡ ok end
guarded b e rest {end} p q = (guarded_iff b e rest end).1 (p, q)

module _ (paths : Paths) (agent : String) where
  special_iff : (cs : List Component) → (any is_special cs ≡ false) ↔ All (λ c. c ≡ normal) cs
  special_iff [] = (λ h. tt, λ h. refl)
  special_iff (c ∷ cs) =
      let (ih, hi) = special_iff cs in
      (
        λ h. (ground arith, ih (ground arith)),
        λ (e, rest). ap (λ c. is_special c || any is_special cs) e ∙ hi rest,
      )

  pub path_iff :
      (path : String) → (validate_artifact_path paths agent path ≡ ok tt) ↔ IsInside paths path
  unfolding validate_artifact_path
  path_iff path =
      let (to, from) =
        guarded_iff (is_empty_text (trim path) || paths.is_absolute path)
          (invalid_artifact_path agent path)
          (refuse_if (any is_special (paths.components path)) (invalid_artifact_path agent path))
          tt in
      let (plain, special) =
        refused_iff (any is_special (paths.components path)) (invalid_artifact_path agent path) in
      let (names, some_other) = special_iff (paths.components path) in
      (
        λ h.
            let (a, b) = to h in
            let (blank, absolute) = neither _ _ a in (blank, absolute, names (plain b)),
        λ (blank, absolute, all). from ((λ i. blank i || absolute i), special (some_other all)),
      )
    where
      neither : (a b : Bool) → (a || b) ≡ false → (a ≡ false) × (b ≡ false)
      neither true b h = absurd cc
      neither false b h = (refl, h)

  pub paths_iff :
      (list : List String)
      → (validate_artifact_paths paths agent list ≡ ok tt) ↔ All (IsInside paths) list
  unfolding validate_artifact_paths
  paths_iff [] = (λ h. tt, λ h. refl)
  paths_iff (p ∷ list) =
      let (to, from) = path_iff p in
      let (ih, hi) = paths_iff list in
      (
        λ h.
            let (u, a, b) =
              bind-eq-ok (validate_artifact_path paths agent p)
                (λ _. validate_artifact_paths paths agent list) h in
            (to a, ih b),
        λ (a, b). bind-of_ok _ (λ _. validate_artifact_paths paths agent list) (from a) ∙ hi b,
      )

  pub positive_iff : (n : ℕ) → ((n == 0) ≡ false) ↔ (0 < n)
  positive_iff n = ground arith

  pub both_positive_iff : (m n : ℕ) → ((m == 0 || n == 0) ≡ false) ↔ ((0 < m) × (0 < n))
  both_positive_iff m n = ground arith
