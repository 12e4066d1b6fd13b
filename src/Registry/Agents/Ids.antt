-- ===== src/Registry/Agents/Ids.antt =====
-- The first loop of `AgentRegistry::new`: which ids it lets pass.
use text.Mathlib.TextEquality.{eq_iff}
use research_agent_system.Common.{
  String, ◌≡◌, refl, ap, ◌∙◌, true, false, ◌||◌, none, List, [], ◌∷◌, map, arith, ◌==◌, nat_eq,
  string_eq, contains, any, find, All, IsNodup, ok,
}
use research_agent_system.Registry.AgentTier.{tier_eq}
use research_agent_system.Registry.Agents.{AgentConfig, check_ids}

-- `check_ids` passes exactly the agents whose ids are new to `seen` and to each other.
abbrev pub ids : List AgentConfig → List String
ids agents = map (λ a. a.id) agents

contains-ids :
    (j : String) (agents : List AgentConfig) → contains j (ids agents) ≡ any (λ a. a.id == j) agents
contains-ids j [] = refl
contains-ids j (a ∷ rest) = ap (λ b. a.id == j || b) (contains-ids j rest)

any-find :
    (j : String) (agents : List AgentConfig)
    → find (λ a. a.id == j) agents ≡ none
    → any (λ a. a.id == j) agents ≡ false
any-find j [] h = refl
any-find j (a ∷ rest) h = ground (arith, any-find j rest)

pub check_ids_fresh :
    (j : String) (seen : List String) (agents : List AgentConfig)
    → check_ids seen agents ≡ ok tt
    → contains j seen ≡ true
    → find (λ a. a.id == j) agents ≡ none
unfolding check_ids
check_ids_fresh j seen [] h c = refl
check_ids_fresh j seen (a ∷ rest) h c =
    ground (arith, eq_iff a.id j, check_ids_fresh j (a.id ∷ seen) rest)

pub check_ids-IsNodup :
    (seen : List String) (agents : List AgentConfig)
    → check_ids seen agents ≡ ok tt
    → IsNodup (ids agents)
unfolding check_ids
check_ids-IsNodup seen [] h = tt
check_ids-IsNodup seen (a ∷ rest) h = (
  contains-ids a.id rest
      ∙ any-find a.id rest (
          check_ids_fresh a.id (a.id ∷ seen) rest (ground arith)
            (ground (arith, eq_iff a.id a.id))),
  check_ids-IsNodup (a.id ∷ seen) rest (ground arith),
)

abbrev IsNew : List String → AgentConfig → Type 0
IsNew seen a = contains a.id seen ≡ false

IsNew-cons :
    (j : String) (seen : List String) (agents : List AgentConfig)
    → contains j (ids agents) ≡ false
    → All (IsNew seen) agents
    → All (IsNew (j ∷ seen)) agents
IsNew-cons j seen [] h a = tt
IsNew-cons j seen (b ∷ rest) h a =
    (ground (arith, eq_iff j b.id, eq_iff b.id j), IsNew-cons j seen rest (ground arith) a.1)

pub check_ids_total :
    (seen : List String) (agents : List AgentConfig)
    → All (IsNew seen) agents
    → IsNodup (ids agents)
    → check_ids seen agents ≡ ok tt
unfolding check_ids
check_ids_total seen [] a n = refl
check_ids_total seen (b ∷ rest) a n =
    ground (arith, check_ids_total (b.id ∷ seen) rest (IsNew-cons b.id seen rest n.0 a.1) n.1)

pub IsNew-nil : (agents : List AgentConfig) → All (IsNew []) agents
IsNew-nil [] = tt
IsNew-nil (a ∷ rest) = (refl, IsNew-nil rest)
