-- ===== src/Team/Judged.antt =====
-- What the registry of crates/agentmosaic-runtime/src/team_runner.rs is made from: rows that a
-- readiness check accepts one by one.
use text.Mathlib.TextEquality.{eq_iff}
use research_agent_system.Common.{
  String, Bool, true, false, if◌then◌else◌, List, [], ◌∷◌, map, any, All, IsNodup, ◌==◌, nat_eq,
  string_eq, ◌≡◌, ◌↔◌, refl, sym, ap, ◌∙◌, subst, arith, ok, err, map_err, ◌||◌,
}
use research_agent_system.Common.Fallible.{
  collect, bind-eq-ok, bind-of_ok, map_err-eq-ok, refuse_if-eq-ok, ok_inj,
}
use research_agent_system.Registry.AgentTier.{AgentTier, tier_eq}
use research_agent_system.Registry.Agents.{AgentConfig, AgentRegistry, new}
use research_agent_system.Registry.Agents.Ids.{ids}
use research_agent_system.Registry.Agents.Build.{IsRunnable, new_total, new_sound, new_complete}
use research_agent_system.Storage.Agents.{AgentRegistryRecord}
use research_agent_system.Team.Errors.{TeamRunnerError, unsupported_tier, show_error}
use research_agent_system.Team.Records.{
  Json, json_string_array, tier_of, agent_config, agent_registry, validate_registry_row,
}

-- A text and a tier agree on what a team needs.
abbrev IsTierOf : AgentTier → String → Type 0
IsTierOf t name =
    ((t == AgentTier.reasoner) ≡ (name == "reasoner"))
    × ((t == AgentTier.worker) ≡ (name == "worker"))

tier_of-eq-ok : (agent name : String) (t : AgentTier) → tier_of agent name ≡ ok t → IsTierOf t name
unfolding tier_of
tier_of-eq-ok agent name t h =
    by_name (name == "reasoner") (name == "worker") (name == "utility") refl refl refl h
  where
    named :
        (k : AgentTier) (text : String) → IsTierOf k text → name ≡ text → k ≡ t → IsTierOf t name
    named k text of p q =
        subst {A = AgentTier × String} (λ x. IsTierOf x.0 x.1) {x = (k, text)} {y = (t, name)}
          (λ i. (q i, sym p i)) of

    by_name :
        (r w u : Bool)
        → (name == "reasoner") ≡ r
        → (name == "worker") ≡ w
        → (name == "utility") ≡ u
        → (if r
            then ok AgentTier.reasoner
            else if w
            then ok AgentTier.worker
            else if u
            then ok AgentTier.utility
            else err (unsupported_tier agent name))
          ≡ ok t
        → IsTierOf t name
    by_name true w u p q s h =
        named AgentTier.reasoner "reasoner" (refl, refl) ((eq_iff name "reasoner").0 p) (ok_inj h)
    by_name false true u p q s h =
        named AgentTier.worker "worker" (refl, refl) ((eq_iff name "worker").0 q) (ok_inj h)
    by_name false false true p q s h =
        named AgentTier.utility "utility" (refl, refl) ((eq_iff name "utility").0 s) (ok_inj h)
    by_name false false false p q s h = absurd cc

module _ (json : Json) where
  -- What the configuration of a row keeps of it.
  agent_config-eq-ok :
      (r : AgentRegistryRecord) (c : AgentConfig)
      → agent_config json r ≡ ok c
      → (c.id ≡ r.id) × IsTierOf c.tier r.tier
  unfolding agent_config
  agent_config-eq-ok r c h =
      let (t, p, h₁) = bind-eq-ok (tier_of r.id r.tier) _ h in
      let (tags, q, h₂) = bind-eq-ok (json_string_array json r.id r.tags_json) _ h₁ in
      let (args, s, h₃) = bind-eq-ok (json_string_array json r.id r.driver_args_json) _ h₂ in
      let same = ok_inj h₃ in
      (
        ap {A = AgentConfig} (λ c. c.id) (sym same),
        subst {A = AgentConfig} (λ c. IsTierOf c.tier r.tier) same (tier_of-eq-ok r.id r.tier t p),
      )

  validated :
      (r : AgentRegistryRecord) (c : AgentConfig)
      → agent_config json r ≡ ok c
      → IsRunnable c
      → validate_registry_row json r ≡ ok tt
  unfolding validate_registry_row
  validated r c h p = bind-of_ok _ _ (ap (map_err (show_error json.debug_text)) h) ∙ ground arith

  config_of_validated :
      (r : AgentRegistryRecord)
      → validate_registry_row json r ≡ ok tt
      → (c : AgentConfig) × (agent_config json r ≡ ok c) × IsRunnable c
  unfolding validate_registry_row
  config_of_validated r h =
      let (c, p, h₁) =
        bind-eq-ok (map_err (show_error json.debug_text) (agent_config json r)) _ h in
      let positive = refuse_if-eq-ok (c.max_concurrency == 0) _ h₁ in
      (c, map_err-eq-ok _ (agent_config json r) p, ground arith)

  -- The configurations are those of the rows, one by one.
  abbrev AreConfigs : List AgentRegistryRecord → List AgentConfig → Type 0
  AreConfigs [] [] = Unit
  AreConfigs (r ∷ rs) (c ∷ cs) = (agent_config json r ≡ ok c) × AreConfigs rs cs
  AreConfigs _ _ = ⊥

  collect-AreConfigs :
      (rs : List AgentRegistryRecord) (cs : List AgentConfig)
      → collect (agent_config json) rs ≡ ok cs
      → AreConfigs rs cs
  unfolding collect
  collect-AreConfigs [] [] h = tt
  collect-AreConfigs [] (c ∷ cs) h = absurd cc
  collect-AreConfigs (r ∷ rs) cs h =
      let (c, p, h₁) = bind-eq-ok (agent_config json r) _ h in
      let (rest, q, h₂) = bind-eq-ok (collect (agent_config json) rs) _ h₁ in
      subst (AreConfigs (r ∷ rs)) (ok_inj h₂) (p, collect-AreConfigs rs rest q)

  AreConfigs-collect :
      (rs : List AgentRegistryRecord) (cs : List AgentConfig)
      → AreConfigs rs cs
      → collect (agent_config json) rs ≡ ok cs
  unfolding collect
  AreConfigs-collect [] [] h = refl
  AreConfigs-collect [] (c ∷ cs) h = absurd h
  AreConfigs-collect (r ∷ rs) [] h = absurd h
  AreConfigs-collect (r ∷ rs) (c ∷ cs) h =
      bind-of_ok _ _ h.0 ∙ bind-of_ok _ _ (AreConfigs-collect rs cs h.1)

  -- Ids and tiers are those of the rows,
  AreConfigs-kept :
      (rs : List AgentRegistryRecord) (cs : List AgentConfig)
      → AreConfigs rs cs
      → (ids cs ≡ map (λ r. r.id) rs)
        × (any (λ c. c.tier == AgentTier.reasoner) cs ≡ any (λ r. r.tier == "reasoner") rs)
        × (any (λ c. c.tier == AgentTier.worker) cs ≡ any (λ r. r.tier == "worker") rs)
  AreConfigs-kept [] [] h = (refl, refl, refl)
  AreConfigs-kept [] (c ∷ cs) h = absurd h
  AreConfigs-kept (r ∷ rs) [] h = absurd h
  AreConfigs-kept (r ∷ rs) (c ∷ cs) h =
      let (i, (t, w)) = agent_config-eq-ok r c h.0 in
      let (is, ts, ws) = AreConfigs-kept rs cs h.1 in
      ((λ j. i j ∷ is j), (λ j. t j || ts j), (λ j. w j || ws j))

  -- and they are runnable exactly if the rows are accepted one by one.
  abbrev IsAccepted : AgentRegistryRecord → Type 0
  IsAccepted r = validate_registry_row json r ≡ ok tt

  AreConfigs-IsAccepted :
      (rs : List AgentRegistryRecord) (cs : List AgentConfig)
      → AreConfigs rs cs
      → All IsRunnable cs
      → All IsAccepted rs
  AreConfigs-IsAccepted [] [] h p = tt
  AreConfigs-IsAccepted [] (c ∷ cs) h p = absurd h
  AreConfigs-IsAccepted (r ∷ rs) [] h p = absurd h
  AreConfigs-IsAccepted (r ∷ rs) (c ∷ cs) h p =
      (validated r c h.0 p.0, AreConfigs-IsAccepted rs cs h.1 p.1)

  IsAccepted-AreConfigs :
      (rs : List AgentRegistryRecord)
      → All IsAccepted rs
      → (cs : List AgentConfig) × AreConfigs rs cs × All IsRunnable cs
  IsAccepted-AreConfigs [] h = ([], tt, tt)
  IsAccepted-AreConfigs (r ∷ rs) h =
      let (c, p, q) = config_of_validated r h.0 in
      let (cs, ps, qs) = IsAccepted-AreConfigs rs h.1 in (c ∷ cs, (p, ps), (q, qs))

  -- A run's registry can be built from the rows exactly if the readiness check accepts every row, no
  -- two rows have the same id, and there are a reasoner and a worker among them.
  pub agent_registry_iff :
      (records : List AgentRegistryRecord)
      → ((registry : AgentRegistry) × (agent_registry json records ≡ ok registry)) ↔ (
          All (λ r. validate_registry_row json r ≡ ok tt) records
          × IsNodup (map (λ r. r.id) records)
          × (any (λ r. r.tier == "reasoner") records ≡ true)
          × (any (λ r. r.tier == "worker") records ≡ true))
  unfolding agent_registry
  agent_registry_iff records = (
    λ (registry, h).
        let (cs, p, h₁) = bind-eq-ok (collect (agent_config json) records) _ h in
        let built = map_err-eq-ok TeamRunnerError.registry (new cs) h₁ in
        let of = collect-AreConfigs records cs p in
        let (i, t, w) = AreConfigs-kept records cs of in
        let (runnable, reasoner, worker) = new_complete cs registry built in
        (
          AreConfigs-IsAccepted records cs of runnable,
          subst IsNodup i (new_sound cs registry built).0,
          sym t ∙ reasoner,
          sym w ∙ worker,
        ),
    λ (accepted, unique, reasoner, worker).
        let (cs, of, runnable) = IsAccepted-AreConfigs records accepted in
        let (i, t, w) = AreConfigs-kept records cs of in
        let (registry, built) =
          new_total cs (subst IsNodup (sym i) unique) runnable (t ∙ reasoner) (w ∙ worker) in
        (
          registry,
          bind-of_ok _ _ (AreConfigs-collect records cs of)
              ∙ ap (map_err TeamRunnerError.registry) built,
        ),
  )
