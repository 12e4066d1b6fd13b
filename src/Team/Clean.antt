-- ===== src/Team/Clean.antt =====
-- What `parse_agent_options` of crates/agentmosaic-runtime/src/driver_factory.rs reads options from.
use research_agent_system.Common.{
  String, false, Option, none, some, List, [], ◌∷◌, All, nat_eq, ◌≡◌, ◌↔◌, refl, sym, ap, ◌∙◌,
  subst, Result, ok, map_err,
}
use research_agent_system.Common.Fallible.{
  ◌>>=◌, guarded_iff, bind-eq-ok, bind-of_ok, map_err-eq-ok, ok_inj,
}
use Prim.Native.String.{◌++◌}
use research_agent_system.Team.Errors.{invalid_driver_config}
use research_agent_system.Team.Records.{given}
use research_agent_system.Team.Options.{
  Field, Value, object, no_object, AgentOptions, default_options, is_secret_like, check_keys,
  read_fields, read_object, parse_agent_options,
}

-- No field has a key that looks like a credential.
abbrev pub HasNoSecret : List (String × Field) → Type 0
HasNoSecret fields = All (λ e. is_secret_like e.0 ≡ false) fields

-- What the options of an agent are read from: nothing, or one object without a secret-like key.
abbrev pub AreOptionsOf :
    String → (String → Result String Value) → Option String → AgentOptions → Type 0
AreOptionsOf agent from_str none o = default_options ≡ o
AreOptionsOf agent from_str (some body) o =
    (fields : List (String × Field)) × (from_str body ≡ ok (object fields))
    × HasNoSecret fields
    × (read_fields agent fields ≡ ok o)

module _ (agent : String) where
  check_keys_iff :
      (fields : List (String × Field)) → (check_keys agent fields ≡ ok tt) ↔ HasNoSecret fields
  unfolding check_keys
  check_keys_iff [] = (λ h. tt, λ h. refl)
  check_keys_iff ((key, f) ∷ fields) =
      let (to, from) = guarded_iff (is_secret_like key) _ (check_keys agent fields) tt in
      let (ih, hi) = check_keys_iff fields in
      (λ h. let (a, b) = to h in (a, ih b), λ h. from (h.0, hi h.1))

  read_object_iff :
      (value : Value) (o : AgentOptions)
      → (read_object agent value ≡ ok o) ↔ (
          (fields : List (String × Field)) × (value ≡ object fields)
          × HasNoSecret fields
          × (read_fields agent fields ≡ ok o))
  unfolding read_object
  read_object_iff no_object o = (λ h. absurd cc, λ (fields, e, clean, read). absurd cc)
  read_object_iff (object fields) o = (
    λ h.
        let (u, keys, read) =
          bind-eq-ok (check_keys agent fields) (λ _. read_fields agent fields) h in
        (fields, refl, (check_keys_iff fields).0 keys, read),
    λ (others, e, clean, read).
        let same : fields ≡ others = cc in
        bind-of_ok _ (λ _. read_fields agent fields)
          ((check_keys_iff fields).1 (subst HasNoSecret (sym same) clean))
        ∙ ap (read_fields agent) same
        ∙ read,
  )

  pub parse_agent_options_iff :
      (from_str : String → Result String Value) (raw : Option String) (o : AgentOptions)
      → (parse_agent_options agent from_str raw ≡ ok o) ↔ AreOptionsOf agent from_str (given raw) o
  unfolding parse_agent_options
  parse_agent_options_iff from_str raw o = by_body (given raw)
    where
      by_body :
          (body : Option String)
          → ((elim body [
            | none ↦ ok default_options
            | some b ↦
                map_err
                  (λ e. invalid_driver_config agent ("driver_config_json is not valid JSON: " ++ e))
                  (from_str b)
                >>= read_object agent
          ])
              ≡ ok o)
            ↔ AreOptionsOf agent from_str body o
      by_body none = (λ h. ok_inj h, λ h. ap ok h)
      by_body (some b) = (
        λ h.
            let (value, p, h₁) = bind-eq-ok (map_err _ (from_str b)) (read_object agent) h in
            let (fields, e, clean, read) = (read_object_iff value o).0 h₁ in
            (fields, map_err-eq-ok _ (from_str b) p ∙ ap ok e, clean, read),
        λ (fields, p, clean, read).
            bind-of_ok _ (read_object agent) (ap (map_err _) p)
            ∙ (read_object_iff (object fields) o).1 (fields, refl, clean, read),
      )
