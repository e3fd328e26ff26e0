-- ===== src/Registry/Aliases/Sound.antt =====
-- What the table of aliases holds once it is built.
use mm_gateway.Prelude.{
  String, ◌≡◌, inl, inr, subst, true, List, [], ◌∷◌, ◌++◌, string_eq, is_some, contains, any, All,
  arith, Bool-cases,
}
use mm_gateway.Prelude.Dict
use mm_gateway.Prelude.Dict.{Dict, get-put}
use mm_gateway.Config.{BackendConfig}
use mm_gateway.Registry.{Backend, Registry}
use mm_gateway.Registry.Aliases.{
  Table, built, add_alias, add_aliases, add_backends, build_aliases, keys, custom_aliases,
  all_configured, advertised, configured_models,
}
use mm_gateway.Registry.Aliases.Added.{Built-cases, AreSound, add_alias-AreSound}

module _ {R : Type 0} (builtin : Dict String (String × String)) (custom raw_ids : List String)
    (backends : Dict String (Backend R)) where
  -- The aliases of each backend were all gathered before.
  abbrev Gathered : List String → Type 0
  Gathered ks = All (λ k. contains custom k ≡ true) ks

  add_aliases-AreSound :
      (cfg : BackendConfig) (d : Dict String String) (t u : Table)
      → Gathered (keys d)
      → AreSound builtin custom raw_ids backends t
      → add_aliases builtin custom raw_ids backends cfg d t ≡ built u
      → AreSound builtin custom raw_ids backends u
  unfolding add_aliases
  add_aliases-AreSound cfg [] t u all h e =
      let same : t ≡ u = cc in subst (AreSound builtin custom raw_ids backends) same h
  add_aliases-AreSound cfg ((alias, target) ∷ rest) t u all h e =
      elim (Built-cases (add_alias builtin custom raw_ids backends cfg alias target t)) [
        | inl (problem, failed) ↦ absurd (ground arith)
        | inr (v, done) ↦
            add_aliases-AreSound cfg rest v u all.1
              (add_alias-AreSound builtin custom raw_ids backends cfg alias target t v all.0 h done)
              (ground arith)
      ]

  add_backends-AreSound :
      (cfgs : List BackendConfig) (t u : Table)
      → All (λ cfg. Gathered (keys cfg.model_aliases)) cfgs
      → AreSound builtin custom raw_ids backends t
      → add_backends builtin custom raw_ids backends cfgs t ≡ built u
      → AreSound builtin custom raw_ids backends u
  unfolding add_backends
  add_backends-AreSound [] t u all h e =
      let same : t ≡ u = cc in subst (AreSound builtin custom raw_ids backends) same h
  add_backends-AreSound (cfg ∷ cfgs) t u all h e =
      elim (Built-cases (add_aliases builtin custom raw_ids backends cfg cfg.model_aliases t)) [
        | inl (problem, failed) ↦ absurd (ground arith)
        | inr (v, done) ↦
            add_backends-AreSound cfgs v u all.1
              (add_aliases-AreSound cfg cfg.model_aliases t v all.0 h done) (ground arith)
      ]

contains-left :
    (xs ys : List String) (k : String) → contains xs k ≡ true → contains (xs ++ ys) k ≡ true
contains-left [] ys k h = cc
contains-left (x ∷ xs) ys k h = ground (arith, contains-left xs ys k)

contains-right :
    (xs ys : List String) (k : String) → contains ys k ≡ true → contains (xs ++ ys) k ≡ true
contains-right [] ys k h = h
contains-right (x ∷ xs) ys k h = ground (arith, contains-right xs ys k h)

-- Every key of a list is in a list that contains all of it.
each_within :
    (ks whole : List String)
    → ((k : String) → contains ks k ≡ true → contains whole k ≡ true)
    → All (λ k. contains whole k ≡ true) ks
each_within [] whole f = tt
each_within (k ∷ ks) whole f =
    (f k (ground (arith, string_eq.beq_iff k k)), each_within ks whole (λ j h. f j (ground arith)))

gathered :
    (cfgs : List BackendConfig) (whole : List String)
    → ((k : String) → contains (custom_aliases cfgs) k ≡ true → contains whole k ≡ true)
    → All
        (λ (cfg : BackendConfig). All (λ k. contains whole k ≡ true) (keys cfg.model_aliases))
        cfgs
gathered [] whole f = tt
gathered (cfg ∷ cfgs) whole f = (
  each_within (keys cfg.model_aliases) whole
      (λ k h. f k (contains-left (keys cfg.model_aliases) (custom_aliases cfgs) k h)),
  gathered cfgs whole
      (λ k h. f k (contains-right (keys cfg.model_aliases) (custom_aliases cfgs) k h)),
)

-- When the registry's aliases are built, every built-in alias keeps its entry, and every other
-- alias is a configured one that is no model's id, leads to a model that is itself neither a
-- built-in nor a configured alias, and is tied to a backend that, if it is active, advertises that
-- model.
pub build_aliases-AreSound :
    {R : Type 0} (builtin : Dict String (String × String)) (cfgs : List BackendConfig)
    (r r' : Registry R)
    → build_aliases builtin cfgs r ≡ built r'
    → AreSound builtin
        (custom_aliases cfgs)
        (all_configured cfgs ++ advertised (Dict.values r.backends))
        r.backends
        (r'.aliases, r'.alias_backends)
unfolding build_aliases
build_aliases-AreSound builtin cfgs r r' e =
    let custom = custom_aliases cfgs in
    let raw_ids = all_configured cfgs ++ advertised (Dict.values r.backends) in
    elim (Bool-cases
      (any (λ cfg. any (λ m. is_some (Dict.get m builtin)) (configured_models cfg)) cfgs)) [
        | inl bad ↦ absurd (ground arith)
        | inr good ↦
            elim (Built-cases (add_backends builtin custom raw_ids r.backends cfgs (builtin, []))) [
              | inl (problem, failed) ↦ absurd (ground arith)
              | inr (u, done) ↦
                  let is_u : u ≡ (r'.aliases, r'.alias_backends) = ground arith in
                  subst (AreSound builtin custom raw_ids r.backends) is_u (
                    add_backends-AreSound builtin custom raw_ids r.backends cfgs (builtin, []) u
                      (gathered cfgs custom (λ k h. h))
                      (record { known = λ a ty g h. inl h; kept = λ a x h. h }) done)
            ]
      ]
