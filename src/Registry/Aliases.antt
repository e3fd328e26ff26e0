-- ===== src/Registry/Aliases.antt =====
-- `Registry._build_aliases` of mm_gateway/registry.py: the aliases of the configured backends are added to
-- the built-in table, or the configuration is refused.
pub mod Added
pub mod Sound
use mm_gateway.Prelude.{
  String, Bool, true, false, ◌&&◌, ◌||◌, not, Option, none, some, List, [], ◌∷◌, ◌++◌, ◌==◌,
  string_eq, is_some, contains, any, if◌then◌else◌,
}
use mm_gateway.Prelude.Dict
use mm_gateway.Prelude.Dict.{Dict}
use mm_gateway.Config.{BackendConfig}
use mm_gateway.Registry.{Backend, Registry, Provider, modality_models, modalities}

pub data AliasError : Type 0 where
  names_gateway_alias alias_conflict alias_of_alias inactive_target : AliasError

-- alias to (type, model), and alias to its backend
abbrev pub Table : Type 0
Table = Dict String (String × String) × Dict String String

pub data Built (A : Type 0) : Type 0 where
  built : A → Built A
  refused : AliasError → Built A

-- the models of every modality, by configuration
abbrev pub flattened : List (List String) → List String
flattened [] = []
flattened (xs ∷ xss) = xs ++ flattened xss

abbrev pub configured_models : BackendConfig → List String
configured_models cfg = elim cfg.models [ none ↦ [] | some d ↦ flattened (Dict.values d) ]

abbrev pub keys : {V : Type 0} → Dict String V → List String
keys [] = []
keys ((k, v) ∷ d) = k ∷ keys d

abbrev pub custom_aliases : List BackendConfig → List String
custom_aliases [] = []
custom_aliases (cfg ∷ cfgs) = keys cfg.model_aliases ++ custom_aliases cfgs

abbrev pub all_configured : List BackendConfig → List String
all_configured [] = []
all_configured (cfg ∷ cfgs) = configured_models cfg ++ all_configured cfgs

module _ {R : Type 0} where
  abbrev pub advertised_in : Provider R → List String → List String
  advertised_in p [] = []
  advertised_in p (m ∷ ms) = modality_models p m ++ advertised_in p ms

  abbrev pub advertised : List (Backend R) → List String
  advertised [] = []
  advertised (b ∷ bs) = advertised_in b.provider modalities ++ advertised bs

  -- any(target in self._modality_models(provider, modality) for modality in …)
  abbrev pub is_active : String → Backend R → Bool
  is_active target b = any (λ m. contains (modality_models b.provider m) target) modalities

  -- `provider and not any(…)`
  abbrev pub is_inactive : String → Option (Backend R) → Bool
  is_inactive target none = false
  is_inactive target (some b) = not (is_active target b)

  module _ (builtin : Dict String (String × String)) (custom raw_ids : List String)
      (backends : Dict String (Backend R)) where
    unfoldable pub add_alias : BackendConfig → String → String → Table → Built Table
    add_alias cfg alias target (aliases, tied) =
        if is_some (Dict.get alias aliases) || contains raw_ids alias
        then refused alias_conflict
        else if is_some (Dict.get target builtin) || contains custom target
        then refused alias_of_alias
        else if is_inactive target (Dict.get cfg.name backends)
        then refused inactive_target
        else built (Dict.put alias (cfg.type, target) aliases, Dict.put alias cfg.name tied)

    unfoldable pub add_aliases : BackendConfig → Dict String String → Table → Built Table
    unfolding add_alias
    add_aliases cfg [] t = built t
    add_aliases cfg ((alias, target) ∷ rest) t = elim (add_alias cfg alias target t) [
      | refused e ↦ refused e
      | built u ↦ add_aliases cfg rest u
    ]

    unfoldable pub add_backends : List BackendConfig → Table → Built Table
    unfolding add_aliases
    add_backends [] t = built t
    add_backends (cfg ∷ cfgs) t = elim (add_aliases cfg cfg.model_aliases t) [
      | refused e ↦ refused e
      | built u ↦ add_backends cfgs u
    ]

  unfoldable pub build_aliases :
      Dict String (String × String) → List BackendConfig → Registry R → Built (Registry R)
  unfolding add_backends
  build_aliases builtin cfgs r =
      if any (λ cfg. any (λ m. is_some (Dict.get m builtin)) (configured_models cfg)) cfgs
      then refused names_gateway_alias
      else (elim (add_backends builtin (custom_aliases cfgs)
          (all_configured cfgs ++ advertised (Dict.values r.backends)) r.backends cfgs
          (builtin, [])) [
            | refused e ↦ refused e
            | built (aliases, tied) ↦ built (record r { aliases = aliases; alias_backends = tied })
          ])
