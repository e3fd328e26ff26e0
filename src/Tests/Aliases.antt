-- ===== src/Tests/Aliases.antt =====
-- A registry whose backend "a" has an alias for its video model.
use mm_gateway.Prelude.{String, ◌≡◌, refl, true, none, [], ◌∷◌, ◌++◌, string_eq}
use mm_gateway.Prelude.Dict
use mm_gateway.Prelude.Dict.{Dict}
use mm_gateway.Config.{BackendConfig}
use mm_gateway.Registry.{Registry, modality_models}
use mm_gateway.Registry.Aliases.{
  built, refused, alias_of_alias, add_alias, add_aliases, add_backends, build_aliases,
  custom_aliases, all_configured, advertised,
}
use mm_gateway.Registry.Aliases.Added.{AreSound}
use mm_gateway.Registry.Aliases.Sound.{build_aliases-AreSound}
use mm_gateway.Tests.Registry.{registry}

abbrev builtin : Dict String (String × String)
builtin = ("gateway-video", ("t", "v")) ∷ []

abbrev config : BackendConfig
config = record {
  name = "a";
  type = "t";
  tags = [];
  enabled = true;
  models = none;
  model_aliases = ("house", "v") ∷ [];
}

abbrev with_aliases : Registry String
with_aliases = record registry {
  aliases = ("gateway-video", ("t", "v")) ∷ ("house", ("t", "v")) ∷ [];
  alias_backends = ("house", "a") ∷ [];
}

aliases_built : build_aliases builtin (config ∷ []) registry ≡ built with_aliases
unfolding build_aliases add_backends add_aliases add_alias Dict.get Dict.put modality_models
aliases_built = refl

build_aliases-AreSound_example :
    AreSound builtin
      (custom_aliases (config ∷ []))
      (all_configured (config ∷ []) ++ advertised (Dict.values registry.backends))
      registry.backends
      (with_aliases.aliases, with_aliases.alias_backends)
build_aliases-AreSound_example =
    build_aliases-AreSound builtin (config ∷ []) registry with_aliases aliases_built

chained :
    build_aliases builtin
      (record config { model_aliases = ("house", "gateway-video") ∷ [] } ∷ [])
      registry
    ≡ refused alias_of_alias
unfolding build_aliases add_backends add_aliases add_alias Dict.get Dict.put modality_models
chained = refl
