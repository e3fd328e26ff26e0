-- ===== src/Tests/Registry.antt =====
-- Two backends of one type, and a key that may use one of them.
use mm_gateway.Prelude.{
  String, string_eq, ◌≡◌, ◌↔◌, ◌⊎◌, refl, Bool, true, false, Option, none, some, List, [], ◌∷◌,
  contains,
}
use mathlib.Core.List.{Mem}
use mm_gateway.Prelude.Dict
use mm_gateway.Prelude.Dict.{Dict}
use mm_gateway.Config.{KeyConfig, no_defaults, resolve_key, key_for, open_key}
use mm_gateway.Config.Keys.{resolve_key_sound}
use mm_gateway.Registry.{
  Provider, Backend, Registry, may_use, usable_backends, usable, resolve_model_id, serves,
  key_default_backend, key_default_tag, serves_modality, modality_models,
}
use mm_gateway.Registry.Serving.{found, backends_serving, resolve}
use mm_gateway.Registry.Resolve.{resolve_first, first_of}
use mm_gateway.Registry.Access.{authorize_task_access, MayUse, authorize_task_access-MayUse}
use mm_gateway.Tests.Tasks.{stored_record}

abbrev provider : Provider String
provider = record {
  implements_image = true;
  implements_video = true;
  implements_music = false;
  implements_audio = false;
  clones_voices = false;
  audio_only = false;
  image_models = "m" ∷ [];
  video_models = "v" ∷ [];
  music_models = [];
  audio_models = [];
  audio_request_error = λ r m. none;
}

abbrev backend : String → List String → Backend String
backend name tags = record {
  config = record {
    name = name;
    type = "t";
    tags = tags;
    enabled = true;
    models = none;
    model_aliases = [];
  };
  provider = provider;
  accounts = ("default", provider) ∷ [];
}

abbrev pub registry : Registry String
registry = record {
  backends = ("a", backend "a" []) ∷ ("b", backend "b" ("fast" ∷ [])) ∷ [];
  aliases = [];
  alias_backends = [];
}

-- May use the backends tagged "fast", and a.
abbrev pub key : KeyConfig
key = record (no_defaults "team" "secret" none) {
  allow_tags = "fast" ∷ [];
  allow_backends = "a" ∷ [];
  default_video_tag = some "fast";
}

abbrev pub whole : String → Option (String × String)
whole model = none

resolve_key_sound_example :
    Mem key (key ∷ []) × (key.enabled ≡ true) × ((some "secret" ≡ some key.key) ⊎ (key.key ≡ ""))
unfolding resolve_key key_for open_key
resolve_key_sound_example = resolve_key_sound (key ∷ []) (some "secret") key refl

resolve_first_example :
    resolve whole "v" (some key) "video" none none registry
    ≡ first_of (backends_serving whole "v" (some key) "video" none registry)
resolve_first_example = resolve_first registry whole "v" (some key) "video" none refl

backends_serving_example :
    backends_serving whole "v" (some key) "video" none registry ≡ found ("v", "b" ∷ "a" ∷ [])
unfolding backends_serving usable usable_backends may_use resolve_model_id serves serves_modality
    modality_models key_default_backend key_default_tag Dict.get mm_gateway.Prelude.Sort.sort_by
    mm_gateway.Prelude.Sort.lt_key
backends_serving_example = refl

authorize_task_access-MayUse_example :
    (stored_record.owner_key_id ≡ key.id) × MayUse key stored_record.provider registry.backends
unfolding authorize_task_access usable_backends may_use
authorize_task_access-MayUse_example = authorize_task_access-MayUse key registry stored_record refl
