-- ===== src/Registry.antt =====
-- mm_gateway/registry.py: which backends a key may use, which of them serve a model, and in what order.
-- A pin, a tag, a default or a key's list that is given as an empty text counts as not given.
-- Providers are the interface of core/base.py: what they implement, their model lists, and the preflight
-- of a speech request (`R` is the type of requests).
pub mod Access
pub mod Aliases
pub mod Auto
pub mod Serving
pub mod Order
pub mod Resolve
use mm_gateway.Prelude.{
  ℕ, ◌+◌, String, Bool, true, false, ◌&&◌, ◌||◌, not, Option, none, some, List, [], ◌∷◌, ◌++◌, map,
  ◌==◌, string_eq, nat_eq, pair_eq, option_eq, is_some, contains, any, keep, if◌then◌else◌,
}
use mm_gateway.Prelude.Int.{pos}
use mm_gateway.Prelude.Dict
use mm_gateway.Prelude.Dict.{Dict}
use mm_gateway.Prelude.Sort.{Key, sort_by}
use mm_gateway.Config.{KeyConfig, BackendConfig}

pub record Provider (R : Type 0) : Type 0 where
  pub implements_image : Bool
  pub implements_video : Bool
  pub implements_music : Bool
  pub implements_audio : Bool
  pub clones_voices : Bool
  -- backend.extra.get("audio_only")
  pub audio_only : Bool
  pub image_models : List String
  pub video_models : List String
  pub music_models : List String
  pub audio_models : List String
  pub audio_request_error : R → String → Option String

-- One named backend: its default provider, its configuration, and its accounts in their order.
-- `_backends`, `_configs` and `_backend_accounts` have the same keys.
pub record Backend (R : Type 0) : Type 0 where
  pub config : BackendConfig
  pub provider : Provider R
  pub accounts : List (String × Provider R)

pub record Registry (R : Type 0) : Type 0 where
  pub backends : Dict String (Backend R)
  -- alias to (backend type, real model)
  pub aliases : Dict String (String × String)
  -- alias to the one backend it is tied to
  pub alias_backends : Dict String String

pub data RouteError : Type 0 where
  forbidden : RouteError
  model_not_found : RouteError
  profile_unavailable : RouteError

abbrev pub names : {V : Type 0} → Dict String V → List String
names [] = []
names ((n, b) ∷ d) = n ∷ names d

-- bool(set(xs) & set(ys))
abbrev pub meet : List String → List String → Bool
meet xs ys = any (contains ys) xs

abbrev pub no_texts : List String → Bool
no_texts [] = true
no_texts (x ∷ xs) = false

abbrev pub modalities : List String
modalities = "image" ∷ "video" ∷ "music" ∷ "audio" ∷ []

unfoldable pub key_default_backend : Option KeyConfig → String → Option String
key_default_backend none modality = none
key_default_backend (some key) modality =
    if modality == "audio"
    then key.default_audio_backend
    else if modality == "image"
    then key.default_image_backend
    else if modality == "video"
    then key.default_video_backend
    else key.default_music_backend

unfoldable pub key_default_tag : Option KeyConfig → String → Option String
key_default_tag none modality = none
key_default_tag (some key) modality =
    if modality == "audio"
    then key.default_audio_tag
    else if modality == "image"
    then key.default_image_tag
    else if modality == "video"
    then key.default_video_tag
    else key.default_music_tag

-- The hybrid allow and deny rule for one backend.
unfoldable pub may_use : KeyConfig → String → BackendConfig → Bool
may_use key name cfg =
    not (contains key.deny_tags name || contains key.deny_tags cfg.type)
    && (meet cfg.tags key.allow_tags
        || (contains key.allow_backends name
            || (no_texts key.allow_tags && no_texts key.allow_backends)))

module _ {R : Type 0} where
  abbrev pub allowed_in : KeyConfig → Dict String (Backend R) → List String
  allowed_in key [] = []
  allowed_in key ((n, b) ∷ d) =
      let rest = allowed_in key d in if may_use key n b.config then n ∷ rest else rest

  unfoldable pub usable_backends : KeyConfig → Registry R → List String
  unfolding may_use
  usable_backends key r = allowed_in key r.backends

  -- Every backend for a caller without a key; a key that may use none is forbidden.
  unfoldable pub usable : Option KeyConfig → Registry R → Option (List String)
  usable none r = some (names r.backends)
  usable (some key) r =
      if no_texts (usable_backends key r) then none else some (usable_backends key r)

  unfoldable pub modality_models : Provider R → String → List String
  modality_models p modality =
      if modality == "audio"
      then p.audio_models
      else if modality == "image"
      then p.image_models
      else if modality == "music"
      then p.music_models
      else p.video_models

  unfoldable pub serves_modality : Provider R → String → Bool
  serves_modality p modality =
      if modality == "audio"
      then p.implements_audio
      else if modality == "image"
      then p.implements_image && not p.audio_only
      else if modality == "video"
      then p.implements_video && not p.audio_only
      else p.implements_music && not p.audio_only

  abbrev pub lists_model : Provider R → String → Bool
  lists_model p model = any (λ modality. contains (modality_models p modality) model) modalities

  -- Of a name that is usable; every usable name has its backend.
  abbrev pub on_backend : {V : Type 0} → V → (Backend R → V) → String → Registry R → V
  on_backend default f name r = elim (Dict.get name r.backends) [ none ↦ default | some b ↦ f b ]

  -- `split` is model.split("/", 1), none for a model without a slash.
  unfoldable pub resolve_model_id :
      (String → Option (String × String))
      → String
      → List String
      → Registry R
      → Option String × String
  unfolding modality_models
  resolve_model_id split model usable r = elim (Dict.get model r.aliases) [
    | some (type, real) ↦ (some type, real)
    | none ↦
        if any (λ n. on_backend false (λ b. lists_model b.provider model) n r) usable
        then (none, model)
        else elim (split model) [
          | none ↦ (none, model)
          | some (prefix, rest) ↦
              if any (λ n. on_backend false (λ b. b.config.type == prefix) n r) usable
              then (some prefix, rest)
              else (none, model)
        ]
  ]

  -- `serves` of `backends_serving`, for a backend that exists.
  unfoldable pub serves :
      Option String → Option String → String → String → Option String → String → Backend R → Bool
  unfolding serves_modality modality_models
  serves alias_backend alias_type real modality pin name b =
      if is_some alias_backend && not (alias_backend == some name)
      then false
      else if is_some alias_type && not (alias_type == some b.config.type)
      then false
      else if is_some b.config.models
      then serves_modality b.provider modality
        && contains (modality_models b.provider modality) real
      else if pin == some name
      then true
      else if not (serves_modality b.provider modality)
      then false
      else contains (modality_models b.provider modality) real
        || (alias_type == some b.config.type || no_texts (modality_models b.provider modality))
