-- ===== src/Config.antt =====
-- The parts of mm_gateway/config.py that the other parts read, and the caller's key of a request
-- (mm_gateway/server/auth.py). Texts of no length and missing texts are both falsy where the code only
-- asks whether there is one.
pub mod Keys
use mm_gateway.Prelude.{
  ℕ, String, Bool, true, false, ◌&&◌, ◌||◌, not, Option, none, some, List, [], ◌∷◌, ◌==◌, string_eq,
  is_some, contains, any, if◌then◌else◌,
}
use mm_gateway.Prelude.Dict.{Dict}

pub record KeyBudget : Type 0 where
  pub limit_usd : Option ℕ
  pub period : String
  pub scopes_limit_usd : Option ℕ

-- `extra` is left out: nothing reads it.
pub record KeyConfig : Type 0 where
  pub id : String
  pub key : String
  pub allow_tags : List String
  pub deny_tags : List String
  pub allow_backends : List String
  pub default_image_tag : Option String
  pub default_video_tag : Option String
  pub default_music_tag : Option String
  pub default_audio_tag : Option String
  pub default_image_backend : Option String
  pub default_video_backend : Option String
  pub default_music_backend : Option String
  pub default_audio_backend : Option String
  pub budget : Option KeyBudget
  pub enabled : Bool

-- The fields of `BackendConfig` that routing reads.
pub record BackendConfig : Type 0 where
  pub name : String
  pub type : String
  pub tags : List String
  pub enabled : Bool
  pub models : Option (Dict String (List String))
  pub model_aliases : Dict String String

abbrev pub no_defaults : String → String → Option KeyBudget → KeyConfig
no_defaults id key budget = record {
  id = id;
  key = key;
  allow_tags = [];
  deny_tags = [];
  allow_backends = [];
  default_image_tag = none;
  default_video_tag = none;
  default_music_tag = none;
  default_audio_tag = none;
  default_image_backend = none;
  default_video_backend = none;
  default_music_backend = none;
  default_audio_backend = none;
  budget = budget;
  enabled = true;
}

-- `Settings.key_for`
unfoldable pub key_for : List KeyConfig → String → Option KeyConfig
key_for [] token = none
key_for (k ∷ keys) token = if k.enabled && k.key == token then some k else key_for keys token

-- The first enabled key without a token, which admits any caller.
unfoldable pub open_key : List KeyConfig → Option KeyConfig
open_key [] = none
open_key (k ∷ keys) = if k.enabled && k.key == "" then some k else open_key keys

pub data Unauthorized : Type 0 where
  unknown_key missing_key : Unauthorized

pub data Resolved : Type 0 where
  admitted : KeyConfig → Resolved
  unauthorized : Unauthorized → Resolved

unfoldable pub open_or : List KeyConfig → Unauthorized → Resolved
open_or keys reason = elim (open_key keys) [ none ↦ unauthorized reason | some k ↦ admitted k ]

-- `resolve_key`. A token of no length is falsy.
unfoldable pub resolve_key : List KeyConfig → Option String → Resolved
unfolding key_for open_key open_or
resolve_key keys none = open_or keys missing_key
resolve_key keys (some token) =
    if token == ""
    then open_or keys missing_key
    else elim (key_for keys token) [ some k ↦ admitted k | none ↦ open_or keys unknown_key ]
