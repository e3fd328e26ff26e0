-- ===== src/Router/Checks.antt =====
-- A request's input profile, and each stage of mm_gateway/router.py's `_fits` as a check of its own.
use mm_gateway.Prelude.{
  ℕ, zero, ◌+◌, ◌*◌, max, String, Bool, true, false, ◌&&◌, ◌||◌, not, Option, none, some, List, [],
  ◌∷◌, ltb, nat_eq, string_eq, option_eq, contains, if◌then◌else◌,
}
use mm_gateway.Schemas.{empty?}
use mm_gateway.Models.Limits.{ModelLimits}

-- Texts that only their emptiness and equality matter of are `Option String`: a missing text and an
-- empty one are both falsy. `resolution` is walked, so it is a list of character codes.
pub record RequestProfile : Type 0 where
  pub modality : String
  pub input_modalities : List String
  pub prompt_chars : ℕ
  pub wants_image_input : Bool
  pub wants_first_frame : Bool
  pub wants_last_frame : Bool
  pub wants_reference_video : Bool
  pub wants_reference_audio : Bool
  pub wants_continuation_audio : Bool
  pub wants_reference_image : Bool
  pub wants_lyrics : Bool
  pub wants_audio_output : Bool
  pub input_image_count : ℕ
  pub output_count : Option ℕ
  pub width : Option ℕ
  pub height : Option ℕ
  pub aspect_ratio : Option String
  pub resolution : Option (List ℕ)
  pub duration_ms : Option ℕ
  pub fps : Option ℕ
  pub sample_rate_hz : Option ℕ
  pub wants_voice_clone : Bool
  pub input_audio_count : ℕ
  pub file_format : Option String
  pub speed : Option ℕ
  pub wants_instructions : Bool

-- [s for s in (width, height) if s]; max(sides) if sides else None
abbrev pub truthy : Option ℕ → Option ℕ
truthy none = none
truthy (some zero) = none
truthy (some n) = some n

abbrev pub larger : Option ℕ → Option ℕ → Option ℕ
larger none b = b
larger (some a) none = some a
larger (some a) (some b) = some (max a b)

unfoldable pub explicit_side : RequestProfile → Option ℕ
explicit_side p = larger (truthy p.width) (truthy p.height)

-- `return False, 0` is `none`; a check that lets the model through gives its optional hits.
abbrev pub Check : Type 0
Check = RequestProfile → ModelLimits → Option ℕ

abbrev pub veto : Bool → ℕ → Option ℕ
veto true hits = none
veto false hits = some hits

abbrev pub hit : Bool → ℕ
hit true = 1
hit false = 0

-- `limit is not None and value > limit`
abbrev pub over : ℕ → Option ℕ → Bool
over value none = false
over value (some limit) = ltb limit value

abbrev pub under : ℕ → Option ℕ → Bool
under value none = false
under value (some limit) = ltb value limit

-- `flag is False`
abbrev pub denied : Option Bool → Bool
denied none = false
denied (some b) = not b

abbrev pub granted : Option Bool → Bool
granted none = false
granted (some b) = b

abbrev pub subset : List String → List String → Bool
subset [] ys = true
subset (x ∷ xs) ys = contains ys x && subset xs ys

-- A text option outside a documented, non-empty list.
abbrev pub outside : Option String → List String → Bool
outside none xs = false
outside (some s) xs = not (empty? xs) && not (contains xs s)

unfoldable pub check_format : Check
check_format p l =
    veto
      (outside p.file_format l.supported_file_formats
        || (p.wants_instructions && denied l.supports_instructions))
      0

unfoldable pub check_speed : Check
check_speed p l = elim p.speed [
  | none ↦ some 0
  | some s ↦ veto (under s l.min_speed || over s l.max_speed) 0
]

unfoldable pub check_modalities : Check
check_modalities p l =
    veto
      (not (empty? l.input_modalities)
        && (not (empty? p.input_modalities) && not (subset p.input_modalities l.input_modalities)))
      0

-- Four characters a token.
unfoldable pub check_prompt : Check
check_prompt p l =
    veto
      (over p.prompt_chars l.max_prompt_chars
        || (elim l.max_prompt_tokens [ none ↦ false | some t ↦ ltb (t * 4) p.prompt_chars ]))
      0

unfoldable pub check_image : Check
check_image p l =
    if p.wants_image_input
    then veto (denied l.supports_image_to_image || over p.input_image_count l.max_input_images) 1
    else some 0

unfoldable pub check_count : Check
check_count p l = elim p.output_count [
  | none ↦ some 0
  | some n ↦ elim l.max_output_count [ none ↦ some 0 | some limit ↦ veto (ltb limit n) 1 ]
]

unfoldable pub check_duration : Check
check_duration p l = elim p.duration_ms [
  | none ↦ some 0
  | some d ↦ veto (over d l.max_duration_ms || under d l.min_duration_ms) 1
]

unfoldable pub check_fps : Check
check_fps p l = elim p.fps [
  | none ↦ some 0
  | some f ↦ elim l.max_fps [ none ↦ some 0 | some limit ↦ veto (ltb limit f) 1 ]
]

unfoldable pub check_side : Check
unfolding explicit_side
check_side p l = elim (explicit_side p) [
  | none ↦ some 0
  | some s ↦ elim l.max_output_longest_side [ none ↦ some 0 | some limit ↦ veto (ltb limit s) 1 ]
]

unfoldable pub check_ratio : Check
check_ratio p l = elim p.aspect_ratio [
  | none ↦ some 0
  | some r ↦ if empty? l.aspect_ratios then some 0 else veto (not (contains l.aspect_ratios r)) 1
]

unfoldable pub check_frames : Check
check_frames p l =
    veto
      ((p.wants_first_frame && denied l.supports_first_frame)
        || ((p.wants_last_frame && denied l.supports_last_frame)
            || ((p.wants_reference_video && denied l.supports_reference_video)
                || (p.wants_reference_audio && denied l.supports_reference_audio))))
      (hit p.wants_first_frame
        + hit p.wants_last_frame
        + hit p.wants_reference_video
        + hit p.wants_reference_audio)

unfoldable pub check_sound : Check
check_sound p l =
    if p.wants_audio_output
    then veto (denied l.supports_audio_output) (hit (granted l.supports_audio_output))
    else some 0

unfoldable pub check_music : Check
check_music p l =
    veto
      ((p.wants_lyrics && denied l.supports_lyrics)
        || ((p.wants_continuation_audio && denied l.supports_continuation_audio)
            || (p.wants_reference_image && denied l.supports_reference_image)))
      (hit p.wants_lyrics
        + hit p.wants_reference_audio
        + hit p.wants_continuation_audio
        + hit p.wants_reference_image)

unfoldable pub check_rate : Check
check_rate p l = elim p.sample_rate_hz [
  | none ↦ some 0
  | some r ↦
      if empty? l.supported_sample_rates
      then some 0
      else veto (not (contains l.supported_sample_rates r)) 1
]

-- The voice-clone branch, which looks at nothing else.
unfoldable pub check_clone : Check
check_clone p l =
    veto (not (granted l.supports_voice_cloning) || over p.input_audio_count l.max_voice_samples) 1
