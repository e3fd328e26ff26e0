-- ===== src/Router/Constraints.antt =====
-- The documented constraints of a model, stated as a predicate, and each check of `_fits` against it.
use mm_gateway.Prelude.{
  ℕ, ◌+◌, ◌*◌, ◌≤◌, ◌≡◌, ◌≢◌, ◌↔◌, ◌⊎◌, inl, inr, refl, Bool, true, false, Option, none, some, List,
  [], ◌∷◌, arith, contains, is_some, All, nat_eq, string_eq, Option-cases,
}
use mm_gateway.Models.Limits.{ModelLimits}
use mm_gateway.Router.{
  RequestProfile, Check, run_checks, explicit_side, check_format, check_speed, check_modalities,
  check_prompt, check_image, check_count, check_duration, check_fps, check_side, check_ratio,
  check_frames, check_sound, check_music, check_rate, subset,
}

-- An undocumented limit (`none`, an empty list) is no constraint, nor is a control that is not asked for.
abbrev pub AtMost : Option ℕ → Option ℕ → Type 0
AtMost none limit = Unit
AtMost (some v) none = Unit
AtMost (some v) (some m) = v ≤ m

abbrev pub AtLeast : Option ℕ → Option ℕ → Type 0
AtLeast none limit = Unit
AtLeast (some v) none = Unit
AtLeast (some v) (some m) = m ≤ v

-- Four characters a token.
abbrev pub AtMostTokens : ℕ → Option ℕ → Type 0
AtMostTokens chars none = Unit
AtMostTokens chars (some t) = chars ≤ t * 4

-- A role that is asked for is not documented as unsupported.
abbrev pub Supports : Bool → Option Bool → Type 0
Supports wanted flag = wanted ≡ true → flag ≢ some false

module _ {A : Type 0} where
  abbrev pub Listed : (List A → A → Bool) → Option A → List A → Type 0
  Listed has none xs = Unit
  Listed has (some x) xs = (xs ≡ []) ⊎ (has xs x ≡ true)

pub record Admits (p : RequestProfile) (l : ModelLimits) : Type 0 where
  pub format : Listed contains p.file_format l.supported_file_formats
  pub instructions : Supports p.wants_instructions l.supports_instructions
  pub slow_enough : AtMost p.speed l.max_speed
  pub fast_enough : AtLeast p.speed l.min_speed
  pub modalities : (l.input_modalities ≡ []) ⊎ (subset p.input_modalities l.input_modalities ≡ true)
  pub prompt : AtMost (some p.prompt_chars) l.max_prompt_chars
  pub tokens : AtMostTokens p.prompt_chars l.max_prompt_tokens
  pub image : Supports p.wants_image_input l.supports_image_to_image
  pub images : p.wants_image_input ≡ true → AtMost (some p.input_image_count) l.max_input_images
  pub count : AtMost p.output_count l.max_output_count
  pub short_enough : AtMost p.duration_ms l.max_duration_ms
  pub long_enough : AtLeast p.duration_ms l.min_duration_ms
  pub fps : AtMost p.fps l.max_fps
  pub side : AtMost (explicit_side p) l.max_output_longest_side
  pub ratio : Listed contains p.aspect_ratio l.aspect_ratios
  pub first_frame : Supports p.wants_first_frame l.supports_first_frame
  pub last_frame : Supports p.wants_last_frame l.supports_last_frame
  pub reference_video : Supports p.wants_reference_video l.supports_reference_video
  pub reference_audio : Supports p.wants_reference_audio l.supports_reference_audio
  pub sound : Supports p.wants_audio_output l.supports_audio_output
  pub lyrics : Supports p.wants_lyrics l.supports_lyrics
  pub continuation : Supports p.wants_continuation_audio l.supports_continuation_audio
  pub reference_image : Supports p.wants_reference_image l.supports_reference_image
  pub sample_rate : Listed contains p.sample_rate_hz l.supported_sample_rates

abbrev pub Passes : RequestProfile → ModelLimits → Check → Type 0
Passes p l c = is_some (c p l) ≡ true

pub run_checks_sound :
    (cs : List Check) (p : RequestProfile) (l : ModelLimits) (n : ℕ)
    → is_some (run_checks cs p l n) ≡ true
    → All (Passes p l) cs
run_checks_sound [] p l n h = tt
run_checks_sound (c ∷ cs) p l n h = elim (Option-cases (c p l)) [
  | inl e ↦ absurd (ground arith)
  | inr (k, e) ↦ (ground arith, run_checks_sound cs p l (n + k) (ground arith))
]

pub run_checks_complete :
    (cs : List Check) (p : RequestProfile) (l : ModelLimits) (n : ℕ)
    → All (Passes p l) cs
    → is_some (run_checks cs p l n) ≡ true
run_checks_complete [] p l n h = refl
run_checks_complete (c ∷ cs) p l n h = elim (Option-cases (c p l)) [
  | inl e ↦ absurd (ground arith)
  | inr (k, e) ↦ ground (arith, run_checks_complete cs p l (n + k) h.1)
]

module _ (p : RequestProfile) (l : ModelLimits) where
  pub format_iff : Passes p l check_format ↔ (
      Listed contains p.file_format l.supported_file_formats
      × Supports p.wants_instructions l.supports_instructions)
  unfolding check_format
  format_iff = ground arith

  pub speed_iff :
      Passes p l check_speed ↔ (AtMost p.speed l.max_speed × AtLeast p.speed l.min_speed)
  unfolding check_speed
  speed_iff = ground arith

  pub modalities_iff :
      Passes p l check_modalities
      ↔ ((l.input_modalities ≡ []) ⊎ (subset p.input_modalities l.input_modalities ≡ true))
  unfolding check_modalities
  modalities_iff = ground arith

  pub prompt_iff : Passes p l check_prompt ↔ (
      AtMost (some p.prompt_chars) l.max_prompt_chars
      × AtMostTokens p.prompt_chars l.max_prompt_tokens)
  unfolding check_prompt
  prompt_iff = ground arith

  pub image_iff : Passes p l check_image ↔ (
      Supports p.wants_image_input l.supports_image_to_image
      × (p.wants_image_input ≡ true → AtMost (some p.input_image_count) l.max_input_images))
  unfolding check_image
  image_iff = ground arith

  pub count_iff : Passes p l check_count ↔ AtMost p.output_count l.max_output_count
  unfolding check_count
  count_iff = ground arith

  pub duration_iff :
      Passes p l check_duration
      ↔ (AtMost p.duration_ms l.max_duration_ms × AtLeast p.duration_ms l.min_duration_ms)
  unfolding check_duration
  duration_iff = ground arith

  pub fps_iff : Passes p l check_fps ↔ AtMost p.fps l.max_fps
  unfolding check_fps
  fps_iff = ground arith

  pub side_iff : Passes p l check_side ↔ AtMost (explicit_side p) l.max_output_longest_side
  unfolding check_side
  side_iff = ground arith

  pub ratio_iff : Passes p l check_ratio ↔ Listed contains p.aspect_ratio l.aspect_ratios
  unfolding check_ratio
  ratio_iff = ground arith

  pub frames_iff : Passes p l check_frames ↔ (
      Supports p.wants_first_frame l.supports_first_frame
      × Supports p.wants_last_frame l.supports_last_frame
      × Supports p.wants_reference_video l.supports_reference_video
      × Supports p.wants_reference_audio l.supports_reference_audio)
  unfolding check_frames
  frames_iff = ground arith

  pub sound_iff : Passes p l check_sound ↔ Supports p.wants_audio_output l.supports_audio_output
  unfolding check_sound
  sound_iff = ground arith

  pub music_iff : Passes p l check_music ↔ (
      Supports p.wants_lyrics l.supports_lyrics
      × Supports p.wants_continuation_audio l.supports_continuation_audio
      × Supports p.wants_reference_image l.supports_reference_image)
  unfolding check_music
  music_iff = ground arith

  pub rate_iff : Passes p l check_rate ↔ Listed contains p.sample_rate_hz l.supported_sample_rates
  unfolding check_rate
  rate_iff = ground arith
