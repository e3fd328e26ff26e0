-- ===== src/Models/Limits.antt =====
-- mm_gateway/models/limits.py: a model's documented limits and its lifecycle. Durations are whole
-- milliseconds and speeds whole thousandths.
use mm_gateway.Prelude.{
  ℕ, ◌≤◌, String, ◌≡◌, Bool, true, false, ◌&&◌, ◌||◌, Option, none, some, List, [], arith, ltb, leb,
  if◌then◌else◌,
}

pub record ModelLimits : Type 0 where
  pub modality : String
  pub input_modalities : List String
  pub max_prompt_chars : Option ℕ
  pub max_prompt_tokens : Option ℕ
  pub max_input_images : Option ℕ
  pub max_output_count : Option ℕ
  pub max_duration_ms : Option ℕ
  pub min_duration_ms : Option ℕ
  pub max_fps : Option ℕ
  pub aspect_ratios : List String
  pub supported_sizes : List String
  pub max_output_longest_side : Option ℕ
  pub supports_image_to_image : Option Bool
  pub supports_first_frame : Option Bool
  pub supports_last_frame : Option Bool
  pub supports_reference_video : Option Bool
  pub supports_reference_audio : Option Bool
  pub supports_continuation_audio : Option Bool
  pub supports_lyrics : Option Bool
  pub supports_reference_image : Option Bool
  pub supported_sample_rates : List ℕ
  pub supports_audio_output : Option Bool
  pub max_shots : Option ℕ
  pub supports_upscale : Option Bool
  pub supports_frame_interpolation : Option Bool
  pub supports_segmentation : Option Bool
  pub supports_performance : Option Bool
  pub exclusive_frames_and_references : Option Bool
  pub supports_negative_prompt : Option Bool
  pub supports_voice_cloning : Option Bool
  pub supports_instructions : Option Bool
  pub max_voice_samples : Option ℕ
  pub min_speed : Option ℕ
  pub max_speed : Option ℕ
  pub supported_file_formats : List String
  pub deprecated_on : Option (ℕ × ℕ × ℕ)
  pub retired_on : Option (ℕ × ℕ × ℕ)
  pub replacement : Option String
  pub notes : String
  pub source_urls : List String

-- The default of every field: nothing is documented, so nothing constrains routing.
abbrev pub permissive : String → ModelLimits
permissive modality = record {
  modality = modality;
  input_modalities = [];
  max_prompt_chars = none;
  max_prompt_tokens = none;
  max_input_images = none;
  max_output_count = none;
  max_duration_ms = none;
  min_duration_ms = none;
  max_fps = none;
  aspect_ratios = [];
  supported_sizes = [];
  max_output_longest_side = none;
  supports_image_to_image = none;
  supports_first_frame = none;
  supports_last_frame = none;
  supports_reference_video = none;
  supports_reference_audio = none;
  supports_continuation_audio = none;
  supports_lyrics = none;
  supports_reference_image = none;
  supported_sample_rates = [];
  supports_audio_output = none;
  max_shots = none;
  supports_upscale = none;
  supports_frame_interpolation = none;
  supports_segmentation = none;
  supports_performance = none;
  exclusive_frames_and_references = none;
  supports_negative_prompt = none;
  supports_voice_cloning = none;
  supports_instructions = none;
  max_voice_samples = none;
  min_speed = none;
  max_speed = none;
  supported_file_formats = [];
  deprecated_on = none;
  retired_on = none;
  replacement = none;
  notes = "";
  source_urls = [];
}

pub data Lifecycle : Type 0 where
  active deprecated retired : Lifecycle

-- (year, month, day)
abbrev pub Date : Type 0
Date = ℕ × ℕ × ℕ

-- day >= other, on dates
unfoldable pub since : Date → Date → Bool
since (y, m, d) (y', m', d') = ltb y' y || (leb y' y && (ltb m' m || (leb m' m && leb d' d)))

abbrev pub reached : Date → Option Date → Bool
reached today none = false
reached today (some day) = since today day

unfoldable pub lifecycle : ModelLimits → Date → Lifecycle
lifecycle limits today =
    if reached today limits.retired_on
    then retired
    else if reached today limits.deprecated_on
    then deprecated
    else active

pub since_trans : (a b c : Date) → since b a ≡ true → since c b ≡ true → since c a ≡ true
unfolding since
since_trans (y, m, d) (y', m', d') (y'', m'', d'') h k = ground arith

-- How far a model's life has gone.
abbrev pub stage : Lifecycle → ℕ
stage active = 0
stage deprecated = 1
stage retired = 2

reached_later :
    (day later : Date) (o : Option Date)
    → since later day ≡ true
    → reached day o ≡ true
    → reached later o ≡ true
reached_later day later none h k = k
reached_later day later (some d) h k = since_trans d day later k h

-- A model's life only moves forward: on a later day its stage is the same or a later one. In
-- particular a retired model never comes back.
lifecycle_forward :
    (limits : ModelLimits) (day later : Date)
    → since later day ≡ true
    → stage (lifecycle limits day) ≤ stage (lifecycle limits later)
unfolding lifecycle
lifecycle_forward limits day later h =
    ground (
      arith,
      reached_later day later limits.retired_on,
      reached_later day later limits.deprecated_on,
    )
