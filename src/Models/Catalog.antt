-- ===== src/Models/Catalog.antt =====
-- mm_gateway/models/catalog.py: the built-in limits and prices with the operator's overrides. The built-in
-- tables are data, and so are arguments here.
use mm_gateway.Prelude.{
  ℕ, String, Bool, false, ◌≡◌, refl, ◌∙◌, eq_iff, Bool-cases, Option-cases, inl, inr, Option, none,
  some, List, [], ◌∷◌, ◌==◌, string_eq, not, ◌&&◌, if◌then◌else◌,
}
use mm_gateway.Prelude.Dict
use mm_gateway.Prelude.Dict.{Dict}
use mm_gateway.Models.Limits.{ModelLimits, Lifecycle, Date, lifecycle, permissive}
use mm_gateway.Models.Pricing.{ModelPrice}

-- One member of `ModelOverride.fields`.
pub data LimitField : Type 0 where
  deprecated_on_field retired_on_field : Date → LimitField
  replacement_field : Option String → LimitField
  audio_output_field reference_audio_field reference_image_field reference_video_field :
      Option Bool → LimitField
  first_frame_field last_frame_field voice_cloning_field instructions_field :
      Option Bool → LimitField
  min_duration_field max_duration_field max_input_images_field max_fps_field : Option ℕ → LimitField
  max_voice_samples_field max_prompt_chars_field min_speed_field max_speed_field :
      Option ℕ → LimitField
  upscale_field frame_interpolation_field segmentation_field performance_field :
      Option Bool → LimitField
  exclusive_frames_field negative_prompt_field : Option Bool → LimitField
  max_shots_field : Option ℕ → LimitField
  notes_field : String → LimitField

pub record ModelOverride : Type 0 where
  pub modality : Option String
  pub fields : List LimitField
  pub price : Option ModelPrice

pub record Catalog : Type 0 where
  pub overrides : Dict String ModelOverride
  pub builtin_limits : Dict String ModelLimits
  pub builtin_prices : Dict String ModelPrice
  pub today : Date

abbrev pub replace_field : LimitField → ModelLimits → ModelLimits
replace_field (deprecated_on_field d) l = record l { deprecated_on = some d }
replace_field (retired_on_field d) l = record l { retired_on = some d }
replace_field (replacement_field v) l = record l { replacement = v }
replace_field (audio_output_field v) l = record l { supports_audio_output = v }
replace_field (reference_audio_field v) l = record l { supports_reference_audio = v }
replace_field (reference_image_field v) l = record l { supports_reference_image = v }
replace_field (reference_video_field v) l = record l { supports_reference_video = v }
replace_field (first_frame_field v) l = record l { supports_first_frame = v }
replace_field (last_frame_field v) l = record l { supports_last_frame = v }
replace_field (voice_cloning_field v) l = record l { supports_voice_cloning = v }
replace_field (instructions_field v) l = record l { supports_instructions = v }
replace_field (min_duration_field v) l = record l { min_duration_ms = v }
replace_field (max_duration_field v) l = record l { max_duration_ms = v }
replace_field (max_input_images_field v) l = record l { max_input_images = v }
replace_field (max_fps_field v) l = record l { max_fps = v }
replace_field (max_voice_samples_field v) l = record l { max_voice_samples = v }
replace_field (max_prompt_chars_field v) l = record l { max_prompt_chars = v }
replace_field (min_speed_field v) l = record l { min_speed = v }
replace_field (max_speed_field v) l = record l { max_speed = v }
replace_field (upscale_field v) l = record l { supports_upscale = v }
replace_field (frame_interpolation_field v) l = record l { supports_frame_interpolation = v }
replace_field (segmentation_field v) l = record l { supports_segmentation = v }
replace_field (performance_field v) l = record l { supports_performance = v }
replace_field (exclusive_frames_field v) l = record l { exclusive_frames_and_references = v }
replace_field (negative_prompt_field v) l = record l { supports_negative_prompt = v }
replace_field (max_shots_field v) l = record l { max_shots = v }
replace_field (notes_field v) l = record l { notes = v }

abbrev pub replace : List LimitField → ModelLimits → ModelLimits
replace [] l = l
replace (f ∷ fs) l = replace fs (replace_field f l)

-- `limits_for` of limits.py
unfoldable pub builtin_for : String → String → Catalog → ModelLimits
builtin_for model modality c = elim (Dict.get model c.builtin_limits) [
  | none ↦ permissive modality
  | some entry ↦ if not (entry.modality == modality) then permissive modality else entry
]

-- override.modality and override.modality != modality
abbrev pub applies_elsewhere : Option String → String → Bool
applies_elsewhere none modality = false
applies_elsewhere (some m) modality = not (m == "") && not (m == modality)

unfoldable pub limits_for : String → String → Catalog → ModelLimits
unfolding builtin_for
limits_for model modality c = elim (Dict.get model c.overrides) [
  | none ↦ builtin_for model modality c
  | some o ↦
      if applies_elsewhere o.modality modality
      then builtin_for model modality c
      else replace o.fields (builtin_for model modality c)
]

unfoldable pub price_for : String → Catalog → Option ModelPrice
price_for model c = elim (Dict.get model c.overrides) [
  | none ↦ Dict.get model c.builtin_prices
  | some o ↦ elim o.price [ none ↦ Dict.get model c.builtin_prices | some p ↦ some p ]
]

unfoldable pub model_lifecycle : String → String → Catalog → Lifecycle
unfolding limits_for
model_lifecycle model modality c = lifecycle (limits_for model modality c) c.today

replace_field_modality :
    (f : LimitField) (l : ModelLimits) → (replace_field f l).modality ≡ l.modality
replace_field_modality (deprecated_on_field v) l = refl
replace_field_modality (retired_on_field v) l = refl
replace_field_modality (replacement_field v) l = refl
replace_field_modality (audio_output_field v) l = refl
replace_field_modality (reference_audio_field v) l = refl
replace_field_modality (reference_image_field v) l = refl
replace_field_modality (reference_video_field v) l = refl
replace_field_modality (first_frame_field v) l = refl
replace_field_modality (last_frame_field v) l = refl
replace_field_modality (voice_cloning_field v) l = refl
replace_field_modality (instructions_field v) l = refl
replace_field_modality (min_duration_field v) l = refl
replace_field_modality (max_duration_field v) l = refl
replace_field_modality (max_input_images_field v) l = refl
replace_field_modality (max_fps_field v) l = refl
replace_field_modality (max_voice_samples_field v) l = refl
replace_field_modality (max_prompt_chars_field v) l = refl
replace_field_modality (min_speed_field v) l = refl
replace_field_modality (max_speed_field v) l = refl
replace_field_modality (upscale_field v) l = refl
replace_field_modality (frame_interpolation_field v) l = refl
replace_field_modality (segmentation_field v) l = refl
replace_field_modality (performance_field v) l = refl
replace_field_modality (exclusive_frames_field v) l = refl
replace_field_modality (negative_prompt_field v) l = refl
replace_field_modality (max_shots_field v) l = refl
replace_field_modality (notes_field v) l = refl

replace_modality : (fs : List LimitField) (l : ModelLimits) → (replace fs l).modality ≡ l.modality
replace_modality [] l = refl
replace_modality (f ∷ fs) l = replace_modality fs (replace_field f l) ∙ replace_field_modality f l

builtin_for_modality :
    (model modality : String) (c : Catalog) → (builtin_for model modality c).modality ≡ modality
unfolding builtin_for
builtin_for_modality model modality c = elim (Option-cases (Dict.get model c.builtin_limits)) [
  | inl gone ↦ rw (gone, builtin_for) refl
  | inr (entry, at) ↦
      rw (at, builtin_for)
        (elim (Bool-cases (entry.modality == modality)) [
          | inl same ↦ rw same ((eq_iff entry.modality modality).0 same)
          | inr other ↦ rw other refl
        ])
]

-- Whatever the built-in table and the operator's overrides say, the limits found for a modality are
-- limits of that modality.
pub limits_for_modality :
    (model modality : String) (c : Catalog) → (limits_for model modality c).modality ≡ modality
unfolding limits_for
limits_for_modality model modality c = elim (Option-cases (Dict.get model c.overrides)) [
  | inl gone ↦ rw (gone, limits_for) (builtin_for_modality model modality c)
  | inr (o, at) ↦
      rw (at, limits_for)
        (elim (Bool-cases (applies_elsewhere o.modality modality)) [
          | inl elsewhere ↦ rw elsewhere (builtin_for_modality model modality c)
          | inr here ↦ rw here (
              replace_modality o.fields (builtin_for model modality c)
              ∙ builtin_for_modality model modality c)
        ])
]
