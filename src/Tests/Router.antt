-- ===== src/Tests/Router.antt =====
-- Requests against documented limits.
use mathlib.Core.List.{Mem}
use mm_gateway.Prelude.{◌≡◌, ◌↔◌, refl, true, false, none, some, List, [], ◌∷◌, nat_eq, string_eq}
use mm_gateway.Prelude.Sort.{sort_by, insert_by, lt_key}
use mm_gateway.Models.Limits.{ModelLimits, permissive}
use mm_gateway.Router.{RequestProfile, Score, fits, best}
use mm_gateway.Router.Constraints.{Admits}
use mm_gateway.Router.Fits.{fits_iff}
use mm_gateway.Router.Best.{IsNoLater, best_is_best}

abbrev pub clip : RequestProfile
clip = record {
  modality = "video";
  input_modalities = "text" ∷ "image" ∷ [];
  prompt_chars = 3;
  wants_image_input = true;
  wants_first_frame = true;
  wants_last_frame = false;
  wants_reference_video = false;
  wants_reference_audio = false;
  wants_continuation_audio = false;
  wants_reference_image = false;
  wants_lyrics = false;
  wants_audio_output = false;
  input_image_count = 1;
  output_count = none;
  width = some 1280;
  height = some 720;
  aspect_ratio = none;
  resolution = none;
  duration_ms = some 6000;
  fps = none;
  sample_rate_hz = none;
  wants_voice_clone = false;
  input_audio_count = 0;
  file_format = none;
  speed = none;
  wants_instructions = false;
}

abbrev short_only : ModelLimits
short_only = record (permissive "video") { max_duration_ms = some 5000 }

fits_iff_example : ((fits clip short_only).0 ≡ true) ↔ Admits clip short_only
fits_iff_example = fits_iff clip short_only refl

abbrev plain : Score
plain = record { fits = true; optional_hits = 0; backend_index = 0; model_index = 0 }

abbrev richer : Score
richer = record { fits = true; optional_hits = 2; backend_index = 1; model_index = 3 }

abbrev scores : List Score
scores = plain ∷ richer ∷ record plain { fits = false } ∷ []

best_is_best_example :
    Mem richer scores
    × (richer.fits ≡ true)
    × ((t : Score) → Mem t scores → t.fits ≡ true → IsNoLater richer t)
best_is_best_example = best_is_best scores richer (unfold best sort_by insert_by lt_key in refl)
