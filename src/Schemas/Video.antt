-- ===== src/Schemas/Video.antt =====
-- mm_gateway/schemas/video.py: the video request.
use mm_gateway.Prelude.{ℕ, String, Bool, Option, none, some, List, [], ◌∷◌}
use mm_gateway.Schemas.{Text, joined}

pub data ImageRole : Type 0 where
  first_frame last_frame reference_image : ImageRole

pub data VideoContentPart : Type 0 where
  text_part : Text → VideoContentPart
  image_part : Text → ImageRole → VideoContentPart
  video_part : Text → VideoContentPart
  audio_part : Text → VideoContentPart
  draft_part : Text → VideoContentPart

-- Durations are whole milliseconds.
pub record UnifiedVideoRequest : Type 0 where
  pub model : String
  pub content : List VideoContentPart
  pub duration_ms : Option ℕ
  pub ratio : Option String
  pub resolution : Option Text
  pub size : Option Text
  pub width : Option ℕ
  pub height : Option ℕ
  pub fps : Option ℕ
  pub generate_audio : Option Bool

abbrev pub texts : List VideoContentPart → List Text
texts [] = []
texts (text_part t ∷ ps) = t ∷ texts ps
texts (_ ∷ ps) = texts ps

abbrev pub prompt : UnifiedVideoRequest → Option Text
prompt r = joined (texts r.content)

abbrev pub or_this : Option Text → Text → Option Text
or_this none u = some u
or_this (some t) u = some t

-- The loop of `first_image`, with its `fallback`.
unfoldable pub first_from : Option Text → List VideoContentPart → Option Text
first_from fallback [] = fallback
first_from fallback (image_part u first_frame ∷ ps) = some u
first_from fallback (image_part u last_frame ∷ ps) = first_from (or_this fallback u) ps
first_from fallback (image_part u reference_image ∷ ps) = first_from (or_this fallback u) ps
first_from fallback (text_part t ∷ ps) = first_from fallback ps
first_from fallback (video_part u ∷ ps) = first_from fallback ps
first_from fallback (audio_part u ∷ ps) = first_from fallback ps
first_from fallback (draft_part d ∷ ps) = first_from fallback ps

abbrev pub first_image : UnifiedVideoRequest → Option Text
first_image r = first_from none r.content

abbrev pub last_in : List VideoContentPart → Option Text
last_in [] = none
last_in (image_part u last_frame ∷ ps) = some u
last_in (_ ∷ ps) = last_in ps

abbrev pub last_image : UnifiedVideoRequest → Option Text
last_image r = last_in r.content

abbrev pub references_in : List VideoContentPart → List Text
references_in [] = []
references_in (image_part u reference_image ∷ ps) = u ∷ references_in ps
references_in (_ ∷ ps) = references_in ps

abbrev pub reference_images : UnifiedVideoRequest → List Text
reference_images r = references_in r.content

abbrev pub videos_in : List VideoContentPart → List Text
videos_in [] = []
videos_in (video_part u ∷ ps) = u ∷ videos_in ps
videos_in (_ ∷ ps) = videos_in ps

abbrev pub reference_videos : UnifiedVideoRequest → List Text
reference_videos r = videos_in r.content

abbrev pub audios_in : List VideoContentPart → List Text
audios_in [] = []
audios_in (audio_part u ∷ ps) = u ∷ audios_in ps
audios_in (_ ∷ ps) = audios_in ps

abbrev pub reference_audios : UnifiedVideoRequest → List Text
reference_audios r = audios_in r.content

-- The parts of type "image_url", of whatever role.
abbrev pub images : List VideoContentPart → List Text
images [] = []
images (image_part u role ∷ ps) = u ∷ images ps
images (_ ∷ ps) = images ps
