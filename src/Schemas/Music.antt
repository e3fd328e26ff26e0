-- ===== src/Schemas/Music.antt =====
-- mm_gateway/schemas/music.py: the music request.
use mm_gateway.Prelude.{ℕ, String, Option, none, some, List, [], ◌∷◌, ◌++◌}
use mm_gateway.Schemas.{Text, joined, or_empty}

pub data AudioRole : Type 0 where
  reference_audio continuation_audio : AudioRole

pub data MusicContentPart : Type 0 where
  text_part : Text → MusicContentPart
  audio_part : Text → AudioRole → MusicContentPart
  image_part : Text → MusicContentPart

pub record UnifiedMusicRequest : Type 0 where
  pub model : String
  pub content : List MusicContentPart
  pub lyrics : Option Text
  pub title : Option Text
  pub style : Option Text
  pub duration_ms : Option ℕ
  pub sample_rate_hz : Option ℕ
  pub n : Option ℕ

abbrev pub texts : List MusicContentPart → List Text
texts [] = []
texts (text_part t ∷ ps) = t ∷ texts ps
texts (_ ∷ ps) = texts ps

abbrev pub prompt : UnifiedMusicRequest → Option Text
prompt r = joined (texts r.content)

-- f"{label}{text}", if there is a text that is not empty
abbrev pub labelled : Text → Text → List Text
labelled label [] = []
labelled label (c ∷ cs) = (label ++ (c ∷ cs)) ∷ []

-- "Title: "
abbrev pub title_label : Text
title_label = b'T' ∷ b'i' ∷ b't' ∷ b'l' ∷ b'e' ∷ b':' ∷ b' ' ∷ []

-- "Style: "
abbrev pub style_label : Text
style_label = b'S' ∷ b't' ∷ b'y' ∷ b'l' ∷ b'e' ∷ b':' ∷ b' ' ∷ []

abbrev pub generation_prompt : UnifiedMusicRequest → Option Text
generation_prompt r = joined (
    labelled title_label (or_empty r.title)
    ++ (labelled style_label (or_empty r.style) ++ labelled [] (or_empty (prompt r))))

abbrev pub audios_in : AudioRole → List MusicContentPart → List Text
audios_in role [] = []
audios_in reference_audio (audio_part u reference_audio ∷ ps) = u ∷ audios_in reference_audio ps
audios_in continuation_audio (audio_part u continuation_audio ∷ ps) =
    u ∷ audios_in continuation_audio ps
audios_in role (_ ∷ ps) = audios_in role ps

abbrev pub reference_audios : UnifiedMusicRequest → List Text
reference_audios r = audios_in reference_audio r.content

abbrev pub first_of : List Text → Option Text
first_of [] = none
first_of (u ∷ us) = some u

abbrev pub continuation_audio_of : UnifiedMusicRequest → Option Text
continuation_audio_of r = first_of (audios_in continuation_audio r.content)

abbrev pub images_in : List MusicContentPart → List Text
images_in [] = []
images_in (image_part u ∷ ps) = u ∷ images_in ps
images_in (_ ∷ ps) = images_in ps

abbrev pub reference_images : UnifiedMusicRequest → List Text
reference_images r = images_in r.content
