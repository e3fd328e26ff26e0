-- ===== src/Translators/VideoParts.antt =====
-- The parts of a public video request, and what the translated content tells of them.
use mm_gateway.Prelude.{
  ℕ, suc, ◌≡◌, refl, ap, Bool, true, false, ◌||◌, not, Option, List, [], ◌∷◌, map, arith, any,
  length, is_some,
}
use mm_gateway.Schemas.{Text, has_text, empty?}
use mm_gateway.Schemas.Video
use mm_gateway.Schemas.Video.{first_frame, last_frame, reference_image}
use mm_gateway.Schemas.Rest.{
  VideoInputPart, video_text, video_image_input, video_audio_input, video_input,
}
use mm_gateway.Translators.{video_content}

abbrev pub is_spoken : VideoInputPart → Bool
is_spoken (video_text t) = not (empty? t)
is_spoken _ = false

abbrev pub is_image : VideoInputPart → Bool
is_image (video_image_input u role) = true
is_image _ = false

abbrev pub is_first : VideoInputPart → Bool
is_first (video_image_input u first_frame) = true
is_first _ = false

abbrev pub is_last : VideoInputPart → Bool
is_last (video_image_input u last_frame) = true
is_last _ = false

abbrev pub is_reference : VideoInputPart → Bool
is_reference (video_image_input u reference_image) = true
is_reference _ = false

abbrev pub is_video : VideoInputPart → Bool
is_video (video_input u) = true
is_video _ = false

abbrev pub is_audio : VideoInputPart → Bool
is_audio (video_audio_input u) = true
is_audio _ = false

abbrev pub count_images : List VideoInputPart → ℕ
count_images [] = 0
count_images (video_image_input u role ∷ ps) = suc (count_images ps)
count_images (_ ∷ ps) = count_images ps

pub first_from-map :
    (f : Option Text) (ps : List VideoInputPart)
    → is_some (Video.first_from f (map video_content ps)) ≡ (is_some f || any is_image ps)
unfolding Video.first_from video_content
first_from-map f [] = ground arith
first_from-map f (video_text t ∷ ps) = first_from-map f ps
first_from-map f (video_image_input u first_frame ∷ ps) = ground arith
first_from-map f (video_image_input u last_frame ∷ ps) =
    ground (arith, first_from-map (Video.or_this f u) ps)
first_from-map f (video_image_input u reference_image ∷ ps) =
    ground (arith, first_from-map (Video.or_this f u) ps)
first_from-map f (video_audio_input u ∷ ps) = first_from-map f ps
first_from-map f (video_input u ∷ ps) = first_from-map f ps

pub last_in-map :
    (ps : List VideoInputPart) → is_some (Video.last_in (map video_content ps)) ≡ any is_last ps
unfolding video_content
last_in-map [] = refl
last_in-map (video_text t ∷ ps) = last_in-map ps
last_in-map (video_image_input u first_frame ∷ ps) = last_in-map ps
last_in-map (video_image_input u last_frame ∷ ps) = refl
last_in-map (video_image_input u reference_image ∷ ps) = last_in-map ps
last_in-map (video_audio_input u ∷ ps) = last_in-map ps
last_in-map (video_input u ∷ ps) = last_in-map ps

pub references_in-map :
    (ps : List VideoInputPart)
    → not (empty? (Video.references_in (map video_content ps))) ≡ any is_reference ps
unfolding video_content
references_in-map [] = refl
references_in-map (video_text t ∷ ps) = references_in-map ps
references_in-map (video_image_input u first_frame ∷ ps) = references_in-map ps
references_in-map (video_image_input u last_frame ∷ ps) = references_in-map ps
references_in-map (video_image_input u reference_image ∷ ps) = refl
references_in-map (video_audio_input u ∷ ps) = references_in-map ps
references_in-map (video_input u ∷ ps) = references_in-map ps

pub videos_in-map :
    (ps : List VideoInputPart)
    → not (empty? (Video.videos_in (map video_content ps))) ≡ any is_video ps
unfolding video_content
videos_in-map [] = refl
videos_in-map (video_text t ∷ ps) = videos_in-map ps
videos_in-map (video_image_input u role ∷ ps) = videos_in-map ps
videos_in-map (video_audio_input u ∷ ps) = videos_in-map ps
videos_in-map (video_input u ∷ ps) = refl

pub audios_in-map :
    (ps : List VideoInputPart)
    → not (empty? (Video.audios_in (map video_content ps))) ≡ any is_audio ps
unfolding video_content
audios_in-map [] = refl
audios_in-map (video_text t ∷ ps) = audios_in-map ps
audios_in-map (video_image_input u role ∷ ps) = audios_in-map ps
audios_in-map (video_audio_input u ∷ ps) = refl
audios_in-map (video_input u ∷ ps) = audios_in-map ps

pub images-map :
    (ps : List VideoInputPart) → length (Video.images (map video_content ps)) ≡ count_images ps
unfolding video_content
images-map [] = refl
images-map (video_text t ∷ ps) = images-map ps
images-map (video_image_input u role ∷ ps) = ap suc (images-map ps)
images-map (video_audio_input u ∷ ps) = images-map ps
images-map (video_input u ∷ ps) = images-map ps

pub texts-map :
    (ps : List VideoInputPart)
    → any has_text (Video.texts (map video_content ps)) ≡ any is_spoken ps
unfolding video_content
texts-map [] = refl
texts-map (video_text t ∷ ps) = ground (arith, texts-map ps)
texts-map (video_image_input u role ∷ ps) = texts-map ps
texts-map (video_audio_input u ∷ ps) = texts-map ps
texts-map (video_input u ∷ ps) = texts-map ps

pub any_image-of_first :
    (ps : List VideoInputPart) → any is_first ps ≡ true → any is_image ps ≡ true
any_image-of_first [] h = h
any_image-of_first (video_text t ∷ ps) h = any_image-of_first ps h
any_image-of_first (video_image_input u role ∷ ps) h = refl
any_image-of_first (video_audio_input u ∷ ps) h = any_image-of_first ps h
any_image-of_first (video_input u ∷ ps) h = any_image-of_first ps h
