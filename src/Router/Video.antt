-- ===== src/Router/Video.antt =====
-- A public video request and the models it fits: mm_gateway/translators/rest.py, then the profile and the
-- limits of mm_gateway/router.py.
use mm_gateway.Prelude.{
  ◌≡◌, ◌≢◌, inl, inr, refl, ◌∙◌, true, false, none, some, map, arith, any, string_eq, subst, ◌++◌,
  Bool-cases,
}
use mm_gateway.Models.Limits.{ModelLimits}
use mm_gateway.Schemas.{given, given-joined}
use mm_gateway.Schemas.Video
use mm_gateway.Schemas.Video.{ImageRole, first_frame, last_frame, reference_image}
use mm_gateway.Schemas.Rest.{VideoRequest}
use mm_gateway.Translators.{from_video_request, video_content, width_of, height_of}
use mm_gateway.Router.{RequestProfile, fits, explicit_side}
use mm_gateway.Router.Constraints.{Admits, AtMost, AtLeast, Supports}
use mm_gateway.Router.Fits.{fits_iff}
use mm_gateway.Router.Profile.{profile_for, video_profile, video_request, add_if}
use mm_gateway.Translators.VideoParts.{
  is_spoken, is_image, is_first, is_last, is_reference, is_video, is_audio, count_images,
  first_from-map, last_in-map, references_in-map, videos_in-map, audios_in-map, images-map,
  texts-map, any_image-of_first,
}
use mm_gateway.Router.Needs.{Takes, Covered, Covered-add_if, Takes-of_Covered, AtMost-larger}
use mm_gateway.Router.Profile.Sides.{with_size}

-- What a model does for a request: whatever the request has or asks for, the model does not deny it.
pub record ServesVideo (body : VideoRequest) (l : ModelLimits) : Type 0 where
  pub texts : any is_spoken body.input ≡ true → Takes l "text"
  pub images : any is_image body.input ≡ true → Takes l "image"
  pub videos : any is_video body.input ≡ true → Takes l "video"
  pub audios : any is_audio body.input ≡ true → Takes l "audio"
  pub first_frames : Supports (any is_first body.input) l.supports_first_frame
  pub last_frames : Supports (any is_last body.input) l.supports_last_frame
  pub reference_images : Supports (any is_reference body.input) l.supports_reference_image
  pub reference_videos : Supports (any is_video body.input) l.supports_reference_video
  pub reference_audios : Supports (any is_audio body.input) l.supports_reference_audio
  pub image_count :
      any is_image body.input ≡ true → AtMost (some (count_images body.input)) l.max_input_images
  pub sound : body.parameters.include_audio ≡ some true → l.supports_audio_output ≢ some false
  pub short_enough : AtMost body.parameters.duration_ms l.max_duration_ms
  pub long_enough : AtLeast body.parameters.duration_ms l.min_duration_ms
  pub slow_enough : AtMost body.parameters.fps l.max_fps
  pub width : AtMost (width_of body.parameters.dimensions) l.max_output_longest_side
  pub height : AtMost (height_of body.parameters.dimensions) l.max_output_longest_side

abbrev pub public_profile : VideoRequest → RequestProfile
public_profile body = profile_for (video_request (from_video_request body))

module _ (body : VideoRequest) where
  wants_first : (public_profile body).wants_first_frame ≡ any is_image body.input
  unfolding profile_for video_profile from_video_request
  wants_first = first_from-map none body.input

  wants_last : (public_profile body).wants_last_frame ≡ any is_last body.input
  unfolding profile_for video_profile from_video_request
  wants_last = last_in-map body.input

  wants_reference : (public_profile body).wants_reference_image ≡ any is_reference body.input
  unfolding profile_for video_profile from_video_request
  wants_reference = references_in-map body.input

  wants_video : (public_profile body).wants_reference_video ≡ any is_video body.input
  unfolding profile_for video_profile from_video_request
  wants_video = videos_in-map body.input

  wants_audio : (public_profile body).wants_reference_audio ≡ any is_audio body.input
  unfolding profile_for video_profile from_video_request
  wants_audio = audios_in-map body.input

  counts_images : (public_profile body).input_image_count ≡ count_images body.input
  unfolding profile_for video_profile from_video_request
  counts_images = images-map body.input

  wants_image : any is_image body.input ≡ true → (public_profile body).wants_image_input ≡ true
  unfolding profile_for video_profile from_video_request
  wants_image h = ground (arith, first_from-map none body.input)

  wants_text :
      any is_spoken body.input ≡ true → given (Video.prompt (from_video_request body)) ≡ true
  unfolding from_video_request
  wants_text h =
      given-joined (Video.texts (map video_content body.input)) (texts-map body.input ∙ h)

  modalities_of :
      (public_profile body).input_modalities
      ≡ add_if (given (Video.prompt (from_video_request body))) "text"
        ++ (add_if (public_profile body).wants_image_input "image"
            ++ (add_if (public_profile body).wants_reference_video "video"
                ++ add_if (public_profile body).wants_reference_audio "audio"))
  unfolding profile_for video_profile
  modalities_of = refl

  wants_sound :
      body.parameters.include_audio ≡ some true → (public_profile body).wants_audio_output ≡ true
  unfolding profile_for video_profile from_video_request
  wants_sound h = rw h refl

  takes :
      (l : ModelLimits)
      → Covered l (public_profile body).input_modalities
      → (any is_spoken body.input ≡ true → Takes l "text")
        × (any is_image body.input ≡ true → Takes l "image")
        × (any is_video body.input ≡ true → Takes l "video")
        × (any is_audio body.input ≡ true → Takes l "audio")
  takes l c =
      let (text, after) = Covered-add_if l _ "text" _ (subst (Covered l) modalities_of c) in
      let (image, later) = Covered-add_if l _ "image" _ after in
      let (video, last) = Covered-add_if l _ "video" _ later in
      (
        λ h. text (wants_text h),
        λ h. image (wants_image h),
        λ h. video (wants_video ∙ h),
        λ h. Takes-of_Covered l _ "audio" last (wants_audio ∙ h),
      )

  sides :
      (l : ModelLimits)
      → AtMost (explicit_side (public_profile body)) l.max_output_longest_side
      → AtMost (width_of body.parameters.dimensions) l.max_output_longest_side
        × AtMost (height_of body.parameters.dimensions) l.max_output_longest_side
  unfolding explicit_side profile_for video_profile from_video_request with_size
  sides l h = AtMost-larger _ _ _ h

  pub Admits-ServesVideo : (l : ModelLimits) → Admits (public_profile body) l → ServesVideo body l
  Admits-ServesVideo l a = record {
    texts = (takes l a.modalities).0;
    images = (takes l a.modalities).1;
    videos = (takes l a.modalities).2;
    audios = (takes l a.modalities).3;
    first_frames = λ h. a.first_frame (wants_first ∙ any_image-of_first body.input h);
    last_frames = λ h. a.last_frame (wants_last ∙ h);
    reference_images = λ h. a.reference_image (wants_reference ∙ h);
    reference_videos = λ h. a.reference_video (wants_video ∙ h);
    reference_audios = λ h. a.reference_audio (wants_audio ∙ h);
    image_count = λ h.
        subst (λ n. AtMost (some n) l.max_input_images) counts_images (a.images (wants_image h));
    sound = λ h. a.sound (wants_sound h);
    short_enough = unfold profile_for video_profile from_video_request in a.short_enough;
    long_enough = unfold profile_for video_profile from_video_request in a.long_enough;
    slow_enough = unfold profile_for video_profile from_video_request in a.fps;
    width = (sides l a.side).0;
    height = (sides l a.side).1;
  }

  media : (public_profile body).wants_voice_clone ≡ false
  unfolding profile_for video_profile
  media = refl

  -- X
  pub fits-ServesVideo :
      (l : ModelLimits) → (fits (public_profile body) l).0 ≡ true → ServesVideo body l
  fits-ServesVideo l h = Admits-ServesVideo l ((fits_iff (public_profile body) l media).0 h)

  -- A model that is documented without first frames fits no public video request with an image,
  -- whatever the image's role: a reference image or a last frame is taken for a first frame.
  pub no_first_frame_no_image :
      (l : ModelLimits)
      → l.supports_first_frame ≡ some false
      → any is_image body.input ≡ true
      → (fits (public_profile body) l).0 ≡ false
  no_first_frame_no_image l denied image = elim (Bool-cases (fits (public_profile body) l).0) [
    | inl h ↦
        absurd
          (((fits_iff (public_profile body) l media).0 h).first_frame (wants_first ∙ image) denied)
    | inr h ↦ h
  ]
