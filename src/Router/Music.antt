-- ===== src/Router/Music.antt =====
-- A public music request and the models it fits: mm_gateway/translators/rest.py, then the profile and the
-- limits of mm_gateway/router.py.
use mm_gateway.Prelude.{◌≡◌, refl, ◌∙◌, true, false, any, subst, ◌++◌, ◌||◌}
use mm_gateway.Models.Limits.{ModelLimits}
use mm_gateway.Schemas.{given, given-joined, or_empty, joined}
use mm_gateway.Schemas.Music
use mm_gateway.Schemas.Music.{AudioRole, reference_audio, continuation_audio}
use mm_gateway.Schemas.Rest.{MusicRequest}
use mm_gateway.Translators.{from_music_request, music_content, lyrics_parts}
use mm_gateway.Translators.MusicParts.{
  is_spoken, is_lyrics, is_image, is_reference, continues, texts-map, lyrics-any, images-any,
  references-any, continuation-any, given-or_none, given-description,
}
use mm_gateway.Router.{RequestProfile, fits}
use mm_gateway.Router.Constraints.{Admits, AtMost, AtLeast, Supports}
use mm_gateway.Router.Fits.{fits_iff}
use mm_gateway.Router.Needs.{Takes, Covered, Covered-add_if, Takes-of_Covered}
use mm_gateway.Router.Profile.{profile_for, music_profile, music_request, add_if}

-- What a model does for a request: whatever the request has or asks for, the model does not deny it.
pub record ServesMusic (body : MusicRequest) (l : ModelLimits) : Type 0 where
  pub texts : any is_spoken body.input ≡ true → Takes l "text"
  pub images : any is_image body.input ≡ true → Takes l "image"
  pub audios : (any is_reference body.input || continues body.input) ≡ true → Takes l "audio"
  pub lyrics : Supports (any is_lyrics body.input) l.supports_lyrics
  pub reference_audios : Supports (any is_reference body.input) l.supports_reference_audio
  pub continuation : Supports (continues body.input) l.supports_continuation_audio
  pub reference_images : Supports (any is_image body.input) l.supports_reference_image
  pub output_count : AtMost body.parameters.output_count l.max_output_count
  pub short_enough : AtMost body.parameters.duration_ms l.max_duration_ms
  pub long_enough : AtLeast body.parameters.duration_ms l.min_duration_ms

abbrev pub public_profile : MusicRequest → RequestProfile
public_profile body = profile_for (music_request (from_music_request body))

module _ (body : MusicRequest) where
  wants_lyrics : any is_lyrics body.input ≡ true → (public_profile body).wants_lyrics ≡ true
  unfolding profile_for music_profile from_music_request
  wants_lyrics h = given-or_none (lyrics_parts body.input) (lyrics-any body.input ∙ h)

  wants_image : (public_profile body).wants_reference_image ≡ any is_image body.input
  unfolding profile_for music_profile from_music_request
  wants_image = images-any body.input

  wants_reference : (public_profile body).wants_reference_audio ≡ any is_reference body.input
  unfolding profile_for music_profile from_music_request
  wants_reference = references-any body.input

  wants_continuation : (public_profile body).wants_continuation_audio ≡ continues body.input
  unfolding profile_for music_profile from_music_request
  wants_continuation = continuation-any body.input

  wants_audio :
      (any is_reference body.input || continues body.input) ≡ true
      → ((public_profile body).wants_reference_audio
          || (public_profile body).wants_continuation_audio)
        ≡ true
  wants_audio h = rw (wants_reference, wants_continuation) h

  wants_text :
      any is_spoken body.input ≡ true
      → given (Music.generation_prompt (from_music_request body)) ≡ true
  unfolding from_music_request
  wants_text h =
      given-description (Music.labelled Music.title_label (or_empty body.parameters.title))
        (Music.labelled Music.style_label (or_empty body.parameters.style))
        (or_empty (joined (Music.texts (music_content body.input))))
        (given-joined (Music.texts (music_content body.input)) (texts-map body.input ∙ h))

  modalities_of :
      (public_profile body).input_modalities
      ≡ add_if (given (Music.generation_prompt (from_music_request body))) "text"
        ++ (add_if
              ((public_profile body).wants_reference_audio
                || (public_profile body).wants_continuation_audio)
              "audio"
            ++ add_if (public_profile body).wants_reference_image "image")
  unfolding profile_for music_profile
  modalities_of = refl

  takes :
      (l : ModelLimits)
      → Covered l (public_profile body).input_modalities
      → (any is_spoken body.input ≡ true → Takes l "text")
        × ((any is_reference body.input || continues body.input) ≡ true → Takes l "audio")
        × (any is_image body.input ≡ true → Takes l "image")
  takes l c =
      let (text, after) = Covered-add_if l _ "text" _ (subst (Covered l) modalities_of c) in
      let (audio, last) = Covered-add_if l _ "audio" _ after in
      (
        λ h. text (wants_text h),
        λ h. audio (wants_audio h),
        λ h. Takes-of_Covered l _ "image" last (wants_image ∙ h),
      )

  Admits-ServesMusic : (l : ModelLimits) → Admits (public_profile body) l → ServesMusic body l
  Admits-ServesMusic l a = record {
    texts = (takes l a.modalities).0;
    audios = (takes l a.modalities).1;
    images = (takes l a.modalities).2;
    lyrics = λ h. a.lyrics (wants_lyrics h);
    reference_audios = λ h. a.reference_audio (wants_reference ∙ h);
    continuation = λ h. a.continuation (wants_continuation ∙ h);
    reference_images = λ h. a.reference_image (wants_image ∙ h);
    output_count = unfold profile_for music_profile from_music_request in a.count;
    short_enough = unfold profile_for music_profile from_music_request in a.short_enough;
    long_enough = unfold profile_for music_profile from_music_request in a.long_enough;
  }

  media : (public_profile body).wants_voice_clone ≡ false
  unfolding profile_for music_profile
  media = refl

  -- If the profile of a public music request fits a model, the model's documented limits deny
  -- nothing that the body has or asks for: the modalities of its texts, images and recordings,
  -- lyrics, reference recordings, a recording to continue, reference images, the number of outputs
  -- and the duration.
  pub fits-ServesMusic :
      (l : ModelLimits) → (fits (public_profile body) l).0 ≡ true → ServesMusic body l
  fits-ServesMusic l h = Admits-ServesMusic l ((fits_iff (public_profile body) l media).0 h)
