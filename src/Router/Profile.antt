-- ===== src/Router/Profile.antt =====
-- mm_gateway/router.py: the profile of a request (`profile_for` and its helper for each modality).
-- `int` reads ASCII digits, with the spaces, signs and underscores it allows around and between them.
-- A negative side of a `size` is taken as no side: no ceiling stops either.
pub mod Sides
use mm_gateway.Prelude.{
  ℕ, String, Bool, true, false, ◌||◌, not, Option, none, some, List, [], ◌∷◌, length, is_some, ◌==◌,
  string_eq, if◌then◌else◌, ◌++◌, nat_eq,
}
use mm_gateway.Router.Checks.{RequestProfile}
use mm_gateway.Router.Profile.Sides.{with_size}
use mm_gateway.Schemas.{Text, or_empty, empty?, given}
use mm_gateway.Schemas.Image
use mm_gateway.Schemas.Image.{UnifiedImageRequest}
use mm_gateway.Schemas.Video
use mm_gateway.Schemas.Video.{UnifiedVideoRequest}
use mm_gateway.Schemas.Music
use mm_gateway.Schemas.Music.{UnifiedMusicRequest}
use mm_gateway.Schemas.Audio.{UnifiedAudioRequest, UnifiedVoiceRequest}

pub data AnyRequest : Type 0 where
  voice_request : UnifiedVoiceRequest → AnyRequest
  audio_request : UnifiedAudioRequest → AnyRequest
  image_request : UnifiedImageRequest → AnyRequest
  video_request : UnifiedVideoRequest → AnyRequest
  music_request : UnifiedMusicRequest → AnyRequest

-- The defaults of `RequestProfile`.
abbrev pub blank : String → RequestProfile
blank modality = record {
  modality = modality;
  input_modalities = [];
  prompt_chars = 0;
  wants_image_input = false;
  wants_first_frame = false;
  wants_last_frame = false;
  wants_reference_video = false;
  wants_reference_audio = false;
  wants_continuation_audio = false;
  wants_reference_image = false;
  wants_lyrics = false;
  wants_audio_output = false;
  input_image_count = 0;
  output_count = none;
  width = none;
  height = none;
  aspect_ratio = none;
  resolution = none;
  duration_ms = none;
  fps = none;
  sample_rate_hz = none;
  wants_voice_clone = false;
  input_audio_count = 0;
  file_format = none;
  speed = none;
  wants_instructions = false;
}

-- A set of modalities, given by which of them are in it.
abbrev pub add_if : Bool → String → List String
add_if true name = name ∷ []
add_if false name = []

-- text or None
abbrev pub named : Option String → Option String
named none = none
named (some s) = if s == "" then none else some s

abbrev pub filled : Option Text → Option Text
filled none = none
filled (some []) = none
filled (some (c ∷ cs)) = some (c ∷ cs)

abbrev pub on : Option Bool → Bool
on none = false
on (some b) = b

unfoldable pub image_profile : UnifiedImageRequest → RequestProfile
unfolding with_size
image_profile r =
    let has_images = not (empty? (Image.input_images r)) in
    let (width, height) = with_size r.size r.width r.height in
    record (blank "image") {
      input_modalities = add_if (given (Image.prompt r)) "text" ++ add_if has_images "image";
      prompt_chars = length (or_empty (Image.prompt r));
      wants_image_input = has_images;
      input_image_count = length (Image.input_images r);
      output_count = r.n;
      width = width;
      height = height;
      aspect_ratio = named r.aspect_ratio;
    }

unfoldable pub video_profile : UnifiedVideoRequest → RequestProfile
unfolding with_size Video.first_from
video_profile r =
    let first = is_some (Video.first_image r) in
    let last = is_some (Video.last_image r) in
    let has_references = not (empty? (Video.reference_images r)) in
    let has_videos = not (empty? (Video.reference_videos r)) in
    let has_audios = not (empty? (Video.reference_audios r)) in
    let has_images = first || (last || has_references) in
    let (width, height) = with_size r.size r.width r.height in
    record (blank "video") {
      input_modalities =
          add_if (given (Video.prompt r)) "text"
          ++ (add_if has_images "image"
              ++ (add_if has_videos "video" ++ add_if has_audios "audio"));
      prompt_chars = length (or_empty (Video.prompt r));
      wants_image_input = has_images;
      wants_first_frame = first;
      wants_last_frame = last;
      wants_reference_video = has_videos;
      wants_reference_audio = has_audios;
      wants_reference_image = has_references;
      wants_audio_output = on r.generate_audio;
      input_image_count = length (Video.images r.content);
      width = width;
      height = height;
      aspect_ratio = named r.ratio;
      resolution = filled r.resolution;
      duration_ms = r.duration_ms;
      fps = r.fps;
    }

unfoldable pub music_profile : UnifiedMusicRequest → RequestProfile
music_profile r =
    let has_references = not (empty? (Music.reference_audios r)) in
    let continues = given (Music.continuation_audio_of r) in
    let has_images = not (empty? (Music.reference_images r)) in
    record (blank "music") {
      input_modalities =
          add_if (given (Music.generation_prompt r)) "text"
          ++ (add_if (has_references || continues) "audio" ++ add_if has_images "image");
      prompt_chars = length (or_empty (Music.generation_prompt r));
      wants_lyrics = given r.lyrics;
      wants_reference_audio = has_references;
      wants_continuation_audio = continues;
      wants_reference_image = has_images;
      output_count = r.n;
      duration_ms = r.duration_ms;
      sample_rate_hz = r.sample_rate_hz;
    }

unfoldable pub profile_for : AnyRequest → RequestProfile
unfolding image_profile video_profile music_profile
profile_for (voice_request r) = record (blank "audio") {
  input_modalities = "audio" ∷ [];
  wants_voice_clone = true;
  input_audio_count = length r.samples;
}
profile_for (audio_request r) = record (blank "audio") {
  input_modalities = "text" ∷ [];
  prompt_chars = length r.text;
  file_format = r.parameters.file_format;
  sample_rate_hz = r.parameters.sample_rate_hz;
  speed = r.parameters.speed;
  wants_instructions = given r.parameters.instructions;
}
profile_for (image_request r) = image_profile r
profile_for (video_request r) = video_profile r
profile_for (music_request r) = music_profile r
