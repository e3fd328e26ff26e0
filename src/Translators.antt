-- ===== src/Translators.antt =====
-- mm_gateway/translators/rest.py: public requests become the gateway's own, and its tasks become public
-- responses. Settings that are copied under their own name and that routing does not read are left out.
pub mod Responses
pub mod DataUri
pub mod VideoParts
pub mod MusicParts
use mm_gateway.Prelude.{
  ℕ, String, Bool, true, false, ◌&&◌, Option, none, some, List, [], ◌∷◌, ◌++◌, map, ◌+◌, leb, ◌==◌,
  nat_eq, string_eq, if◌then◌else◌, length,
}
use mm_gateway.Schemas.{Text, join_lines, or_none}
use mm_gateway.Schemas.Image
use mm_gateway.Schemas.Image.{UnifiedImageRequest, ImageImagePart, ImageContentPart}
use mm_gateway.Schemas.Video
use mm_gateway.Schemas.Video.{UnifiedVideoRequest, VideoContentPart}
use mm_gateway.Schemas.Music
use mm_gateway.Schemas.Music.{UnifiedMusicRequest, MusicContentPart}
use mm_gateway.Schemas.Audio.{UnifiedAudioRequest, UnifiedVoiceRequest}
use mm_gateway.Schemas.Rest.{
  Dimensions, ImageInputPart, image_text, image_input, VideoInputPart, video_text,
  video_image_input, video_audio_input, video_input, MusicInputPart, music_text, lyrics_input,
  music_image_input, music_audio_input, ImageRequest, VideoRequest, MusicRequest, AudioRequest,
  VoiceCloneRequest,
}

-- "data:"
abbrev pub data_scheme : Text
data_scheme = b'd' ∷ b'a' ∷ b't' ∷ b'a' ∷ b':' ∷ []

-- ";base64,"
abbrev pub base64_mark : Text
base64_mark = b';' ∷ b'b' ∷ b'a' ∷ b's' ∷ b'e' ∷ b'6' ∷ b'4' ∷ b',' ∷ []

-- "image/png"
abbrev pub image_png : Text
image_png = b'i' ∷ b'm' ∷ b'a' ∷ b'g' ∷ b'e' ∷ b'/' ∷ b'p' ∷ b'n' ∷ b'g' ∷ []

-- text.startswith(prefix)
unfoldable pub starts_with : Text → Text → Bool
starts_with [] t = true
starts_with (p ∷ ps) [] = false
starts_with (p ∷ ps) (c ∷ cs) = p == c && starts_with ps cs

-- The lower case of a letter; no character outside ASCII has one of "data:" for its lower case.
abbrev pub lower : ℕ → ℕ
lower c = if leb b'A' c && leb c b'Z' then c + 32 else c

-- text.partition(mark): what stands before the first mark, and after it
unfoldable pub partition : ℕ → Text → Text × Text
partition mark [] = ([], [])
partition mark (c ∷ cs) =
    let (before, after) = partition mark cs in if c == mark then ([], cs) else (c ∷ before, after)

abbrev pub drop_five : Text → Text
drop_five (a ∷ b ∷ c ∷ d ∷ e ∷ cs) = cs
drop_five _ = []

abbrev pub or_text : Text → Text → Text
or_text [] default = default
or_text (c ∷ cs) default = c ∷ cs

unfoldable pub data_uri : Text → Text → Text
unfolding starts_with
data_uri payload mime_type =
    if starts_with data_scheme payload
    then payload
    else data_scheme ++ (mime_type ++ (base64_mark ++ payload))

unfoldable pub image_source : Text → ImageImagePart
unfolding starts_with partition
image_source uri =
    if starts_with data_scheme (map lower uri)
    then (let (header, payload) = partition b',' uri in
        record {
          url = none;
          data_base64 = some payload;
          mime_type = some (or_text (partition b';' (drop_five header)).0 image_png);
        })
    else record { url = some uri; data_base64 = none; mime_type = none }

-- body.model or "auto"
abbrev pub model_or_auto : Option String → String
model_or_auto none = "auto"
model_or_auto (some name) = if name == "" then "auto" else name

abbrev pub width_of : Option Dimensions → Option ℕ
width_of none = none
width_of (some d) = some d.width

abbrev pub height_of : Option Dimensions → Option ℕ
height_of none = none
height_of (some d) = some d.height

unfoldable pub image_content : ImageInputPart → ImageContentPart
unfolding image_source
image_content (image_text t) = Image.text_part t
image_content (image_input uri) = Image.image_part (image_source uri)

unfoldable pub from_image_request : ImageRequest → UnifiedImageRequest
unfolding image_content
from_image_request body = record {
  model = model_or_auto body.model;
  content = map image_content body.input;
  n = body.parameters.output_count;
  size = none;
  width = width_of body.parameters.dimensions;
  height = height_of body.parameters.dimensions;
  aspect_ratio = none;
}

unfoldable pub video_content : VideoInputPart → VideoContentPart
video_content (video_text t) = Video.text_part t
video_content (video_image_input uri role) = Video.image_part uri role
video_content (video_audio_input uri) = Video.audio_part uri
video_content (video_input uri) = Video.video_part uri

unfoldable pub from_video_request : VideoRequest → UnifiedVideoRequest
unfolding video_content
from_video_request body = record {
  model = model_or_auto body.model;
  content = map video_content body.input;
  duration_ms = body.parameters.duration_ms;
  ratio = none;
  resolution = none;
  size = none;
  width = width_of body.parameters.dimensions;
  height = height_of body.parameters.dimensions;
  fps = body.parameters.fps;
  generate_audio = body.parameters.include_audio;
}

-- Lyrics are gathered apart from the content.
unfoldable pub music_content : List MusicInputPart → List MusicContentPart
music_content [] = []
music_content (music_text t ∷ ps) = Music.text_part t ∷ music_content ps
music_content (lyrics_input t ∷ ps) = music_content ps
music_content (music_image_input uri ∷ ps) = Music.image_part uri ∷ music_content ps
music_content (music_audio_input uri role ∷ ps) = Music.audio_part uri role ∷ music_content ps

unfoldable pub lyrics_parts : List MusicInputPart → List Text
lyrics_parts [] = []
lyrics_parts (lyrics_input t ∷ ps) = t ∷ lyrics_parts ps
lyrics_parts (_ ∷ ps) = lyrics_parts ps

unfoldable pub from_music_request : MusicRequest → UnifiedMusicRequest
unfolding music_content lyrics_parts
from_music_request body = record {
  model = model_or_auto body.model;
  content = music_content body.input;
  lyrics = or_none (join_lines (lyrics_parts body.input));
  title = body.parameters.title;
  style = body.parameters.style;
  duration_ms = body.parameters.duration_ms;
  sample_rate_hz = body.parameters.sample_rate_hz;
  n = body.parameters.output_count;
}

unfoldable pub from_audio_request : AudioRequest → UnifiedAudioRequest
from_audio_request body = record {
  model = model_or_auto body.model;
  text = join_lines body.input;
  parameters = body.parameters;
}

unfoldable pub from_voice_request : VoiceCloneRequest → UnifiedVoiceRequest
from_voice_request body = record { model = model_or_auto body.model; samples = body.input }
