-- ===== src/Tests/Rest.antt =====
-- Public requests, their profiles and the models they fit, and inline images.
use mm_gateway.Prelude.{◌≡◌, ◌⊎◌, refl, true, false, none, some, [], ◌∷◌, nat_eq, string_eq}
use mm_gateway.Prelude.Int.{pos, negsuc}
use mm_gateway.Models.Limits.{ModelLimits, permissive}
use mm_gateway.Schemas.{Text}
use mm_gateway.Schemas.Video.{first_frame, reference_image, first_from}
use mm_gateway.Schemas.Music.{continuation_audio}
use mm_gateway.Schemas.Rest.{
  VideoRequest, video_text, video_image_input, MusicRequest, music_text, lyrics_input,
  music_audio_input,
}
use mm_gateway.Translators.{
  data_uri, image_source, starts_with, from_video_request, video_content, from_music_request,
  music_content, lyrics_parts,
}
use mm_gateway.Translators.DataUri.{image_source-data_uri}
use mm_gateway.Router.{fits}
use mm_gateway.Router.Profile.{profile_for, video_profile, music_profile}
use mm_gateway.Router.Profile.Sides.{
  parse_size, split_size, to_int, read_signed, read_digits, skip_spaces, drop_spaces, with_size,
}
use mm_gateway.Router.Video.{ServesVideo, public_profile, no_first_frame_no_image}
use mm_gateway.Router.Music
use mm_gateway.Router.Music.{ServesMusic, fits-ServesMusic}
use mm_gateway.AutoMode.Plan.{pinned_kind}
use mm_gateway.AutoMode.Planner.Admissible.{limits_of}
use mm_gateway.AutoMode.Planner.Public.{served-ServesVideo}
use mm_gateway.Ledger.{init}
use mm_gateway.Tests.Router.{clip}
use mm_gateway.Tests.Planner.{
  planner, at_b, touched, the_plan, answers, planned_example, served_example,
}
use mm_gateway.Tests.Registry.{whole}

abbrev url : Text
url = b'u' ∷ []

abbrev words : Text
words = b'o' ∷ b'w' ∷ b'l' ∷ []

abbrev body : VideoRequest
body = record {
  model = none;
  input = video_text words ∷ video_image_input url first_frame ∷ [];
  parameters = record {
    duration_ms = some 6000;
    dimensions = some (record { width = 1280; height = 720 });
    fps = none;
    include_audio = none;
  };
}

body_profile : clip ≡ public_profile body
unfolding profile_for video_profile from_video_request video_content first_from with_size
body_profile = refl

served-ServesVideo_example :
    (at_b.kind ≡ pinned_kind) ⊎ ServesVideo body (limits_of planner init at_b.model)
served-ServesVideo_example =
    served-ServesVideo planner whole none true init touched the_plan answers planner.clock
      planner.clock "t" at_b 1 none body body_profile planned_example served_example

-- happyhorse-1.1-r2v of the built-in table: reference images, and no first frame
abbrev r2v : ModelLimits
r2v = record (permissive "video") {
  input_modalities = "text" ∷ "image" ∷ [];
  supports_reference_image = some true;
  supports_first_frame = some false;
  supports_last_frame = some false;
  max_input_images = some 9;
}

abbrev reference_only : VideoRequest
reference_only = record body {
  input = video_text words ∷ video_image_input url reference_image ∷ [];
}

no_first_frame_no_image_example : (fits (public_profile reference_only) r2v).0 ≡ false
no_first_frame_no_image_example = no_first_frame_no_image reference_only r2v refl refl

abbrev song : MusicRequest
song = record {
  model = none;
  input = music_text words ∷ lyrics_input words ∷ music_audio_input url continuation_audio ∷ [];
  parameters = record {
    title = none;
    style = none;
    duration_ms = some 30000;
    sample_rate_hz = none;
    output_count = some 1;
  };
}

song_fits : (fits (Music.public_profile song) (permissive "music")).0 ≡ true
unfolding fits profile_for music_profile from_music_request music_content lyrics_parts
song_fits = refl

fits-ServesMusic_example : ServesMusic song (permissive "music")
fits-ServesMusic_example = fits-ServesMusic song (permissive "music") song_fits

-- "image/gif"
abbrev gif : Text
gif = b'g' ∷ b'i' ∷ b'f' ∷ []

image_source-data_uri_example :
    image_source (data_uri words gif)
    ≡ record { url = none; data_base64 = some words; mime_type = some gif }
image_source-data_uri_example =
    image_source-data_uri gif words (λ e. cc) refl refl (unfold starts_with in refl)

-- "12*34", "1x", "-1X+2"
size_stars : parse_size (b'1' ∷ b'2' ∷ b'*' ∷ b'3' ∷ b'4' ∷ []) ≡ (some (pos 12), some (pos 34))
unfolding parse_size split_size to_int read_signed read_digits skip_spaces drop_spaces
size_stars = refl

size_half : parse_size (b'1' ∷ b'x' ∷ []) ≡ (none, none)
unfolding parse_size split_size to_int read_signed read_digits skip_spaces drop_spaces
size_half = refl

size_signed :
    parse_size (b'-' ∷ b'1' ∷ b'X' ∷ b' ' ∷ b'+' ∷ b'2' ∷ []) ≡ (some (negsuc 0), some (pos 2))
unfolding parse_size split_size to_int read_signed read_digits skip_spaces drop_spaces
size_signed = refl
