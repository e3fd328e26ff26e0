-- ===== src/Schemas/Rest.antt =====
-- mm_gateway/schemas/api.py: the public requests for media, with the parameters that routing reads.
use mm_gateway.Prelude.{ℕ, String, Bool, Option, List}
use mm_gateway.Schemas.{Text}
use mm_gateway.Schemas.Video.{ImageRole}
use mm_gateway.Schemas.Music.{AudioRole}
use mm_gateway.Schemas.Audio.{AudioParameters}

pub record Dimensions : Type 0 where
  pub width : ℕ
  pub height : ℕ

pub data ImageInputPart : Type 0 where
  image_text : Text → ImageInputPart
  image_input : Text → ImageInputPart

pub data VideoInputPart : Type 0 where
  video_text : Text → VideoInputPart
  video_image_input : Text → ImageRole → VideoInputPart
  video_audio_input : Text → VideoInputPart
  video_input : Text → VideoInputPart

pub data MusicInputPart : Type 0 where
  music_text : Text → MusicInputPart
  lyrics_input : Text → MusicInputPart
  music_image_input : Text → MusicInputPart
  music_audio_input : Text → AudioRole → MusicInputPart

pub record ImageParameters : Type 0 where
  pub output_count : Option ℕ
  pub dimensions : Option Dimensions

pub record VideoParameters : Type 0 where
  pub duration_ms : Option ℕ
  pub dimensions : Option Dimensions
  pub fps : Option ℕ
  pub include_audio : Option Bool

pub record MusicParameters : Type 0 where
  pub title : Option Text
  pub style : Option Text
  pub duration_ms : Option ℕ
  pub sample_rate_hz : Option ℕ
  pub output_count : Option ℕ

pub record ImageRequest : Type 0 where
  pub model : Option String
  pub input : List ImageInputPart
  pub parameters : ImageParameters

pub record VideoRequest : Type 0 where
  pub model : Option String
  pub input : List VideoInputPart
  pub parameters : VideoParameters

pub record MusicRequest : Type 0 where
  pub model : Option String
  pub input : List MusicInputPart
  pub parameters : MusicParameters

pub record AudioRequest : Type 0 where
  pub model : Option String
  pub input : List Text
  pub parameters : AudioParameters

pub record VoiceCloneRequest : Type 0 where
  pub model : Option String
  pub input : List Text
