-- ===== src/Schemas/Audio.antt =====
-- mm_gateway/schemas/audio.py: the requests for speech and for a voice clone.
use mm_gateway.Prelude.{ℕ, String, Option, List}
use mm_gateway.Schemas.{Text}

-- Speeds are whole thousandths.
pub record AudioParameters : Type 0 where
  pub instructions : Option Text
  pub speed : Option ℕ
  pub file_format : Option String
  pub sample_rate_hz : Option ℕ

pub record UnifiedAudioRequest : Type 0 where
  pub model : String
  pub text : Text
  pub parameters : AudioParameters

-- A sample is the URI of a recording.
pub record UnifiedVoiceRequest : Type 0 where
  pub model : String
  pub samples : List Text
