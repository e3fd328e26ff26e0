-- ===== src/Schemas/Image.antt =====
-- mm_gateway/schemas/image.py: the image request.
use mm_gateway.Prelude.{ℕ, String, Option, List, [], ◌∷◌}
use mm_gateway.Schemas.{Text, joined}

-- A reference image has a URL or its data (base64).
pub record ImageImagePart : Type 0 where
  pub url : Option Text
  pub data_base64 : Option Text
  pub mime_type : Option Text

pub data ImageContentPart : Type 0 where
  text_part : Text → ImageContentPart
  image_part : ImageImagePart → ImageContentPart

pub record UnifiedImageRequest : Type 0 where
  pub model : String
  pub content : List ImageContentPart
  pub n : Option ℕ
  pub size : Option Text
  pub width : Option ℕ
  pub height : Option ℕ
  pub aspect_ratio : Option String

abbrev pub texts : List ImageContentPart → List Text
texts [] = []
texts (text_part t ∷ ps) = t ∷ texts ps
texts (image_part i ∷ ps) = texts ps

abbrev pub images : List ImageContentPart → List ImageImagePart
images [] = []
images (text_part t ∷ ps) = images ps
images (image_part i ∷ ps) = i ∷ images ps

abbrev pub prompt : UnifiedImageRequest → Option Text
prompt r = joined (texts r.content)

abbrev pub input_images : UnifiedImageRequest → List ImageImagePart
input_images r = images r.content
