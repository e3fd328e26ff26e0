-- ===== src/Router/Image.antt =====
-- A public image request and the models it fits: mm_gateway/translators/rest.py, then the profile and the
-- limits of mm_gateway/router.py.
use mm_gateway.Prelude.{
  ℕ, suc, ◌≡◌, refl, ◌∙◌, ap, Bool, true, false, not, some, List, [], ◌∷◌, map, arith, any, length,
  subst, ◌++◌,
}
use mm_gateway.Models.Limits.{ModelLimits}
use mm_gateway.Schemas.{has_text, empty?, given, given-joined}
use mm_gateway.Schemas.Image
use mm_gateway.Schemas.Rest.{ImageInputPart, image_text, image_input, ImageRequest}
use mm_gateway.Translators.{from_image_request, image_content, width_of, height_of}
use mm_gateway.Router.{RequestProfile, fits, explicit_side}
use mm_gateway.Router.Constraints.{Admits, AtMost, Supports}
use mm_gateway.Router.Fits.{fits_iff}
use mm_gateway.Router.Needs.{Takes, Covered, Covered-add_if, Takes-of_Covered, AtMost-larger}
use mm_gateway.Router.Profile.{profile_for, image_profile, image_request, add_if}
use mm_gateway.Router.Profile.Sides.{with_size}

abbrev pub is_spoken : ImageInputPart → Bool
is_spoken (image_text t) = has_text t
is_spoken (image_input uri) = false

abbrev pub is_image : ImageInputPart → Bool
is_image (image_text t) = false
is_image (image_input uri) = true

abbrev pub count_images : List ImageInputPart → ℕ
count_images [] = 0
count_images (image_text t ∷ ps) = count_images ps
count_images (image_input uri ∷ ps) = suc (count_images ps)

texts-map :
    (ps : List ImageInputPart)
    → any has_text (Image.texts (map image_content ps)) ≡ any is_spoken ps
unfolding image_content
texts-map [] = refl
texts-map (image_text t ∷ ps) = ground (arith, texts-map ps)
texts-map (image_input uri ∷ ps) = texts-map ps

images-map :
    (ps : List ImageInputPart) → length (Image.images (map image_content ps)) ≡ count_images ps
unfolding image_content
images-map [] = refl
images-map (image_text t ∷ ps) = images-map ps
images-map (image_input uri ∷ ps) = ap suc (images-map ps)

any-map :
    (ps : List ImageInputPart)
    → not (empty? (Image.images (map image_content ps))) ≡ any is_image ps
unfolding image_content
any-map [] = refl
any-map (image_text t ∷ ps) = any-map ps
any-map (image_input uri ∷ ps) = refl

-- What a model does for a request: whatever the request has or asks for, the model does not deny it.
pub record ServesImage (body : ImageRequest) (l : ModelLimits) : Type 0 where
  pub texts : any is_spoken body.input ≡ true → Takes l "text"
  pub images : any is_image body.input ≡ true → Takes l "image"
  pub edits : Supports (any is_image body.input) l.supports_image_to_image
  pub image_count :
      any is_image body.input ≡ true → AtMost (some (count_images body.input)) l.max_input_images
  pub output_count : AtMost body.parameters.output_count l.max_output_count
  pub width : AtMost (width_of body.parameters.dimensions) l.max_output_longest_side
  pub height : AtMost (height_of body.parameters.dimensions) l.max_output_longest_side

abbrev pub public_profile : ImageRequest → RequestProfile
public_profile body = profile_for (image_request (from_image_request body))

module _ (body : ImageRequest) where
  wants_image : (public_profile body).wants_image_input ≡ any is_image body.input
  unfolding profile_for image_profile from_image_request
  wants_image = any-map body.input

  counts_images : (public_profile body).input_image_count ≡ count_images body.input
  unfolding profile_for image_profile from_image_request
  counts_images = images-map body.input

  wants_text :
      any is_spoken body.input ≡ true → given (Image.prompt (from_image_request body)) ≡ true
  unfolding from_image_request
  wants_text h =
      given-joined (Image.texts (map image_content body.input)) (texts-map body.input ∙ h)

  modalities_of :
      (public_profile body).input_modalities
      ≡ add_if (given (Image.prompt (from_image_request body))) "text"
        ++ add_if (public_profile body).wants_image_input "image"
  unfolding profile_for image_profile
  modalities_of = refl

  takes :
      (l : ModelLimits)
      → Covered l (public_profile body).input_modalities
      → (any is_spoken body.input ≡ true → Takes l "text")
        × (any is_image body.input ≡ true → Takes l "image")
  takes l c =
      let (text, after) = Covered-add_if l _ "text" _ (subst (Covered l) modalities_of c) in
      (λ h. text (wants_text h), λ h. Takes-of_Covered l _ "image" after (wants_image ∙ h))

  sides :
      (l : ModelLimits)
      → AtMost (explicit_side (public_profile body)) l.max_output_longest_side
      → AtMost (width_of body.parameters.dimensions) l.max_output_longest_side
        × AtMost (height_of body.parameters.dimensions) l.max_output_longest_side
  unfolding explicit_side profile_for image_profile from_image_request with_size
  sides l h = AtMost-larger _ _ _ h

  Admits-ServesImage : (l : ModelLimits) → Admits (public_profile body) l → ServesImage body l
  Admits-ServesImage l a = record {
    texts = (takes l a.modalities).0;
    images = (takes l a.modalities).1;
    edits = λ h. a.image (wants_image ∙ h);
    image_count = λ h.
        subst (λ n. AtMost (some n) l.max_input_images) counts_images (a.images (wants_image ∙ h));
    output_count = unfold profile_for image_profile from_image_request in a.count;
    width = (sides l a.side).0;
    height = (sides l a.side).1;
  }

  media : (public_profile body).wants_voice_clone ≡ false
  unfolding profile_for image_profile
  media = refl

  -- X
  pub fits-ServesImage :
      (l : ModelLimits) → (fits (public_profile body) l).0 ≡ true → ServesImage body l
  fits-ServesImage l h = Admits-ServesImage l ((fits_iff (public_profile body) l media).0 h)
