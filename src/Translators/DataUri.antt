-- ===== src/Translators/DataUri.antt =====
-- Inline images: the data URI that `_data_uri` writes is taken apart again by `_image_source`
-- (mm_gateway/translators/rest.py).
use mm_gateway.Prelude.{
  ℕ, ◌≡◌, ◌≢◌, refl, ap, false, none, some, [], ◌∷◌, ◌++◌, arith, nat_eq, contains,
}
use mm_gateway.Schemas.{Text}
use mm_gateway.Translators.{
  data_uri, image_source, starts_with, partition, data_scheme, base64_mark, or_text,
}

partition-append :
    (mark : ℕ) (xs ys : Text)
    → contains xs mark ≡ false
    → partition mark (xs ++ ys) ≡ (xs ++ (partition mark ys).0, (partition mark ys).1)
unfolding partition
partition-append mark [] ys h = refl
partition-append mark (x ∷ xs) ys h = ground (arith, partition-append mark xs ys)

append_nil : (xs : Text) → xs ++ [] ≡ xs
append_nil [] = refl
append_nil (x ∷ xs) = ap (λ ys. x ∷ ys) (append_nil xs)

or_text_self : (t default : Text) → t ≢ [] → or_text t default ≡ t
or_text_self [] default h = absurd (h refl)
or_text_self (c ∷ cs) default h = refl

-- The mark of the data, without its comma.
abbrev marked : Text
marked = b';' ∷ b'b' ∷ b'a' ∷ b's' ∷ b'e' ∷ b'6' ∷ b'4' ∷ []

header_type :
    (mime_type : Text)
    → contains mime_type b';' ≡ false
    → (partition b';' (mime_type ++ marked)).0 ≡ mime_type
unfolding partition
header_type mime_type h = rw (partition-append b';' mime_type marked h) (append_nil mime_type)

-- An inline image survives its data URI: the URI written for some data and a media type, which is
-- not empty and has no comma or semicolon, is read back as an image with exactly that data and
-- type, unless the data itself begins like a data URI.
pub image_source-data_uri :
    (mime_type payload : Text)
    → mime_type ≢ []
    → contains mime_type b',' ≡ false
    → contains mime_type b';' ≡ false
    → starts_with data_scheme payload ≡ false
    → image_source (data_uri payload mime_type)
      ≡ record { url = none; data_base64 = some payload; mime_type = some mime_type }
unfolding image_source data_uri starts_with partition
image_source-data_uri mime_type payload some_type no_comma no_semicolon raw =
    rw
      (
        raw,
        partition-append b',' mime_type (base64_mark ++ payload) no_comma,
        header_type mime_type no_semicolon,
        or_text_self mime_type _ some_type,
      )
      refl
