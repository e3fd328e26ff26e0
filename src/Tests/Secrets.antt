-- ===== src/Tests/Secrets.antt =====
-- A backend's configuration with one secret.
use mm_gateway.Prelude.{
  String, ◌==◌, string_eq, refl, false, ◌||◌, Option, none, some, if◌then◌else◌,
}
use mm_gateway.Secrets.{Json, text, object, end, field, Cipher, Patterns}
use mm_gateway.Secrets.RoundTrip.{IsPlain, IsProtected, decrypt-encrypt}

abbrev pub settings : Json
settings = object (field "name" (text "a") (field "api_key" (text "s") end))

-- A cipher for these three values.
abbrev seal_one : Json → String
seal_one (text s) = if s == "s" then "enc:v1:1" else "enc:v1:2"
seal_one _ = "enc:v1:3"

abbrev open_one : String → Option Json
open_one s =
    if s == "enc:v1:1"
    then some (text "s")
    else if s == "enc:v1:2"
    then some (text "a")
    else if s == "enc:v1:3"
    then some settings
    else none

abbrev pub cipher : Cipher
cipher = record {
  seal = seal_one;
  open_text = open_one;
  is_encrypted = λ s. s == "enc:v1:1" || (s == "enc:v1:2" || s == "enc:v1:3");
}

abbrev pub patterns : Patterns
patterns = record {
  secret_name = λ name. name == "api_key";
  secret_url = λ s. false;
  is_header_map = λ name. name == "headers";
  keeps = λ s. false;
}

pub settings-IsPlain : IsPlain cipher settings
unfolding IsPlain
settings-IsPlain = ((refl, refl), ((refl, (refl, refl)), ((refl, (refl, refl)), tt)))

decrypt-encrypt_example : IsProtected patterns cipher settings "" false
decrypt-encrypt_example = decrypt-encrypt patterns cipher settings "" false settings-IsPlain
