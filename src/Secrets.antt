-- ===== src/Secrets.antt =====
-- mm_gateway/secrets.py: which values of a configuration are secrets, and how they are encrypted and
-- decrypted in place (without interpolation of environment variables).
-- Arguments: the search for the pattern of secret names, the inspection of a URL, the cipher with its
-- JSON payload (`seal` writes an encrypted text and `open_text` reads one, or fails), the test for the
-- "enc:" prefix, and which environment references are kept.
pub mod RoundTrip
use mm_gateway.Prelude.{
  String, Bool, true, false, ◌&&◌, ◌||◌, not, Option, none, some, List, [], ◌∷◌, ◌==◌, string_eq,
  contains, if◌then◌else◌,
}

-- Numbers and booleans are literals.
mutual
  pub data Json : Type 0 where
    null : Json
    literal : String → Json
    text : String → Json
    array : Items → Json
    object : Fields → Json

  pub data Items : Type 0 where
    nil : Items
    cons : Json → Items → Items

  pub data Fields : Type 0 where
    end : Fields
    field : String → Json → Fields → Fields

pub record Cipher : Type 0 where
  pub seal : Json → String
  pub open_text : String → Option Json
  pub is_encrypted : String → Bool

pub record Patterns : Type 0 where
  -- `_SECRET.search(name)`
  pub secret_name : String → Bool
  -- a URL with a user, a password or a secret in its query
  pub secret_url : String → Bool
  pub is_header_map : String → Bool
  -- `preserve_env`, and the text is an environment reference without a default
  pub keeps : String → Bool

abbrev pub map_option : {A B : Type 0} → (A → B) → Option A → Option B
map_option f none = none
map_option f (some a) = some (f a)

abbrev pub both : {A B C : Type 0} → (A → B → C) → Option A → Option B → Option C
both f none b = none
both f (some a) none = none
both f (some a) (some b) = some (f a b)

module _ (pats : Patterns) where
  unfoldable pub is_secret_name : String → Bool → Bool
  is_secret_name name header =
      header
      || (pats.secret_name name
          && not (contains ("keys" ∷ "credentials" ∷ "auth_plugin" ∷ []) name))

  unfoldable pub is_secret : Json → String → Bool → Bool
  unfolding is_secret_name
  is_secret (text s) name header =
      is_secret_name name header || (name == "credentials" || pats.secret_url s)
  is_secret null name header = is_secret_name name header
  is_secret (literal s) name header = is_secret_name name header
  is_secret (array xs) name header = is_secret_name name header
  is_secret (object fs) name header = is_secret_name name header

module _ (cipher : Cipher) where
  unfoldable mutual
    pub decrypt : Json → Option Json
    decrypt null = some null
    decrypt (literal s) = some (literal s)
    decrypt (text s) = if cipher.is_encrypted s then cipher.open_text s else some (text s)
    decrypt (array xs) = map_option array (decrypt_items xs)
    decrypt (object fs) = map_option object (decrypt_fields fs)

    pub decrypt_items : Items → Option Items
    decrypt_items nil = some nil
    decrypt_items (cons x xs) = both cons (decrypt x) (decrypt_items xs)

    pub decrypt_fields : Fields → Option Fields
    decrypt_fields end = some end
    decrypt_fields (field k v fs) = both (field k) (decrypt v) (decrypt_fields fs)

  abbrev pub sealed : Option Json → Option Json
  sealed = map_option (λ v. text (cipher.seal v))

module _ (pats : Patterns) (cipher : Cipher) where
  unfoldable pub encrypt_text : String → String → Bool → Option Json
  unfolding is_secret
  encrypt_text s name header =
      if s == ""
      then some (text s)
      else if cipher.is_encrypted s
      then map_option (λ _. text s) (cipher.open_text s)
      else if is_secret pats (text s) name header
      then if pats.keeps s then some (text s) else some (text (cipher.seal (text s)))
      else some (text s)

  unfoldable mutual
    unfolding encrypt_text is_secret decrypt

    pub encrypt : Json → String → Bool → Option Json
    encrypt null name header = some null
    encrypt (literal s) name header =
        if is_secret pats (literal s) name header
        then some (text (cipher.seal (literal s)))
        else some (literal s)
    encrypt (text s) name header = encrypt_text s name header
    encrypt (array xs) name header =
        if is_secret pats (array xs) name header
        then sealed cipher (decrypt cipher (array xs))
        else map_option array (encrypt_items xs name)
    encrypt (object fs) name header =
        if is_secret pats (object fs) name header
        then sealed cipher (decrypt cipher (object fs))
        else map_option object (encrypt_fields fs (pats.is_header_map name))

    pub encrypt_items : Items → String → Option Items
    encrypt_items nil name = some nil
    encrypt_items (cons x xs) name = both cons (encrypt x name false) (encrypt_items xs name)

    pub encrypt_fields : Fields → Bool → Option Fields
    encrypt_fields end header = some end
    encrypt_fields (field k v fs) header =
        both (field k) (encrypt v k header) (encrypt_fields fs header)
