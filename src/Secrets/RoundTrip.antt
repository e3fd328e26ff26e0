-- ===== src/Secrets/RoundTrip.antt =====
-- A configuration is encrypted so that no secret stays readable and decryption gives it back.
use mm_gateway.Prelude.{
  String, ◌≡◌, ◌⊎◌, inl, inr, refl, Bool, true, false, some, ◌==◌, string_eq, arith, Bool-cases,
  eq_iff,
}
use mm_gateway.Secrets.{
  Json, null, literal, text, array, object, Items, nil, cons, Fields, end, field, Cipher, Patterns,
  is_secret, is_secret_name, decrypt, decrypt_items, decrypt_fields, encrypt, encrypt_text,
  encrypt_items, encrypt_fields,
}

module _ (cipher : Cipher) where
  -- The cipher opens what it made of the value, and marked it with the prefix.
  abbrev pub Opens : Json → Type 0
  Opens v =
      (cipher.open_text (cipher.seal v) ≡ some v) × (cipher.is_encrypted (cipher.seal v) ≡ true)

  -- No text carries the prefix yet, and the cipher works on every part.
  unfoldable mutual
    pub IsPlain : Json → Type 0
    IsPlain null = Unit
    IsPlain (literal s) = Opens (literal s)
    IsPlain (text s) = (cipher.is_encrypted s ≡ false) × Opens (text s)
    IsPlain (array xs) = Opens (array xs) × ArePlain xs
    IsPlain (object fs) = Opens (object fs) × FieldsPlain fs

    pub ArePlain : Items → Type 0
    ArePlain nil = Unit
    ArePlain (cons x xs) = IsPlain x × ArePlain xs

    pub FieldsPlain : Fields → Type 0
    FieldsPlain end = Unit
    FieldsPlain (field k v fs) = IsPlain v × FieldsPlain fs

  mutual
    unfolding decrypt decrypt_items decrypt_fields IsPlain ArePlain FieldsPlain

    decrypt-plain : (v : Json) → IsPlain v → decrypt cipher v ≡ some v
    decrypt-plain null h = refl
    decrypt-plain (literal s) h = refl
    decrypt-plain (text s) h = rw h.0 refl
    decrypt-plain (array xs) h = rw (decrypt_items-plain xs h.1) refl
    decrypt-plain (object fs) h = rw (decrypt_fields-plain fs h.1) refl

    decrypt_items-plain : (xs : Items) → ArePlain xs → decrypt_items cipher xs ≡ some xs
    decrypt_items-plain nil h = refl
    decrypt_items-plain (cons x xs) h = rw (decrypt-plain x h.0, decrypt_items-plain xs h.1) refl

    decrypt_fields-plain : (fs : Fields) → FieldsPlain fs → decrypt_fields cipher fs ≡ some fs
    decrypt_fields-plain end h = refl
    decrypt_fields-plain (field k v fs) h =
        rw (decrypt-plain v h.0, decrypt_fields-plain fs h.1) refl

module _ (pats : Patterns) (cipher : Cipher) where
  -- At a secret place there is nothing, an encrypted text, or a reference that is kept.
  mutual
    pub IsCovered : Json → String → Bool → Type 0
    IsCovered null name header = Unit
    IsCovered (literal s) name header = is_secret_name pats name header ≡ false
    IsCovered (text s) name header =
        (s ≡ "")
        ⊎ ((cipher.is_encrypted s ≡ true)
            ⊎ ((pats.keeps s ≡ true) ⊎ (is_secret pats (text s) name header ≡ false)))
    IsCovered (array xs) name header =
        (is_secret_name pats name header ≡ false) × AreCovered xs name
    IsCovered (object fs) name header =
        (is_secret_name pats name header ≡ false) × FieldsCovered fs (pats.is_header_map name)

    pub AreCovered : Items → String → Type 0
    AreCovered nil name = Unit
    AreCovered (cons x xs) name = IsCovered x name false × AreCovered xs name

    pub FieldsCovered : Fields → Bool → Type 0
    FieldsCovered end header = Unit
    FieldsCovered (field k v fs) header = IsCovered v k header × FieldsCovered fs header

  -- Encryption succeeds, decryption gives the value back, and what is stored is covered.
  abbrev pub IsProtected : Json → String → Bool → Type 0
  IsProtected v name header =
      (w : Json) × (encrypt pats cipher v name header ≡ some w)
      × (decrypt cipher w ≡ some v)
      × IsCovered w name header

  decrypt-seal : (v : Json) → Opens cipher v → decrypt cipher (text (cipher.seal v)) ≡ some v
  unfolding decrypt
  decrypt-seal v works = rw works.1 works.0

  encrypt_text-IsProtected :
      (s name : String) (header : Bool)
      → cipher.is_encrypted s ≡ false
      → Opens cipher (text s)
      → IsProtected (text s) name header
  unfolding encrypt encrypt_text decrypt IsCovered
  encrypt_text-IsProtected s name header plain works = elim (Bool-cases (s == "")) [
    | inl empty ↦ (text s, ground arith, rw plain refl, inl ((eq_iff s "").0 empty))
    | inr given ↦ elim (Bool-cases (is_secret pats (text s) name header)) [
      | inr open_value ↦ (text s, ground arith, rw plain refl, inr (inr (inr open_value)))
      | inl secret ↦ elim (Bool-cases (pats.keeps s)) [
        | inl kept ↦ (text s, ground arith, rw plain refl, inr (inr (inl kept)))
        | inr sealed_value ↦ (
          text (cipher.seal (text s)),
          ground arith,
          decrypt-seal (text s) works,
          inr (inl works.1),
        )
      ]
    ]
  ]

  -- A value that is sealed as a whole.
  whole_sealed :
      (v : Json) (name : String) (header : Bool)
      → Opens cipher v
      → encrypt pats cipher v name header ≡ some (text (cipher.seal v))
      → IsProtected v name header
  unfolding IsCovered
  whole_sealed v name header works done =
      (text (cipher.seal v), done, decrypt-seal v works, inr (inl works.1))

  mutual
    unfolding encrypt encrypt_items encrypt_fields is_secret decrypt decrypt_items decrypt_fields
        IsPlain ArePlain FieldsPlain IsCovered AreCovered FieldsCovered

    encrypt-IsProtected :
        (v : Json) (name : String) (header : Bool) → IsPlain cipher v → IsProtected v name header
    encrypt-IsProtected null name header plain = (null, refl, refl, tt)
    encrypt-IsProtected (literal s) name header plain =
        elim (Bool-cases (is_secret_name pats name header)) [
          | inl secret ↦ whole_sealed (literal s) name header plain (rw secret refl)
          | inr open_value ↦ (literal s, rw open_value refl, refl, open_value)
        ]
    encrypt-IsProtected (text s) name header plain =
        encrypt_text-IsProtected s name header plain.0 plain.1
    encrypt-IsProtected (array xs) name header plain =
        elim (Bool-cases (is_secret_name pats name header)) [
          | inl secret ↦
              whole_sealed (array xs) name header plain.0
                (rw (secret, decrypt_items-plain cipher xs plain.1) refl)
          | inr open_value ↦
              let (ws, done, back, covered) = encrypt_items-IsProtected xs name plain.1 in
              (array ws, rw (open_value, done) refl, rw back refl, (open_value, covered))
        ]
    encrypt-IsProtected (object fs) name header plain =
        elim (Bool-cases (is_secret_name pats name header)) [
          | inl secret ↦
              whole_sealed (object fs) name header plain.0
                (rw (secret, decrypt_fields-plain cipher fs plain.1) refl)
          | inr open_value ↦
              let (gs, done, back, covered) =
                encrypt_fields-IsProtected fs (pats.is_header_map name) plain.1 in
              (object gs, rw (open_value, done) refl, rw back refl, (open_value, covered))
        ]

    encrypt_items-IsProtected :
        (xs : Items) (name : String)
        → ArePlain cipher xs
        → (ws : Items) × (encrypt_items pats cipher xs name ≡ some ws)
          × (decrypt_items cipher ws ≡ some xs)
          × AreCovered ws name
    encrypt_items-IsProtected nil name plain = (nil, refl, refl, tt)
    encrypt_items-IsProtected (cons x xs) name plain =
        let (w, done, back, covered) = encrypt-IsProtected x name false plain.0 in
        let (ws, done', back', covered') = encrypt_items-IsProtected xs name plain.1 in
        (cons w ws, rw (done, done') refl, rw (back, back') refl, (covered, covered'))

    encrypt_fields-IsProtected :
        (fs : Fields) (header : Bool)
        → FieldsPlain cipher fs
        → (gs : Fields) × (encrypt_fields pats cipher fs header ≡ some gs)
          × (decrypt_fields cipher gs ≡ some fs)
          × FieldsCovered gs header
    encrypt_fields-IsProtected end header plain = (end, refl, refl, tt)
    encrypt_fields-IsProtected (field k v fs) header plain =
        let (w, done, back, covered) = encrypt-IsProtected v k header plain.0 in
        let (gs, done', back', covered') = encrypt_fields-IsProtected fs header plain.1 in
        (field k w gs, rw (done, done') refl, rw (back, back') refl, (covered, covered'))

  -- For a configuration in which no text is encrypted yet, and whose parts the cipher can seal and
  -- open again, encryption succeeds, decryption of the result gives the configuration back, and no
  -- secret stays readable: wherever the stored configuration has a value at a secret place, it is
  -- empty, an encrypted text or a reference to the environment that is kept.
  pub decrypt-encrypt :
      (v : Json) (name : String) (header : Bool) → IsPlain cipher v → IsProtected v name header
  decrypt-encrypt v name header plain = encrypt-IsProtected v name header plain
