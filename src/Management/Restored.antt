-- ===== src/Management/Restored.antt =====
-- Redaction followed by restoration: an unedited configuration comes back with its secrets.
use mm_gateway.Prelude.{
  String, ◌≡◌, ◌⊎◌, inl, inr, refl, Bool, false, some, ◌==◌, string_eq, Bool-cases, arith,
}
use mm_gateway.Secrets.{
  Json, null, literal, text, array, object, Items, nil, cons, Fields, end, field, Patterns,
  is_secret,
}
use mm_gateway.Management.{
  redacted, redact, redact_items, redact_fields, restore, restore_items, restore_fields, lookup,
  identity_of, by_identity, counterpart,
}

-- No text of the value is the marker.
unfoldable mutual
  pub IsClean : Json → Type 0
  IsClean null = Unit
  IsClean (literal s) = Unit
  IsClean (text s) = (s == redacted) ≡ false
  IsClean (array xs) = AreClean xs
  IsClean (object fs) = FieldsClean fs

  pub AreClean : Items → Type 0
  AreClean nil = Unit
  AreClean (cons x xs) = IsClean x × AreClean xs

  pub FieldsClean : Fields → Type 0
  FieldsClean end = Unit
  FieldsClean (field k v fs) = IsClean v × FieldsClean fs

mutual
  unfolding restore restore_items restore_fields IsClean AreClean FieldsClean

  restore-clean : (v previous : Json) → IsClean v → restore v previous ≡ some v
  restore-clean null previous h = refl
  restore-clean (literal s) previous h = refl
  restore-clean (text s) previous h = rw h refl
  restore-clean (array xs) previous h = rw (restore_items-clean xs _ h) refl
  restore-clean (object fs) previous h = rw (restore_fields-clean fs _ h) refl

  restore_items-clean : (xs old : Items) → AreClean xs → restore_items xs old ≡ some xs
  restore_items-clean nil old h = refl
  restore_items-clean (cons x xs) old h =
      rw (restore-clean x (counterpart x old) h.0, restore_items-clean xs old h.1) refl

  restore_fields-clean : (fs old : Fields) → FieldsClean fs → restore_fields fs old ≡ some fs
  restore_fields-clean end old h = refl
  restore_fields-clean (field k v fs) old h =
      rw (restore-clean v (lookup k old) h.0, restore_fields-clean fs old h.1) refl

module _ (pats : Patterns) where
  -- Every key leads to its value, and every item of a list is found again by an identity that
  -- redaction does not change, or has no identity and nothing in it that redaction touches.
  unfoldable mutual
    pub IsRestorable : Json → String → Bool → Type 0
    IsRestorable null name header = Unit
    IsRestorable (literal s) name header = Unit
    IsRestorable (text s) name header = Unit
    IsRestorable (array xs) name header = AreRestorable xs xs name
    IsRestorable (object fs) name header = FieldsRestorable fs fs (pats.is_header_map name)

    pub AreRestorable : Items → Items → String → Type 0
    AreRestorable whole nil name = Unit
    AreRestorable whole (cons x xs) name =
        (((i : String) × (identity_of (redact pats x name false) ≡ some i)
            × (by_identity i whole ≡ x)
            × IsRestorable x name false)
          ⊎ ((redact pats x name false ≡ x) × IsClean x))
        × AreRestorable whole xs name

    pub FieldsRestorable : Fields → Fields → Bool → Type 0
    FieldsRestorable whole end header = Unit
    FieldsRestorable whole (field k v fs) header =
        (lookup k whole ≡ v) × (IsRestorable v k header × FieldsRestorable whole fs header)

  counterpart_found :
      (y x : Json) (i : String) (whole : Items)
      → identity_of y ≡ some i
      → by_identity i whole ≡ x
      → counterpart y whole ≡ x
  unfolding counterpart
  counterpart_found y x i whole named found = rw (counterpart, named) found

  mutual
    unfolding redact redact_items redact_fields restore restore_items restore_fields IsRestorable
        AreRestorable FieldsRestorable

    comes_back :
        (v : Json) (name : String) (header : Bool)
        → IsRestorable v name header
        → restore (redact pats v name header) v ≡ some v
    comes_back null name header h = refl
    comes_back (literal s) name header h = ground arith
    comes_back (text s) name header h = ground arith
    comes_back (array xs) name header h =
        elim (Bool-cases (is_secret pats (array xs) name header)) [
          | inl secret ↦ rw secret refl
          | inr open_value ↦ rw (open_value, items_back xs xs name h) refl
        ]
    comes_back (object fs) name header h =
        elim (Bool-cases (is_secret pats (object fs) name header)) [
          | inl secret ↦ rw secret refl
          | inr open_value ↦ rw (open_value, fields_back fs fs (pats.is_header_map name) h) refl
        ]

    items_back :
        (whole xs : Items) (name : String)
        → AreRestorable whole xs name
        → restore_items (redact_items pats xs name) whole ≡ some xs
    items_back whole nil name h = refl
    items_back whole (cons x xs) name (inl (i, named, found, h), rest) =
        rw
          (
            counterpart_found (redact pats x name false) x i whole named found,
            comes_back x name false h,
            items_back whole xs name rest,
          )
          refl
    items_back whole (cons x xs) name (inr (same, clean), rest) =
        rw (same, restore-clean x (counterpart x whole) clean, items_back whole xs name rest) refl

    fields_back :
        (whole fs : Fields) (header : Bool)
        → FieldsRestorable whole fs header
        → restore_fields (redact_fields pats fs header) whole ≡ some fs
    fields_back whole end header h = refl
    fields_back whole (field k v fs) header h =
        rw (h.0, comes_back v k header h.1.0, fields_back whole fs header h.1.1) refl

  -- A configuration that an administrator reads and sends back unedited comes back with its
  -- secrets: restoring its redacted form against itself gives it. In every object a key has one
  -- value; each item of a list is found again by an identity that redaction leaves alone, or has
  -- nothing in it that redaction touches or that looks redacted.
  pub restore-redact :
      (v : Json) (name : String) (header : Bool)
      → IsRestorable v name header
      → restore (redact pats v name header) v ≡ some v
  restore-redact v name header h = comes_back v name header h
