-- ===== src/Management/Hidden.antt =====
-- Redaction shows no secret.
use mm_gateway.Prelude.{
  String, ◌≡◌, ◌⊎◌, inl, inr, refl, Bool, false, ◌==◌, string_eq, Bool-cases, eq_iff,
}
use mm_gateway.Secrets.{
  Json, null, literal, text, array, object, Items, nil, cons, Fields, end, field, Patterns,
  is_secret,
}
use mm_gateway.Management.{redacted, redact, redact_items, redact_fields}

module _ (pats : Patterns) where
  -- At a secret place there is nothing, an empty text or the marker.
  mutual
    pub IsHidden : Json → String → Bool → Type 0
    IsHidden null name header = Unit
    IsHidden (literal s) name header = is_secret pats (literal s) name header ≡ false
    IsHidden (text s) name header =
        (s ≡ "") ⊎ ((s ≡ redacted) ⊎ (is_secret pats (text s) name header ≡ false))
    IsHidden (array xs) name header =
        (is_secret pats (array xs) name header ≡ false) × AreHidden xs name
    IsHidden (object fs) name header =
        (is_secret pats (object fs) name header ≡ false) × FieldsHidden fs (pats.is_header_map name)

    pub AreHidden : Items → String → Type 0
    AreHidden nil name = Unit
    AreHidden (cons x xs) name = IsHidden x name false × AreHidden xs name

    pub FieldsHidden : Fields → Bool → Type 0
    FieldsHidden end header = Unit
    FieldsHidden (field k v fs) header = IsHidden v k header × FieldsHidden fs header

  mutual
    unfolding redact redact_items redact_fields IsHidden AreHidden FieldsHidden

    hides :
        (v : Json) (name : String) (header : Bool)
        → IsHidden (redact pats v name header) name header
    hides null name header = tt
    hides (literal s) name header = elim (Bool-cases (is_secret pats (literal s) name header)) [
      | inl secret ↦ rw secret (inr (inl refl))
      | inr open_value ↦ rw open_value open_value
    ]
    hides (text s) name header = elim (Bool-cases (s == "")) [
      | inl empty ↦ rw empty (inl ((eq_iff s "").0 empty))
      | inr given ↦ elim (Bool-cases (is_secret pats (text s) name header)) [
        | inl secret ↦ rw (given, secret) (inr (inl refl))
        | inr open_value ↦ rw (given, open_value) (inr (inr open_value))
      ]
    ]
    hides (array xs) name header = elim (Bool-cases (is_secret pats (array xs) name header)) [
      | inl secret ↦ rw secret (inr (inl refl))
      | inr open_value ↦ rw open_value (open_value, items_hidden xs name)
    ]
    hides (object fs) name header = elim (Bool-cases (is_secret pats (object fs) name header)) [
      | inl secret ↦ rw secret (inr (inl refl))
      | inr open_value ↦ rw open_value (open_value, fields_hidden fs (pats.is_header_map name))
    ]

    items_hidden : (xs : Items) (name : String) → AreHidden (redact_items pats xs name) name
    items_hidden nil name = tt
    items_hidden (cons x xs) name = (hides x name false, items_hidden xs name)

    fields_hidden :
        (fs : Fields) (header : Bool) → FieldsHidden (redact_fields pats fs header) header
    fields_hidden end header = tt
    fields_hidden (field k v fs) header = (hides v k header, fields_hidden fs header)

  -- Redaction shows no secret: wherever the redacted value still has a value at a place that is
  -- secret by its name or by its text, it is null, an empty text or the marker.
  pub redact-IsHidden :
      (v : Json) (name : String) (header : Bool) → IsHidden (redact pats v name header) name header
  redact-IsHidden v name header = hides v name header
