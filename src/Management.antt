-- ===== src/Management.antt =====
-- mm_gateway/management.py: what an administrator sees of the running configuration (`_redact`), how the
-- secrets of an edited one are put back (`_restore`), and its publication under a revision. A missing
-- value is `null`, as `dict.get` has it. Names, ids, domains and base URLs are texts in the schema.
pub mod Hidden
pub mod Restored
pub mod Service
pub mod Revisions
pub mod Stored
use mm_gateway.Prelude.{
  String, Bool, true, false, Option, none, some, ◌==◌, string_eq, option_eq, if◌then◌else◌,
}
use mm_gateway.Secrets.{
  Json, null, literal, text, array, object, Items, nil, cons, Fields, end, field, Patterns,
  is_secret, map_option, both,
}

abbrev pub redacted : String
redacted = "[redacted]"

module _ (pats : Patterns) where
  unfoldable mutual
    unfolding is_secret

    pub redact : Json → String → Bool → Json
    redact null name header = null
    redact (literal s) name header =
        if is_secret pats (literal s) name header then text redacted else literal s
    redact (text s) name header =
        if s == ""
        then text s
        else if is_secret pats (text s) name header
        then text redacted
        else text s
    redact (array xs) name header =
        if is_secret pats (array xs) name header
        then text redacted
        else array (redact_items xs name)
    redact (object fs) name header =
        if is_secret pats (object fs) name header
        then text redacted
        else object (redact_fields fs (pats.is_header_map name))

    pub redact_items : Items → String → Items
    redact_items nil name = nil
    redact_items (cons x xs) name = cons (redact x name false) (redact_items xs name)

    pub redact_fields : Fields → Bool → Fields
    redact_fields end header = end
    redact_fields (field k v fs) header = field k (redact v k header) (redact_fields fs header)

-- d.get(k)
abbrev pub lookup : String → Fields → Json
lookup k end = null
lookup k (field j v fs) = if j == k then v else lookup k fs

abbrev pub text_or_none : Json → Option String
text_or_none (text s) = if s == "" then none else some s
text_or_none _ = none

abbrev pub or_else : Option String → Option String → Option String
or_else none b = b
or_else (some s) b = some s

unfoldable pub identity : Fields → Option String
identity fs = or_else (text_or_none (lookup "name" fs)) (
    or_else (text_or_none (lookup "id" fs))
      (or_else (text_or_none (lookup "domain" fs)) (text_or_none (lookup "base_url" fs))))

abbrev pub identity_of : Json → Option String
identity_of (object fs) = identity fs
identity_of _ = none

abbrev pub unless_null : Json → Json → Json
unless_null null v = v
unless_null w v = w

-- old_by_id.get(i): of the dictionaries with an identity, the last one counts
unfoldable pub by_identity : String → Items → Json
unfolding identity
by_identity i nil = null
by_identity i (cons x xs) =
    unless_null (by_identity i xs) (if identity_of x == some i then x else null)

-- The value before the edit that an item of a list belongs to.
unfoldable pub counterpart : Json → Items → Json
unfolding identity by_identity
counterpart x old = elim (identity_of x) [ none ↦ null | some i ↦ by_identity i old ]

abbrev pub items_of : Json → Items
items_of (array xs) = xs
items_of _ = nil

abbrev pub fields_of : Json → Fields
fields_of (object fs) = fs
fields_of _ = end

-- There is no secret to keep where there was no value.
abbrev pub kept : Json → Option Json
kept null = none
kept v = some v

unfoldable mutual
  unfolding counterpart

  pub restore : Json → Json → Option Json
  restore null previous = some null
  restore (literal s) previous = some (literal s)
  restore (text s) previous = if s == redacted then kept previous else some (text s)
  restore (array xs) previous = map_option array (restore_items xs (items_of previous))
  restore (object fs) previous = map_option object (restore_fields fs (fields_of previous))

  pub restore_items : Items → Items → Option Items
  restore_items nil old = some nil
  restore_items (cons x xs) old = both cons (restore x (counterpart x old)) (restore_items xs old)

  pub restore_fields : Fields → Fields → Option Fields
  restore_fields end old = some end
  restore_fields (field k v fs) old =
      both (field k) (restore v (lookup k old)) (restore_fields fs old)
