-- ===== src/Management/Service.antt =====
-- `ManagementService` of mm_gateway/management.py: reading, replacing and editing the configuration.
-- The running settings are kept as the configuration that `config_from_settings` reads from them, which is
-- the canonical form of the accepted one. Arguments: the schema (`validate` is None where pydantic or
-- json.dumps refuses), the building of the registry (`prepare` gives the error it ends with), the host of a
-- URL and `str.lower`. Validating an accepted configuration once more changes nothing, and is left out. The lock makes each operation
-- one step; a cancelled caller does not stop a publication, so nothing is left out by that.
use mm_gateway.Prelude.{
  ℕ, String, Bool, true, false, ◌||◌, not, Option, none, some, [], ◌∷◌, ◌==◌, string_eq, nat_eq,
  option_eq, if◌then◌else◌,
}
use mm_gateway.Schemas.{Text}
use mm_gateway.Secrets.{
  Json, null, text, array, object, Items, nil, cons, Fields, end, field, Patterns, Cipher, encrypt,
}
use mm_gateway.Management.{redact, lookup, restore, items_of, text_or_none}

pub record ManagementService : Type 0 where
  pub revision : Text
  pub config : Json
  -- `management_config_path` is set
  pub persistent : Bool
  -- the contents of that file
  pub stored : Option Json

pub data Refusal : Type 0 where
  precondition_required precondition_failed invalid_config not_found : Refusal
  schema_error config_write_failed : Refusal
  backend_error : String → Refusal

-- What one call meets: the next `uuid4().hex`, and whether the file can be written.
pub record Circumstances : Type 0 where
  pub fresh : Text
  pub writes : Bool

pub record Configuration : Type 0 where
  pub revision : Text
  pub persistent : Bool
  pub config : Json

pub data Reply : Type 0 where
  refused : Refusal → Reply
  answered : Configuration → Reply

abbrev pub set_field : String → Json → Fields → Fields
set_field k v end = field k v end
set_field k v (field j w fs) = if j == k then field j v fs else field j w (set_field k v fs)

-- Alias names are public, even those that look like the name of a secret.
abbrev pub keep_aliases : Json → Json → Json
keep_aliases (object fs) (object gs) =
    object (set_field "model_aliases" (lookup "model_aliases" gs) fs)
keep_aliases v w = v

abbrev pub keep_all_aliases : Items → Items → Items
keep_all_aliases (cons x xs) (cons y ys) = cons (keep_aliases x y) (keep_all_aliases xs ys)
keep_all_aliases xs ys = xs

abbrev pub with_backends : Json → Json → Json
with_backends (object fs) (object gs) = object (
    set_field "backends"
      (array (keep_all_aliases (items_of (lookup "backends" fs)) (items_of (lookup "backends" gs))))
      fs)
with_backends v w = v

-- text.strip('"')
abbrev pub is_quote : ℕ → Bool
is_quote c = c == b'"'

abbrev pub skip_quotes : Text → Text
skip_quotes [] = []
skip_quotes (c ∷ cs) = let rest = skip_quotes cs in if is_quote c then rest else c ∷ cs

abbrev pub drop_quotes : Text → Text
drop_quotes [] = []
drop_quotes (c ∷ cs) = elim (drop_quotes cs) [
  | [] ↦ if is_quote c then [] else c ∷ []
  | d ∷ ds ↦ c ∷ d ∷ ds
]

abbrev pub strip_quotes : Text → Text
strip_quotes t = skip_quotes (drop_quotes t)

abbrev pub same_text : Text → Text → Bool
same_text [] [] = true
same_text (a ∷ as') (b ∷ bs) = if a == b then same_text as' bs else false
same_text _ _ = false

unfoldable pub check_revision : Option Text → ManagementService → Option Refusal
check_revision none s = some precondition_required
check_revision (some []) s = some precondition_required
check_revision (some (c ∷ cs)) s =
    if same_text (strip_quotes (c ∷ cs)) s.revision then none else some precondition_failed

-- How one entry of a section is found, replaced, added or taken out.
module _ (matches : Json → Bool) where
  abbrev pub any_entry : Items → Bool
  any_entry nil = false
  any_entry (cons x xs) = matches x || any_entry xs

  abbrev pub replace_entry : Json → Items → Items
  replace_entry item nil = nil
  replace_entry item (cons x xs) = cons (if matches x then item else x) (replace_entry item xs)

  abbrev pub append_entry : Json → Items → Items
  append_entry item nil = cons item nil
  append_entry item (cons x xs) = cons x (append_entry item xs)

  unfoldable pub put_entry : Json → Items → Items
  put_entry item xs =
      if any_entry xs then replace_entry item xs else append_entry item (replace_entry item xs)

  unfoldable pub remove_entry : Items → Items
  remove_entry nil = nil
  remove_entry (cons x xs) = let rest = remove_entry xs in if matches x then rest else cons x rest

  unfoldable pub edit_entries : Option Json → Items → Option Items
  unfolding put_entry remove_entry
  edit_entries none xs = if any_entry xs then some (remove_entry xs) else none
  edit_entries (some item) xs = some (put_entry item xs)

-- the value of a text field
abbrev pub text_at : String → Json → Option String
text_at key (object fs) = text_or_none (lookup key fs)
text_at key _ = none

module _ (host_of : String → Option String) (lower : String → String) where
  abbrev pub host_at : Option String → Option String
  host_at none = none
  host_at (some url) = host_of url

  unfoldable pub matches_entry : String → String → Json → Bool
  matches_entry section id entry =
      if section == "proxies"
      then host_at (text_at "base_url" entry) == some (lower id)
      else text_at (if section == "backends" then "name" else "id") entry == some id

  abbrev pub mismatched : String → String → Option Json → Bool
  mismatched section id none = false
  mismatched section id (some item) = not (matches_entry section id item)

abbrev pub fields_with : String → Items → Json → Json
fields_with section xs (object fs) = object (set_field section (array xs) fs)
fields_with section xs v = v

abbrev pub section_of : String → Json → Items
section_of section (object fs) = items_of (lookup section fs)
section_of section _ = nil

-- `config_from_settings` of the settings that `settings_from_config` makes from a configuration: a proxy's
-- domain is always its host, and an empty key of a credential is None.
abbrev pub alter_field : String → (Json → Json) → Fields → Fields
alter_field k f end = end
alter_field k f (field j v fs) = if j == k then field j (f v) fs else field j v (alter_field k f fs)

abbrev pub alter_at : String → (Json → Json) → Json → Json
alter_at k f (object fs) = object (alter_field k f fs)
alter_at k f v = v

abbrev pub alter_items : (Json → Json) → Items → Items
alter_items f nil = nil
alter_items f (cons x xs) = cons (f x) (alter_items f xs)

abbrev pub alter_each : (Json → Json) → Json → Json
alter_each f (array xs) = array (alter_items f xs)
alter_each f v = v

abbrev pub null_if_empty : Json → Json
null_if_empty (text s) = if s == "" then null else text s
null_if_empty v = v

module _ (host_of : String → Option String) (lower : String → String) where
  -- (urlparse(base_url).hostname or base_url).lower()
  abbrev pub proxy_host : String → String
  proxy_host url = lower (elim (host_of url) [ none ↦ url | some host ↦ host ])

  abbrev pub domain_from : Json → Json → Json
  domain_from (text url) domain = text (proxy_host url)
  domain_from v domain = domain

  abbrev pub with_domain : Json → Json
  with_domain (object fs) = object (alter_field "domain" (domain_from (lookup "base_url" fs)) fs)
  with_domain v = v

  unfoldable pub canonical : Json → Json
  canonical config = alter_at "proxies" (alter_each with_domain) (
      alter_at "backends"
        (alter_each (alter_at "credentials" (alter_each (alter_at "api_key" null_if_empty))))
        config)

module _ (pats : Patterns) (cipher : Cipher) (validate : Json → Option Json)
    (prepare : Json → Json → Option Refusal) (host_of : String → Option String)
    (lower : String → String) where
  unfoldable pub configuration : ManagementService → Configuration
  configuration s = record {
    revision = s.revision;
    persistent = s.persistent;
    config = with_backends (redact pats s.config "" false) s.config;
  }

  abbrev pub installed : ManagementService → Json → Option Json → Text → ManagementService
  installed s config stored fresh = record s {
    revision = fresh;
    config = canonical host_of lower config;
    stored = stored;
  }

  abbrev pub done : ManagementService → ManagementService × Reply
  done s = (s, answered (configuration s))

  -- `_publish`: the file first, then the running configuration
  unfoldable pub publish : Circumstances → Json → ManagementService → ManagementService × Reply
  unfolding configuration canonical
  publish now config s =
      if s.persistent
      then (elim (encrypt pats cipher config "" false) [
        | none ↦ (s, refused config_write_failed)
        | some w ↦
            if now.writes
            then done (installed s config (some w) now.fresh)
            else (s, refused config_write_failed)
      ])
      else done (installed s config s.stored now.fresh)

  unfoldable pub apply : Circumstances → Json → ManagementService → ManagementService × Reply
  unfolding publish
  apply now incoming s = elim (restore incoming s.config) [
    | none ↦ (s, refused invalid_config)
    | some merged ↦ elim (validate merged) [
      | none ↦ (s, refused invalid_config)
      | some config ↦ elim (prepare s.config config) [
        | some problem ↦ (s, refused problem)
        | none ↦ publish now config s
      ]
    ]
  ]

  unfoldable pub update :
      Circumstances → Json → Option Text → ManagementService → ManagementService × Reply
  unfolding apply check_revision
  update now incoming if_match s = elim (check_revision if_match s) [
    | some problem ↦ (s, refused problem)
    | none ↦ apply now incoming s
  ]

  unfoldable pub update_resource :
      Circumstances
      → String
      → String
      → Option Json
      → Option Text
      → ManagementService
      → ManagementService × Reply
  unfolding apply check_revision edit_entries matches_entry
  update_resource now section id value if_match s = elim (check_revision if_match s) [
    | some problem ↦ (s, refused problem)
    | none ↦
        if mismatched host_of lower section id value
        then (s, refused invalid_config)
        else (elim (edit_entries (matches_entry host_of lower section id) value
            (section_of section s.config)) [
              | none ↦ (s, refused not_found)
              | some xs ↦ elim (validate (fields_with section xs s.config)) [
                | none ↦ (s, refused schema_error)
                | some incoming ↦ apply now incoming s
              ]
            ])
  ]
