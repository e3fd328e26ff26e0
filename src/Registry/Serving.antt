-- ===== src/Registry/Serving.antt =====
-- The backends that serve a pinned model in the order of preference, and the one that `resolve` takes.
use mm_gateway.Prelude.{
  ℕ, ◌+◌, String, Bool, true, false, Option, none, some, List, [], ◌∷◌, ◌==◌, string_eq, nat_eq,
  option_eq, contains, keep, if◌then◌else◌,
}
use mm_gateway.Prelude.Int.{pos}
use mm_gateway.Prelude.Dict
use mm_gateway.Prelude.Sort.{Key, sort_by}
use mm_gateway.Config.{KeyConfig}
use mm_gateway.Registry.{
  Provider, Registry, RouteError, forbidden, model_not_found, profile_unavailable, no_texts, usable,
  resolve_model_id, serves, serves_modality, key_default_backend, key_default_tag, on_backend,
  modality_models,
}

pub data Outcome (A : Type 0) : Type 0 where
  found : A → Outcome A
  refused : RouteError → Outcome A

abbrev pub flag : Bool → ℕ
flag true = 0
flag false = 1

-- candidates.index(name)
abbrev pub index_of : String → List String → ℕ
index_of name [] = 0
index_of name (n ∷ ns) = if n == name then 0 else index_of name ns + 1

-- default_tag and default_tag in tags
abbrev pub tagged_with : Option String → List String → Bool
tagged_with none tags = false
tagged_with (some t) tags = contains tags t

module _ {R : Type 0} where
  abbrev pub tags_of : Registry R → String → List String
  tags_of r name = on_backend [] (λ b. b.config.tags) name r

  abbrev pub rank :
      Registry R → Option String → Option String → Option String → List String → String → Key
  rank r pin default default_tag candidates name =
      pos (flag (pin == some name))
      ∷ pos (flag (default == some name))
      ∷ pos (flag (tagged_with default_tag (tags_of r name)))
      ∷ pos (index_of name candidates)
      ∷ []

  abbrev pub serving :
      Option String
      → Option String
      → String
      → String
      → Option String
      → List String
      → Registry R
      → List String
  serving alias_backend alias_type real modality pin usable r =
      keep (λ n. on_backend false (λ b. serves alias_backend alias_type real modality pin n b) n r)
        usable

  abbrev pub in_order :
      Option KeyConfig → String → Option String → Registry R → List String → List String
  in_order key modality pin r candidates =
      sort_by
        (rank r pin (key_default_backend key modality) (key_default_tag key modality) candidates)
        candidates

  unfoldable pub backends_serving :
      (String → Option (String × String))
      → String
      → Option KeyConfig
      → String
      → Option String
      → Registry R
      → Outcome (String × List String)
  backends_serving split model key modality pin r = elim (usable key r) [
    | none ↦ refused forbidden
    | some us ↦
        let (alias_type, real) = resolve_model_id split model us r in
        let candidates =
          serving (Dict.get model r.alias_backends) alias_type real modality pin us r in
        if no_texts candidates
        then refused model_not_found
        else found (real, in_order key modality pin r candidates)
  ]

  unfoldable pub usable_for_modality :
      Option KeyConfig → String → Option String → Registry R → Option (List String)
  unfolding serves_modality
  usable_for_modality key modality pin r = elim (usable key r) [
    | none ↦ none
    | some us ↦ some (
        keep (λ n. on_backend false (λ b. serves_modality b.provider modality) n r)
          (elim pin [ none ↦ us | some p ↦ if contains us p then p ∷ [] else us ]))
  ]

  unfoldable pub models_of : Registry R → String → String → List String
  models_of r name modality = on_backend [] (λ b. modality_models b.provider modality) name r

  unfoldable pub accounts_of : Registry R → String → List (String × Provider R)
  accounts_of r name = on_backend [] (λ b. b.accounts) name r

  abbrev pub with_tag : Registry R → String → List String → List String
  with_tag r tag = keep (λ n. contains (tags_of r n) tag)

-- The defaults as `resolve` reads them.
unfoldable pub resolve_default_backend : Option KeyConfig → String → Option String
resolve_default_backend none modality = none
resolve_default_backend (some key) modality =
    if modality == "image"
    then key.default_image_backend
    else if modality == "audio"
    then key.default_audio_backend
    else if modality == "music"
    then key.default_music_backend
    else key.default_video_backend

unfoldable pub resolve_default_tag : Option KeyConfig → String → Option String
resolve_default_tag none modality = none
resolve_default_tag (some key) modality =
    if modality == "image"
    then key.default_image_tag
    else if modality == "audio"
    then key.default_audio_tag
    else if modality == "music"
    then key.default_music_tag
    else key.default_video_tag

abbrev pub first_or : List String → String → String
first_or [] default = default
first_or (t ∷ ts) default = t

-- The option, if it is one of the names.
abbrev pub listed : Option String → List String → Option String
listed none ns = none
listed (some n) ns = if contains ns n then some n else none

module _ {R : Type 0} where
  -- The choice among candidates without a routing tag; `c` is the first candidate.
  unfoldable pub choose_default :
      Registry R → Option String → Option String → String → List String → String
  choose_default r default default_tag c cs = elim (listed default (c ∷ cs)) [
    | some d ↦ d
    | none ↦ elim default_tag [ none ↦ c | some t ↦ first_or (with_tag r t (c ∷ cs)) c ]
  ]

  unfoldable pub choose :
      Registry R
      → Option String
      → Option String
      → Option String
      → Option String
      → String
      → List String
      → Outcome String
  unfolding choose_default
  choose r pin tag default default_tag c cs = elim (listed pin (c ∷ cs)) [
    | some p ↦ found p
    | none ↦ elim tag [
      | none ↦ found (choose_default r default default_tag c cs)
      | some t ↦ elim (with_tag r t (c ∷ cs)) [
        | [] ↦ refused profile_unavailable
        | n ∷ ns ↦ found n
      ]
    ]
  ]

  -- `resolve` of an explicit model: the backend and the real model.
  unfoldable pub resolve :
      (String → Option (String × String))
      → String
      → Option KeyConfig
      → String
      → Option String
      → Option String
      → Registry R
      → Outcome (String × String)
  unfolding choose resolve_default_backend resolve_default_tag
  resolve split model key modality tag pin r =
      elim (backends_serving split model key modality pin r) [
        | refused e ↦ refused e
        | found (real, candidates) ↦ elim candidates [
          | [] ↦ refused model_not_found
          | c ∷ cs ↦
              elim (choose r pin tag (resolve_default_backend key modality)
                (resolve_default_tag key modality) c cs) [
                  | refused e ↦ refused e
                  | found n ↦ found (real, n)
                ]
        ]
      ]
