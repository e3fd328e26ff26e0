-- ===== src/Registry/Auto/Suits.antt =====
-- What every entry of auto-routing's loops passed.
use mm_gateway.Prelude.{
  ℕ, ◌+◌, String, ◌≡◌, refl, ◌∙◌, ap, Bool, true, false, Option, none, some, List, [], ◌∷◌, ◌==◌,
  string_eq, option_eq, All, All-append, Bool-cases, inl, inr, arith,
}
use mm_gateway.Prelude.Int.{pos}
use mm_gateway.Prelude.Dict
use mm_gateway.Prelude.Sort.{Key}
use mm_gateway.Models.Limits.{lifecycle}
use mm_gateway.Models.Catalog.{Catalog, limits_for}
use mm_gateway.Router.{RequestProfile, score, fits}
use mm_gateway.Registry.{Backend, Registry, on_backend, serves_modality, modality_models}
use mm_gateway.Registry.Serving.{flag, tagged_with, tags_of}
use mm_gateway.Registry.Auto.{is_gone, untagged, fitting_models, fitting_in, fitting}

module _ {R : Type 0} (catalog : Catalog) (profile : RequestProfile) (modality : String)
    (limited : String → String → String → Bool) (health : String → String → String → ℕ)
    (r : Registry R) (tag : Option String) where
  -- The model fits and is not retired, and the backend has the tag that is asked for, if any.
  abbrev pub Suits : String → String → Type 0
  Suits name model =
      ((fits profile (limits_for model modality catalog)).0 ≡ true)
      × (is_gone (lifecycle (limits_for model modality catalog) catalog.today) ≡ false)
      × (untagged tag (tags_of r name) ≡ false)

  abbrev pub Entry : Key × String × String → Type 0
  Entry (static, name, model) = Suits name model

  fitting_models-All :
      (front : Key) (name : String) (b m : ℕ) (models : List String)
      → untagged tag (tags_of r name) ≡ false
      → All Entry (fitting_models catalog profile modality limited health r front name b m models)
  unfolding fitting_models score
  fitting_models-All front name b m [] tagged = tt
  fitting_models-All front name b m (model ∷ models) tagged =
      let lims = limits_for model modality catalog in
      let rest = fitting_models-All front name b (m + 1) models tagged in
      elim (Bool-cases (is_gone (lifecycle lims catalog.today))) [
        | inl over ↦ rw over rest
        | inr alive ↦ elim (Bool-cases (fits profile lims).0) [
          | inl fit ↦ rw (alive, fit) ((fit, alive, tagged), rest)
          | inr misfit ↦ rw (alive, misfit) rest
        ]
      ]

  tags_of_found :
      (name : String) (backend : Backend R)
      → Dict.get name r.backends ≡ some backend
      → tags_of r name ≡ backend.config.tags
  tags_of_found name backend found = ground arith

  fitting_in-All :
      (default default_tag : Option String) (name : String) (b : ℕ) (backend : Backend R)
      → Dict.get name r.backends ≡ some backend
      → All Entry (
          fitting_in catalog profile modality limited health r tag default default_tag name b
            backend)
  unfolding fitting_in
  fitting_in-All default default_tag name b backend found =
      elim (Bool-cases (serves_modality backend.provider modality)) [
        | inr other ↦ rw other tt
        | inl serves ↦ elim (Bool-cases (untagged tag backend.config.tags)) [
          | inl without ↦ rw (serves, without) tt
          | inr with_tag ↦
              rw (serves, with_tag)
                (fitting_models-All
                  (pos (flag (default == some name))
                    ∷ pos (flag (tagged_with default_tag backend.config.tags))
                    ∷ [])
                  name b 0 (modality_models backend.provider modality)
                  (ap (untagged tag) (tags_of_found name backend found) ∙ with_tag))
        ]
      ]

  at_backend-All :
      (default default_tag : Option String) (name : String) (b : ℕ) (o : Option (Backend R))
      → Dict.get name r.backends ≡ o
      → All Entry (elim o as (λ _. List (Key × String × String)) [
        | none ↦ []
        | some backend ↦
            fitting_in catalog profile modality limited health r tag default default_tag name b
              backend
      ])
  at_backend-All default default_tag name b none found = tt
  at_backend-All default default_tag name b (some backend) found =
      fitting_in-All default default_tag name b backend found

  pub fitting-All :
      (default default_tag : Option String) (b : ℕ) (names : List String)
      → All Entry
          (fitting catalog profile modality limited health r tag default default_tag b names)
  unfolding fitting
  fitting-All default default_tag b [] = tt
  fitting-All default default_tag b (name ∷ names) =
      All-append Entry
        (on_backend []
          (fitting_in catalog profile modality limited health r tag default default_tag name b) name
          r)
        (fitting catalog profile modality limited health r tag default default_tag (b + 1) names)
        (at_backend-All default default_tag name b (Dict.get name r.backends) refl)
        (fitting-All default default_tag (b + 1) names)
