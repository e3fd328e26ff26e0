-- ===== src/Registry/Auto.antt =====
-- `resolve_auto`, `enumerate_auto_candidates` and `_rank_auto_candidates` of mm_gateway/registry.py. The two
-- first have the same loops. The readings of the selection store are arguments.
pub mod Suits
pub mod Best
use mm_gateway.Prelude.{
  ℕ, ◌+◌, String, ◌≡◌, refl, Bool, true, false, ◌&&◌, ◌||◌, not, Option, none, some, List, [], ◌∷◌,
  ◌++◌, ◌==◌, string_eq, option_eq, contains, is_some, All, All-append, if◌then◌else◌, Bool-cases,
  Option-cases, inl, inr, arith, subst,
}
use mm_gateway.Prelude.Int.{pos, neg}
use mm_gateway.Prelude.Dict
use mm_gateway.Prelude.Sort.{Key, lt_key, sort_by, sort_by-All, sort_by-IsSorted, IsSorted}
use mm_gateway.Config.{KeyConfig}
use mm_gateway.Models.Limits.{Lifecycle, active, deprecated, retired, lifecycle}
use mm_gateway.Models.Catalog.{Catalog, limits_for}
use mm_gateway.Router.{RequestProfile, score, fits}
use mm_gateway.Registry.{
  Backend, Registry, usable, on_backend, serves_modality, modality_models, key_default_backend,
  key_default_tag,
}
use mm_gateway.Registry.Serving.{flag, tagged_with, tags_of, accounts_of}

pub record AutoCandidate : Type 0 where
  pub rank : Key
  pub account : String
  pub model : String
  pub backend : String

pub data AutoOutcome (A : Type 0) : Type 0 where
  chosen : A → AutoOutcome A
  forbidden : AutoOutcome A
  unserviceable : AutoOutcome A

abbrev pub is_gone : Lifecycle → Bool
is_gone life = elim life [ active ↦ false | deprecated ↦ false | retired ↦ true ]

-- A tag is asked for, and the backend does not have it.
abbrev pub untagged : Option String → List String → Bool
untagged none tags = false
untagged (some t) tags = not (t == "") && not (contains tags t)

-- if backend_name and backend_name in usable: usable = [backend_name]
abbrev pub pinned_to : Option String → List String → List String
pinned_to none names = names
pinned_to (some b) names = if contains names b then b ∷ [] else names

module _ {R : Type 0} (catalog : Catalog) (profile : RequestProfile) (modality : String)
    (limited : String → String → String → Bool) (health : String → String → String → ℕ)
    (r : Registry R) where
  unfoldable pub fitting_models : Key → String → ℕ → ℕ → List String → List (Key × String × String)
  unfolding score
  fitting_models front name b m [] = []
  fitting_models front name b m (model ∷ models) =
      let rest = fitting_models front name b (m + 1) models in
      let lims = limits_for model modality catalog in
      let s = score profile lims b m in
      if is_gone (lifecycle lims catalog.today)
      then rest
      else if s.fits
      then (front ++ (neg s.optional_hits ∷ pos b ∷ pos m ∷ []), name, model) ∷ rest
      else rest

  unfoldable pub fitting_in :
      Option String
      → Option String
      → Option String
      → String
      → ℕ
      → Backend R
      → List (Key × String × String)
  unfolding fitting_models serves_modality modality_models
  fitting_in tag default default_tag name b backend =
      if not (serves_modality backend.provider modality) || untagged tag backend.config.tags
      then []
      else fitting_models
          (pos (flag (default == some name))
            ∷ pos (flag (tagged_with default_tag backend.config.tags))
            ∷ [])
          name b 0 (modality_models backend.provider modality)

  unfoldable pub fitting :
      Option String → Option String → Option String → ℕ → List String → List (Key × String × String)
  unfolding fitting_in Dict.get
  fitting tag default default_tag b [] = []
  fitting tag default default_tag b (name ∷ names) =
      on_backend [] (fitting_in tag default default_tag name b) name r
      ++ fitting tag default default_tag (b + 1) names

  -- One candidate for each account of the backend.
  abbrev pub per_account :
      {P : Type 0} → Key → String → String → List (String × P) → List AutoCandidate
  per_account static name model [] = []
  per_account static name model ((account, p) ∷ rest) =
      record {
        rank =
            pos (flag (not (limited name account model)))
            ∷ neg (health name account model)
            ∷ static;
        account = account;
        model = model;
        backend = name;
      }
      ∷ per_account static name model rest

  unfoldable pub expand : List (Key × String × String) → List AutoCandidate
  expand [] = []
  expand ((static, name, model) ∷ rest) =
      per_account static name model (accounts_of r name) ++ expand rest

  unfoldable pub rank_auto_candidates : List (Key × String × String) → List AutoCandidate
  unfolding expand
  rank_auto_candidates scored = sort_by (λ (c : AutoCandidate). c.rank) (expand scored)

  unfoldable pub enumerate_auto_candidates :
      Option KeyConfig → Option String → Option String → AutoOutcome (List AutoCandidate)
  unfolding fitting rank_auto_candidates key_default_backend key_default_tag usable
  enumerate_auto_candidates key tag backend_name = elim (usable key r) [
    | none ↦ forbidden
    | some names ↦ chosen (
        rank_auto_candidates (
          sort_by (λ (t : Key × String × String). t.0)
            (fitting tag (key_default_backend key modality) (key_default_tag key modality) 0
              (pinned_to backend_name names))))
  ]

  abbrev pub first_candidate : List AutoCandidate → AutoOutcome AutoCandidate
  first_candidate [] = unserviceable
  first_candidate (c ∷ cs) = chosen c

  -- if not scored: raise; scored.sort(...); candidates = ...; if not candidates: raise; candidates[0]
  unfoldable pub resolve_scored : List (Key × String × String) → AutoOutcome AutoCandidate
  unfolding rank_auto_candidates
  resolve_scored [] = unserviceable
  resolve_scored (x ∷ xs) =
      first_candidate (rank_auto_candidates (sort_by (λ (t : Key × String × String). t.0) (x ∷ xs)))

  unfoldable pub resolve_auto :
      Option KeyConfig → Option String → Option String → AutoOutcome AutoCandidate
  unfolding fitting resolve_scored key_default_backend key_default_tag usable
  resolve_auto key tag backend_name = elim (usable key r) [
    | none ↦ forbidden
    | some names ↦ resolve_scored (
        fitting tag (key_default_backend key modality) (key_default_tag key modality) 0
          (pinned_to backend_name names))
  ]
