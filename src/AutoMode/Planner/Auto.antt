-- ===== src/AutoMode/Planner/Auto.antt =====
-- The candidates that the gateway chooses: `order_key` and `auto_candidates` of mm_gateway/auto_mode.py.
use mm_gateway.Prelude.{
  ℕ, ◌+◌, String, not, Option, none, some, List, [], ◌∷◌, ◌++◌, ◌==◌, string_eq, nat_eq, option_eq,
  is_some, if◌then◌else◌,
}
use mm_gateway.Prelude.Int.{pos, neg, opposite}
use mm_gateway.Prelude.Sort.{Key, sort_by}
use mm_gateway.Models.Limits.{Lifecycle, active, deprecated, retired, lifecycle}
use mm_gateway.Models.Catalog.{limits_for}
use mm_gateway.Router.{score}
use mm_gateway.Registry.{Provider, key_default_backend, key_default_tag}
use mm_gateway.Registry.Serving.{
  usable_for_modality, models_of, tags_of, accounts_of, tagged_with, flag,
}
use mm_gateway.AutoMode.Plan
use mm_gateway.AutoMode.Plan.{
  RoutingPolicy, Candidate, Exclusion, ExclusionReason, balanced_mode, cost_mode, latency_mode,
  limits, max_cost, unpriced, budget, same_reason, auto_kind,
}
use mm_gateway.AutoMode.Planner.{
  Health, Planner, Planning, admitted, denied, excludes, amount_of, is_retired, estimate,
  audio_candidate_ok, admit, tag_ok,
}

abbrev pub neutral_latency : ℕ
neutral_latency = 5000000

abbrev pub is_deprecated : Lifecycle → ℕ
is_deprecated life = elim life [ active ↦ 0 | deprecated ↦ 1 | retired ↦ 0 ]

module _ {R : Type 0} (planner : Planner R) where
  -- The static part of the key is a tuple at the end, so its parts are appended.
  unfoldable pub order_key : Key → Option ℕ → Lifecycle → Health → Key
  order_key static est life h = elim planner.policy.optimize [
    | cost_mode ↦
        pos (flag (not h.rate_limited))
        ∷ pos (flag (is_some est))
        ∷ pos (amount_of est)
        ∷ pos (is_deprecated life)
        ∷ opposite h.score
        ∷ static
    | latency_mode ↦
        pos (flag (not h.rate_limited))
        ∷ pos (elim h.latency [ none ↦ neutral_latency | some t ↦ t ])
        ∷ opposite h.score
        ∷ static
    | balanced_mode ↦ pos (flag (not h.rate_limited)) ∷ opposite h.score ∷ static
  ]

  abbrev pub static_key : String → ℕ → Lifecycle → ℕ → ℕ → Key
  static_key name hits life b m =
      pos (flag (key_default_backend planner.key planner.modality == some name))
      ∷ pos (
          flag (
            tagged_with (key_default_tag planner.key planner.modality)
              (tags_of planner.registry name)))
      ∷ neg hits
      ∷ pos (is_deprecated life)
      ∷ pos b
      ∷ pos m
      ∷ []

  -- The candidates of an admitted model, one for each account of its backend.
  unfoldable pub auto_accounts :
      String
      → String
      → Option ℕ
      → Lifecycle
      → Key
      → List (String × Provider R)
      → Planning
      → Planning × List Candidate
  unfolding audio_candidate_ok order_key
  auto_accounts name model est life static [] p = (p, [])
  auto_accounts name model est life static ((account, provider) ∷ rest) p =
      let (q, ok) = audio_candidate_ok planner name account provider model p in
      let (done, more) = auto_accounts name model est life static rest q in
      if ok
      then (
        done,
        record {
          account_id = account;
          model = model;
          backend = name;
          kind = auto_kind;
          estimate = est;
          lifecycle = life;
          sort_key = order_key static est life (planner.health name account model);
        }
            ∷ more,
      )
      else (done, more)

  -- One model of a backend: excluded, or its candidates.
  unfoldable pub auto_model :
      Option String → String → ℕ → ℕ → String → Planning → Planning × List Candidate
  unfolding auto_accounts admit estimate
  auto_model skip name b m model p =
      let lims = limits_for model planner.modality planner.catalog in
      let fit = score planner.request.profile lims b m in
      let life = lifecycle lims planner.catalog.today in
      if skip == some model
      then (p, [])
      else if not fit.fits
      then (excludes model limits none life p, [])
      else if is_retired life
      then (excludes model Plan.retired (estimate planner model lims) life p, [])
      else let (q, admission) = admit planner model lims p in
        elim admission [
          | denied est reason ↦ (excludes model reason est life q, [])
          | admitted est ↦
              auto_accounts name model est life (static_key name fit.optional_hits life b m)
                (accounts_of planner.registry name) q
        ]

  unfoldable pub auto_models :
      Option String → String → ℕ → ℕ → List String → Planning → Planning × List Candidate
  unfolding auto_model
  auto_models skip name b m [] p = (p, [])
  auto_models skip name b m (model ∷ models) p =
      let (q, found) = auto_model skip name b m model p in
      let (done, more) = auto_models skip name b (m + 1) models q in (done, found ++ more)

  unfoldable pub auto_backends :
      Option String → ℕ → List String → Planning → Planning × List Candidate
  unfolding auto_models tag_ok
  auto_backends skip b [] p = (p, [])
  auto_backends skip b (name ∷ names) p =
      let (q, found) =
        if tag_ok planner name
        then auto_models skip name b 0 (models_of planner.registry name planner.modality) p
        else (p, []) in
      let (done, more) = auto_backends skip (b + 1) names q in (done, found ++ more)

  -- None when the key may use no backend at all.
  unfoldable pub auto_candidates :
      Option String → Option String → Planning → Option (Planning × List Candidate)
  unfolding auto_backends
  auto_candidates backend_name skip p =
      elim (usable_for_modality planner.key planner.modality backend_name planner.registry) [
        | none ↦ none
        | some names ↦
            let (done, found) = auto_backends skip 0 names p in
            some (done, sort_by (λ c. c.sort_key) found)
      ]
