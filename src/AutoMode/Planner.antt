-- ===== src/AutoMode/Planner.antt =====
-- The planner of mm_gateway/auto_mode.py (`_Planner`): which candidates of a request are admissible, and in
-- what order. The readings of the clock and of the selection store are arguments; scores and latencies
-- are whole numbers of a unit, the latency's being the microsecond. What the planner keeps is passed on
-- as a value, with the ledger, in which a check may enter a zero.
pub mod Pinning
pub mod Route
pub mod Auto
pub mod Affordable
pub mod Admissible
pub mod Pinned
pub mod Planned
pub mod Served
pub mod Accounted
pub mod Complete
pub mod Cheapest
pub mod Public
use mm_gateway.Prelude.{
  ℕ, ◌+◌, String, Bool, true, false, ◌&&◌, ◌||◌, not, Option, none, some, List, [], ◌∷◌, ◌++◌, ◌==◌,
  string_eq, nat_eq, option_eq, is_some, contains, any, ltb, if◌then◌else◌,
}
use mm_gateway.Prelude.Int.{ℤ, pos, neg, opposite}
use mm_gateway.Prelude.Sort.{Key, sort_by}
use mm_gateway.Config.{KeyConfig}
use mm_gateway.Models.Limits.{ModelLimits, Lifecycle, active, deprecated, retired, lifecycle}
use mm_gateway.Models.Catalog.{Catalog, limits_for, price_for, model_lifecycle}
use mm_gateway.Models.Pricing.{estimate_cost}
use mm_gateway.Router.{RequestProfile, score, longest_side}
use mm_gateway.Ledger.{CostLedger, BudgetRejection, DateTime, applies, check, eps}
use mm_gateway.Registry.{Provider, Registry, meet, no_texts, key_default_backend, key_default_tag}
use mm_gateway.Registry.Serving.{
  usable_for_modality, models_of, tags_of, accounts_of, tagged_with, flag,
}
use mm_gateway.AutoMode.Plan
use mm_gateway.AutoMode.Plan.{
  RoutingPolicy, Candidate, Exclusion, ExclusionReason, balanced_mode, cost_mode, latency_mode,
  limits, max_cost, unpriced, budget, same_reason, auto_kind,
}

-- `payload` is what a provider's preflight reads.
pub record Request (R : Type 0) : Type 0 where
  pub model : Option String
  pub profile : RequestProfile
  pub voice_backend : Option String
  pub voice_account : Option String
  pub payload : R

pub record Health : Type 0 where
  pub rate_limited : Bool
  pub score : ℤ
  pub latency : Option ℕ

pub record Planner (R : Type 0) : Type 0 where
  pub registry : Registry R
  pub catalog : Catalog
  pub key : Option KeyConfig
  pub modality : String
  pub policy : RoutingPolicy
  pub request : Request R
  pub allow_unpriced : Bool
  -- the readings of the clock, one for each check of the ledger
  pub clock : ℕ → DateTime
  -- the selection store's reading for a backend, an account and a model
  pub health : String → String → String → Health

pub record Planning : Type 0 where
  pub ledger : CostLedger
  pub checks : ℕ
  pub excluded : List Exclusion
  pub rejections : List BudgetRejection

pub data Admission : Type 0 where
  admitted : Option ℕ → Admission
  denied : Option ℕ → ExclusionReason → Admission

-- est or 0.0
abbrev pub amount_of : Option ℕ → ℕ
amount_of none = 0
amount_of (some e) = e

-- The first exclusion of a model for a reason is kept.
abbrev pub exclude : Exclusion → Planning → Planning
exclude e p =
    if any (λ x. x.model == e.model && same_reason x.reason e.reason) p.excluded
    then p
    else record p { excluded = p.excluded ++ (e ∷ []) }

abbrev pub excludes : String → ExclusionReason → Option ℕ → Lifecycle → Planning → Planning
excludes model reason estimate life =
    exclude (record { model = model; reason = reason; estimate = estimate; lifecycle = life })

abbrev pub cap_reason : Option ℕ → Option ℕ → Option ExclusionReason
cap_reason none est = none
cap_reason (some cap) none = some unpriced
cap_reason (some cap) (some e) = if ltb (cap + eps) e then some max_cost else none

-- A name given in the request, if any, is the other one.
abbrev pub wants_other : Option String → String → Bool
wants_other none name = false
wants_other (some n) name = not (n == name)

-- A message of no length is no refusal.
abbrev pub refuses : Option String → Bool
refuses none = false
refuses (some text) = not (text == "")

abbrev pub is_retired : Lifecycle → Bool
is_retired life = elim life [ active ↦ false | deprecated ↦ false | retired ↦ true ]

module _ {R : Type 0} (planner : Planner R) where
  unfoldable pub estimate : String → ModelLimits → Option ℕ
  estimate model lims =
      let profile = planner.request.profile in
      estimate_cost (price_for model planner.catalog) lims (record {
        modality = planner.modality;
        duration_ms = profile.duration_ms;
        output_count = profile.output_count;
        longest_side = longest_side profile;
        input_characters = some profile.prompt_chars;
        voice_clone = profile.wants_voice_clone;
      })

  unfoldable pub budgeted : Bool
  budgeted = applies planner.key planner.policy.budget_scope planner.policy.budget_limit_usd

  unfoldable pub audio_candidate_ok :
      String → String → Provider R → String → Planning → Planning × Bool
  audio_candidate_ok backend account provider model p =
      if not (planner.modality == "audio")
      then (p, true)
      else if not provider.implements_audio
      then (p, false)
      else if planner.request.profile.wants_voice_clone && not provider.clones_voices
      then (p, false)
      else if wants_other planner.request.voice_backend backend
      then (p, false)
      else if wants_other planner.request.voice_account account
      then (p, false)
      else if refuses (provider.audio_request_error planner.request.payload model)
      then (excludes model limits none (model_lifecycle model "audio" planner.catalog) p, false)
      else (p, true)

  unfoldable pub check_budgets : Option ℕ → Planning → Planning × Admission
  check_budgets est p =
      let (l, rejection) =
        check planner.key planner.policy.budget_scope planner.policy.budget_limit_usd
          (amount_of est) (planner.clock p.checks) p.ledger in
      elim rejection [
        | none ↦ (record p { ledger = l; checks = p.checks + 1 }, admitted est)
        | some r ↦ (
          record p { ledger = l; checks = p.checks + 1; rejections = p.rejections ++ (r ∷ []) },
          denied est budget,
        )
      ]

  -- `admit`: the estimate must fit the ceiling and the budgets.
  unfoldable pub admit : String → ModelLimits → Planning → Planning × Admission
  unfolding estimate budgeted check_budgets
  admit model lims p =
      let est = estimate model lims in
      elim (cap_reason planner.policy.max_cost_usd est) [
        | some reason ↦ (p, denied est reason)
        | none ↦
            if not budgeted
            then (p, admitted est)
            else if not (is_some est) && not planner.allow_unpriced
            then (p, denied est unpriced)
            else check_budgets est p
      ]

  unfoldable pub tag_ok : String → Bool
  tag_ok backend =
      let tags = tags_of planner.registry backend in
      (elim planner.policy.legacy_tag [
        | none ↦ true
        | some t ↦ if t == "" then true else contains tags t
      ])
      && (no_texts planner.policy.tags || meet planner.policy.tags tags)
