-- ===== src/AutoMode/Planner/Pinning.antt =====
-- The candidates of a pinned model, as `plan_route` of mm_gateway/auto_mode.py collects them.
use mm_gateway.Prelude.{
  ℕ, ◌+◌, String, Bool, true, false, ◌&&◌, not, Option, none, some, List, [], ◌∷◌, ◌++◌, ◌==◌,
  string_eq, nat_eq, option_eq, if◌then◌else◌,
}
use mm_gateway.Prelude.Int.{pos, opposite}
use mm_gateway.Prelude.Sort.{Key, sort_by}
use mm_gateway.Models.Limits.{Lifecycle, lifecycle}
use mm_gateway.Models.Catalog.{limits_for}
use mm_gateway.Router.{score}
use mm_gateway.Registry.{Provider}
use mm_gateway.Registry.Serving.{accounts_of, flag}
use mm_gateway.AutoMode.Errors.{Reason, model_retired, over_budget}
use mm_gateway.AutoMode.Plan
use mm_gateway.AutoMode.Plan.{
  RoutingPolicy, Candidate, RoutePlan, Fallback, fallback_none, same_model, any, NoCandidate,
  no_candidate_error, limits, CandidateKind, pinned_kind, replacement_kind, auto_kind, auto, pinned,
  Mode,
}
use mm_gateway.AutoMode.Planner.{
  Planner, Planning, admitted, denied, excludes, audio_candidate_ok, admit, is_retired,
}

-- What the pinned part of a plan comes to.
pub record Pinned : Type 0 where
  pub planning : Planning
  pub candidates : List Candidate
  pub unavailable : Option Reason

abbrev pub is_fallback_none : Fallback → Bool
is_fallback_none f = elim f [ fallback_none ↦ true | same_model ↦ false | any ↦ false ]

abbrev pub take_one {ℓ} : {A : Type ℓ} → List A → List A
take_one [] = []
take_one (x ∷ xs) = x ∷ []

module _ {R : Type 0} (planner : Planner R) where
  -- any(audio_candidate_ok(...) for the accounts), which stops at the first
  abbrev pub any_account : String → String → List (String × Provider R) → Planning → Planning × Bool
  any_account name model [] p = (p, false)
  any_account name model ((account, provider) ∷ rest) p =
      let (q, ok) = audio_candidate_ok planner name account provider model p in
      let later = any_account name model rest q in if ok then (q, true) else later

  abbrev pub audio_backends : String → List String → Planning → Planning × List String
  audio_backends model [] p = (p, [])
  audio_backends model (name ∷ names) p =
      let (q, ok) = any_account name model (accounts_of planner.registry name) p in
      let (done, more) = audio_backends model names q in
      if ok then (done, name ∷ more) else (done, more)

  abbrev pub audio_accounts :
      String
      → String
      → List (String × Provider R)
      → Planning
      → Planning × List (String × Provider R)
  audio_accounts name model [] p = (p, [])
  audio_accounts name model ((account, provider) ∷ rest) p =
      let (q, ok) = audio_candidate_ok planner name account provider model p in
      let (done, more) = audio_accounts name model rest q in
      if ok then (done, (account, provider) ∷ more) else (done, more)

  -- sort_key of a pinned candidate
  abbrev pub pinned_key : String → String → String → ℕ → Key
  pinned_key name account model order =
      if is_fallback_none planner.policy.fallback
      then []
      else let h = planner.health name account model in
        pos (flag (not h.rate_limited)) ∷ opposite h.score ∷ pos order ∷ []

  abbrev pub pinned_candidate : String → String → Option ℕ → Lifecycle → ℕ → String → Candidate
  pinned_candidate name model est life order account = record {
    account_id = account;
    model = model;
    backend = name;
    kind = pinned_kind;
    estimate = est;
    lifecycle = life;
    sort_key = pinned_key name account model order;
  }

  abbrev pub pinned_accounts :
      String → String → Option ℕ → Lifecycle → ℕ → List (String × Provider R) → List Candidate
  pinned_accounts name model est life order [] = []
  pinned_accounts name model est life order ((account, provider) ∷ rest) =
      pinned_candidate name model est life order account
      ∷ pinned_accounts name model est life order rest

  abbrev pub chosen_accounts : List (String × Provider R) → List (String × Provider R)
  chosen_accounts accounts =
      if is_fallback_none planner.policy.fallback then take_one accounts else accounts

  unfoldable pub pinned_backends :
      String → Option ℕ → Lifecycle → ℕ → List String → Planning → Planning × List Candidate
  unfolding audio_candidate_ok
  pinned_backends model est life order [] p = (p, [])
  pinned_backends model est life order (name ∷ names) p =
      let accounts = accounts_of planner.registry name in
      let (q, usable) =
        if planner.modality == "audio"
        then audio_accounts name model accounts p
        else (p, accounts) in
      let (done, more) = pinned_backends model est life (order + 1) names q in
      (done, pinned_accounts name model est life order (chosen_accounts usable) ++ more)

  -- fallback in ("same_model", "any")
  abbrev pub chosen_backends : List String → List String
  chosen_backends tagged =
      if is_fallback_none planner.policy.fallback then take_one tagged else tagged

  unfoldable pub pinned_admitted : String → Option ℕ → Lifecycle → List String → Planning → Pinned
  unfolding pinned_backends
  pinned_admitted real est life tagged p =
      let (q, candidates) = pinned_backends real est life 0 (chosen_backends tagged) p in
      record {
        planning = q;
        candidates =
            if is_fallback_none planner.policy.fallback
            then candidates
            else sort_by (λ c. c.sort_key) candidates;
        unavailable = none;
      }

  -- The pinned model: retired, unfit for speech, denied, or its candidates. `requested` is its public id.
  unfoldable pub plan_pinned : String → String → List String → Planning → Pinned
  unfolding admit pinned_admitted
  plan_pinned requested real tagged p =
      let lims = limits_for real planner.modality planner.catalog in
      let life = lifecycle lims planner.catalog.today in
      if is_retired life
      then record {
        planning = excludes requested Plan.retired none life p;
        candidates = [];
        unavailable = some model_retired;
      }
      else if planner.modality == "audio" && not (score planner.request.profile lims 0 0).fits
      then record {
        planning = excludes requested limits none life p;
        candidates = [];
        unavailable = none;
      }
      else let (q, admission) = admit planner real lims p in
        elim admission [
          | denied est reason ↦ record {
            planning = excludes requested reason est life q;
            candidates = [];
            unavailable = some over_budget;
          }
          | admitted est ↦ pinned_admitted real est life tagged q
        ]
