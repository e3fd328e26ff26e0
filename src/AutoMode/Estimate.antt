-- ===== src/AutoMode/Estimate.antt =====
-- `estimate_route` of mm_gateway/auto_mode.py: what a request would cost, without a task. The amounts are
-- those of the plan; `budget` is the report of the scope or of the key's period.
pub mod Loop
pub mod Listing
use mm_gateway.Prelude.{
  String, Bool, true, false, Option, none, some, List, [], ◌∷◌, ◌++◌, ◌==◌, string_eq, contains,
  is_some, ℕ,
}
use mm_gateway.Config.{KeyConfig}
use mm_gateway.Models.Limits.{Lifecycle}
use mm_gateway.Ledger.{CostLedger, DateTime, key_limit}
use mm_gateway.Ledger.Reports.{ScopeState, scope_state, KeyUsage, key_usage}
use mm_gateway.AutoMode.Plan.{Candidate, Exclusion, ExclusionReason, RoutePlan}
use mm_gateway.AutoMode.Planner.{Planner}
use mm_gateway.AutoMode.Planner.Route.{PlanOutcome, PlanError, planned, failed, plan_route}

pub record EstimateCandidate : Type 0 where
  pub model : String
  pub estimated_cost : Option ℕ
  pub lifecycle : Lifecycle
  -- a reason stands for `admissible: False`
  pub reason : Option ExclusionReason

pub data BudgetReport : Type 0 where
  of_scope : ScopeState → BudgetReport
  of_key : KeyUsage → BudgetReport

pub record Estimate : Type 0 where
  pub modality : String
  pub model : Option String
  pub estimated_cost : Option ℕ
  pub candidates : List EstimateCandidate
  pub budget : Option BudgetReport

abbrev pub admissible : Candidate → EstimateCandidate
admissible c = record {
  model = c.model;
  estimated_cost = c.estimate;
  lifecycle = c.lifecycle;
  reason = none;
}

abbrev pub inadmissible : Exclusion → EstimateCandidate
inadmissible e = record {
  model = e.model;
  estimated_cost = e.estimate;
  lifecycle = e.lifecycle;
  reason = some e.reason;
}

-- A loop over candidates or exclusions, with the models seen so far: a model is listed once.
module _ {A : Type 0} (entry : A → EstimateCandidate) where
  unfoldable pub list_new : List String → List A → List String × List EstimateCandidate
  list_new seen [] = (seen, [])
  list_new seen (x ∷ xs) = elim (contains seen (entry x).model) [
    | true ↦ list_new seen xs
    | false ↦ let (seen', rest) = list_new ((entry x).model ∷ seen) xs in (seen', entry x ∷ rest)
  ]

unfoldable pub list_candidates : RoutePlan → List EstimateCandidate
unfolding list_new
list_candidates plan =
    let (seen, chosen) = list_new admissible [] plan.candidates in
    let (seen', others) = list_new inadmissible seen plan.excluded in chosen ++ others

abbrev pub first_model : List Candidate → Option String
first_model [] = none
first_model (c ∷ cs) = some c.model

abbrev pub first_cost : List Candidate → Option ℕ
first_cost [] = none
first_cost (c ∷ cs) = c.estimate

-- `if policy.budget_scope:`
abbrev pub filled_scope : Option String → Option String
filled_scope none = none
filled_scope (some s) = elim (s == "") [ true ↦ none | false ↦ some s ]

unfoldable pub budget_report :
    Option KeyConfig → Option String → Option ℕ → DateTime → CostLedger → Option BudgetReport
unfolding scope_state key_usage key_limit
budget_report key scope limit now l = elim (filled_scope scope) [
  | some s ↦ some (of_scope (scope_state key s limit l))
  | none ↦ elim (key_limit key) [ some cap ↦ some (of_key (key_usage key now l)) | none ↦ none ]
]

module _ {R : Type 0} (planner : Planner R) where
  abbrev pub estimate_of : DateTime → RoutePlan → CostLedger → Estimate
  estimate_of now plan l = record {
    modality = planner.modality;
    model = first_model plan.candidates;
    estimated_cost = first_cost plan.candidates;
    candidates = list_candidates plan;
    budget =
        budget_report planner.key planner.policy.budget_scope planner.policy.budget_limit_usd now l;
  }

  -- The plan is made without raising errors; a failed plan is an error of the registry.
  unfoldable pub estimate_route :
      (String → Option (String × String))
      → Option String
      → DateTime
      → CostLedger
      → PlanOutcome (Estimate × CostLedger)
  unfolding plan_route list_candidates budget_report
  estimate_route split backend_name now l = elim (plan_route planner split backend_name false l) [
    | planned (plan, m) ↦ planned (estimate_of now plan m, m)
    | failed m e ↦ failed m e
  ]
