-- ===== src/AutoMode/Plan.antt =====
-- The plan of one request, and the error when nothing in it can be attempted.
use mm_gateway.Prelude.{
  ℕ, String, Bool, true, false, ◌&&◌, ◌||◌, Option, none, some, List, [], ◌∷◌, ltb, nat_eq,
  if◌then◌else◌,
}
use mm_gateway.Prelude.Sort.{Key}
use mm_gateway.Models.Limits.{Lifecycle}
use mm_gateway.Ledger.{BudgetRejection}
use mm_gateway.AutoMode.Errors.{Reason}

pub data Fallback : Type 0 where
  fallback_none same_model any : Fallback

pub data Optimize : Type 0 where
  balanced_mode cost_mode latency_mode : Optimize

pub record RoutingPolicy : Type 0 where
  pub optimize : Optimize
  pub profile : Option String
  pub tags : List String
  pub legacy_tag : Option String
  pub max_cost_usd : Option ℕ
  pub fallback : Fallback
  pub budget_scope : Option String
  pub budget_limit_usd : Option ℕ

pub data CandidateKind : Type 0 where
  pinned_kind replacement_kind auto_kind : CandidateKind

-- The account names the provider.
pub record Candidate : Type 0 where
  pub account_id : String
  pub model : String
  pub backend : String
  pub kind : CandidateKind
  pub estimate : Option ℕ
  pub lifecycle : Lifecycle
  pub sort_key : Key

pub data ExclusionReason : Type 0 where
  limits retired max_cost unpriced budget : ExclusionReason

pub record Exclusion : Type 0 where
  pub model : String
  pub reason : ExclusionReason
  pub estimate : Option ℕ
  pub lifecycle : Lifecycle

pub data Mode : Type 0 where
  auto pinned : Mode

pub record RoutePlan : Type 0 where
  pub modality : String
  pub mode : Mode
  pub policy : RoutingPolicy
  pub candidates : List Candidate
  pub excluded : List Exclusion
  pub rejections : List BudgetRejection
  pub pinned_unavailable : Option Reason

-- The error when nothing can be attempted: `_no_candidate_error`.
pub data NoCandidate : Type 0 where
  budget_exceeded : BudgetRejection → NoCandidate
  cost_limit_exceeded : NoCandidate
  all_retired : NoCandidate
  none_can_serve : NoCandidate

abbrev pub same_reason : ExclusionReason → ExclusionReason → Bool
same_reason limits limits = true
same_reason retired retired = true
same_reason max_cost max_cost = true
same_reason unpriced unpriced = true
same_reason budget budget = true
same_reason _ _ = false

abbrev pub has_reason : ExclusionReason → List Exclusion → Bool
has_reason r [] = false
has_reason r (e ∷ es) = same_reason r e.reason || has_reason r es

abbrev pub only_reason : ExclusionReason → List Exclusion → Bool
only_reason r [] = true
only_reason r (e ∷ es) = same_reason r e.reason && only_reason r es

-- min(plan.rejections, key=estimate): the first of the smallest.
unfoldable pub cheapest : List BudgetRejection → Option BudgetRejection
cheapest [] = none
cheapest (r ∷ rs) = elim (cheapest rs) [
  | none ↦ some r
  | some s ↦ if ltb s.estimate_usd r.estimate_usd then some s else some r
]

abbrev pub no_candidate_other : List Exclusion → NoCandidate
no_candidate_other excluded =
    if has_reason max_cost excluded || has_reason unpriced excluded
    then cost_limit_exceeded
    else if has_reason retired excluded && only_reason retired excluded
    then all_retired
    else none_can_serve

unfoldable pub no_candidate_error : List Exclusion → List BudgetRejection → NoCandidate
unfolding cheapest
no_candidate_error excluded rejections = elim (cheapest rejections) [
  | none ↦ no_candidate_other excluded
  | some r ↦ if has_reason budget excluded then budget_exceeded r else no_candidate_other excluded
]
