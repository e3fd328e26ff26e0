-- ===== src/AutoMode.antt =====
-- mm_gateway/auto_mode.py: attempting a plan's candidates, with each candidate's estimate held in the
-- ledger, and settling a finished task. A plan's candidates are given in the order to try.
pub mod Errors
pub mod Plan
pub mod Planner
pub mod Estimate
pub mod Policy
pub mod Attempt
pub mod Outcome
pub mod Execute
pub mod First
pub mod Settlement
pub mod Retry
pub use Plan.{
  Optimize, balanced_mode, cost_mode, latency_mode, Fallback, RoutingPolicy, CandidateKind,
  Candidate, ExclusionReason, Exclusion, Mode, RoutePlan, NoCandidate, same_reason, has_reason,
  only_reason, no_candidate_other, fallback_none, same_model, any, pinned_kind, replacement_kind,
  auto_kind, limits, retired, max_cost, unpriced, budget, auto, pinned, budget_exceeded,
  cost_limit_exceeded, all_retired, none_can_serve,
}
unfoldable pub use Plan.{cheapest, no_candidate_error}
use mm_gateway.Prelude.{
  ℕ, ◌+◌, String, Bool, true, false, ◌&&◌, ◌||◌, Option, none, some, List, [], ◌∷◌, is_some, ltb,
  nat_eq, if◌then◌else◌, ◌++◌,
}
use mm_gateway.Prelude.Int.{ℤ, pos}
use mm_gateway.Models.Limits.{Lifecycle}
use mm_gateway.Ledger.{
  KeyConfig, BudgetRejection, CostLedger, DateTime, Order, Token, hold, held, rejected, bind,
  release, settle, reservation,
}
use Errors.{
  Failure, Reason, is_retryable, failure_reason, over_budget, provider_unavailable, model_retired,
}

-- `settlement`: the terminal callback of a task's monitor, with the task's status, whether it
-- succeeded, and the cost that the provider reported.
unfoldable pub on_terminal : Token → Bool → Option ℤ → CostLedger → CostLedger
on_terminal t succeeded cost l =
    if succeeded
    then elim cost [
      | some c ↦ (settle t (some c) l).0
      | none ↦ elim (reservation t l) [
        | none ↦ l
        | some (amount, priced) ↦ (settle t (some (if priced then pos amount else pos 0)) l).0
      ]
    ]
    else (settle t none l).0

-- How a task ended that the attempt waited for, or that its provider finished at once: whether it succeeded,
-- and the cost that the provider reported. None for a task that goes on.
abbrev pub Ending : Type 0
Ending = Option (Bool × Option ℤ)

-- What `attempt(candidate, accept)` does: the task it passes to `accept`, if it calls it, and then its
-- result, before which the monitor of a task that has ended settles it (`_start_monitor` of services.py); or
-- its exception; or the cancellation of the request, which is not an `Exception`.
pub data Answer : Type 0 where
  returned : String → Ending → Answer
  raised : Failure → Answer
  cancelled : Answer

pub record Attempted : Type 0 where
  pub accepts : Option String
  pub answer : Answer

pub data Tried : Type 0 where
  refused : BudgetRejection → Tried
  failed : Failure → Tried
  created : String → Tried
  aborted : Tried

abbrev pub order_of : RoutePlan → Option KeyConfig → Candidate → Order
order_of plan key c = record {
  key = key;
  scope = plan.policy.budget_scope;
  client_limit = plan.policy.budget_limit_usd;
  model = c.model;
  modality = plan.modality;
  amount = elim c.estimate [ none ↦ none | some e ↦ some (pos e) ];
}

abbrev pub token_of : RoutePlan → Candidate → String → Token
token_of plan c task = (plan.modality, c.backend, task)

-- accept(task), when the attempt called it
unfoldable pub accept : RoutePlan → Candidate → ℕ → Option String → CostLedger → CostLedger
accept plan c i none l = l
accept plan c i (some task) l = bind i (token_of plan c task) l

abbrev pub accepted_or : Option String → String → String
accepted_or none task = task
accepted_or (some early) task = early

-- What a returned task's settlement inside the attempt leaves.
unfoldable pub end_task : RoutePlan → Candidate → String → Ending → CostLedger → CostLedger
unfolding on_terminal
end_task plan c task none l = l
end_task plan c task (some (succeeded, cost)) l =
    on_terminal (token_of plan c task) succeeded cost l

-- if not accepted: accept(task)
abbrev pub accept_late :
    RoutePlan → Candidate → ℕ → Option String → String → CostLedger → CostLedger
accept_late plan c i none task l = accept plan c i (some task) l
accept_late plan c i (some early) task l = l

-- The attempt under a granted hold: an error releases the hold, a success leaves it bound, and a
-- cancellation, which `except Exception` does not catch, leaves it as it is.
unfoldable pub under_hold : RoutePlan → Candidate → ℕ → Attempted → CostLedger → CostLedger × Tried
unfolding accept end_task
under_hold plan c i a l =
    let l' = accept plan c i a.accepts l in
    elim a.answer [
      | raised e ↦ (release i l', failed e)
      | returned task ending ↦
          (accept_late plan c i a.accepts task (end_task plan c task ending l'), created task)
      | cancelled ↦ (l', aborted)
    ]

pub record Progress : Type 0 where
  pub attempts : ℕ
  pub reason : Option Reason
  pub last : Option Failure
  pub rejection : Option BudgetRejection

pub data Verdict : Type 0 where
  -- the task, its candidate, the attempts made and the fallback reason
  served : String → Candidate → ℕ → Option Reason → Verdict
  raises : Failure → Verdict
  no_candidate : NoCandidate → Verdict
  interrupted : Verdict

-- A client error, and any error of a pinned request without fallback, ends the request.
unfoldable pub stops : RoutePlan → Failure → Bool
stops plan e = elim (is_retryable e) [
  | false ↦ true
  | true ↦ elim plan.mode [
    | auto ↦ false
    | pinned ↦ elim plan.policy.fallback [ fallback_none ↦ true | same_model ↦ false | any ↦ false ]
  ]
]

abbrev pub is_fallback : RoutePlan → Candidate → ℕ → Bool
is_fallback plan c i =
    ltb 0 i
    || (is_some plan.pinned_unavailable || elim plan.mode [
      | auto ↦ false
      | pinned ↦ elim c.kind [ pinned_kind ↦ false | replacement_kind ↦ true | auto_kind ↦ true ]
    ])

abbrev pub reason_or_default : Option Reason → Reason
reason_or_default none = provider_unavailable
reason_or_default (some r) = r

abbrev pub start_progress : RoutePlan → Progress
start_progress plan = record {
  attempts = 0;
  reason = plan.pinned_unavailable;
  last = none;
  rejection = none;
}

abbrev pub last_of : Candidate → List Candidate → Candidate
last_of c [] = c
last_of c (d ∷ ds) = last_of d ds

abbrev pub add_exclusion : List Candidate → BudgetRejection → List Exclusion → List Exclusion
add_exclusion [] r excluded = excluded
add_exclusion (c ∷ cs) r excluded =
    excluded
    ++ (record {
      model = (last_of c cs).model;
      reason = budget;
      estimate = some r.estimate_usd;
      lifecycle = (last_of c cs).lifecycle;
    }
        ∷ [])

-- The errors after the last candidate. A rejection met on the way is put into the plan first.
abbrev pub exhausted : RoutePlan → Progress → NoCandidate
exhausted plan p = elim p.rejection [
  | none ↦ no_candidate_error plan.excluded plan.rejections
  | some r ↦
      no_candidate_error (add_exclusion plan.candidates r plan.excluded)
        (plan.rejections ++ (r ∷ []))
]

module _ (attempt : Candidate → ℕ → Attempted) (checked_at held_at : ℕ → DateTime)
    (plan : RoutePlan) (key : Option KeyConfig) where
  -- One candidate. `i` is its index.
  unfoldable pub try_candidate : Candidate → ℕ → CostLedger → CostLedger × Tried
  try_candidate c i l =
      let (l', result) = hold (order_of plan key c) (checked_at i) (held_at i) l in
      elim result [ rejected r ↦ (l', refused r) | held h ↦ under_hold plan c h (attempt c i) l' ]

  unfoldable pub try_all : List Candidate → ℕ → Progress → CostLedger → CostLedger × Verdict
  try_all [] i p l = (l, elim p.last [ some e ↦ raises e | none ↦ no_candidate (exhausted plan p) ])
  try_all (c ∷ cs) i p l =
      let (l', t) = try_candidate c i l in
      elim t [
        | refused r ↦
            try_all cs (i + 1) (record p { reason = some over_budget; rejection = some r }) l'
        | failed e ↦ elim (stops plan e) [
          | true ↦ (l', raises e)
          | false ↦
              try_all cs (i + 1)
                (record p {
                  attempts = p.attempts + 1;
                  reason = some (failure_reason e);
                  last = some e;
                })
                l'
        ]
        | created task ↦ (
          l',
          served task c (p.attempts + 1)
              (if is_fallback plan c i then some (reason_or_default p.reason) else none),
        )
        | aborted ↦ (l', interrupted)
      ]

  unfoldable pub run_candidates : List Candidate → CostLedger → CostLedger × Verdict
  run_candidates [] l = (l, no_candidate (no_candidate_error plan.excluded plan.rejections))
  run_candidates (c ∷ cs) l = try_all (c ∷ cs) 0 (start_progress plan) l

  unfoldable pub execute_plan : CostLedger → CostLedger × Verdict
  execute_plan l = run_candidates plan.candidates l
