-- ===== src/AutoMode/Policy/Ceiling.antt =====
-- A request's cost ceiling and its budget, from the directive to the task.
use mm_gateway.Prelude.{ℕ, ◌+◌, ◌≤◌, String, ◌≡◌, refl, subst, sym, Option, some, Bool}
use mm_gateway.Prelude.Dict.{Dict}
use mm_gateway.Ledger.{CostLedger, DateTime, eps, key_id, scope_limit}
use mm_gateway.Ledger.Committed.{committed, in_scope}
use mm_gateway.AutoMode.{Attempted, Candidate, RoutePlan, Optimize, execute_plan, served}
use mm_gateway.AutoMode.Errors.{Reason}
use mm_gateway.AutoMode.Planner.{Planner, amount_of}
use mm_gateway.AutoMode.Planner.Route.{planned, plan_route}
use mm_gateway.AutoMode.Planner.Served.{served-IsPlanned}
use mm_gateway.AutoMode.Policy.{RoutingProfile, RoutingDirective, BudgetDirective, resolve_policy}

module _ (profiles : Dict String RoutingProfile) (default_optimize : Optimize)
    (directive : RoutingDirective) (tag : Option String) where
  directive_cap :
      (cap : ℕ)
      → directive.max_cost_usd ≡ some cap
      → (resolve_policy profiles default_optimize directive tag).max_cost_usd ≡ some cap
  unfolding resolve_policy
  directive_cap cap given = rw (given, resolve_policy) refl

  directive_scope :
      (b : BudgetDirective)
      → directive.budget ≡ some b
      → (resolve_policy profiles default_optimize directive tag).budget_scope ≡ some b.scope
  unfolding resolve_policy
  directive_scope b given = rw (given, resolve_policy) refl

  directive_limit :
      (b : BudgetDirective)
      → directive.budget ≡ some b
      → (resolve_policy profiles default_optimize directive tag).budget_limit_usd ≡ b.limit_usd
  unfolding resolve_policy
  directive_limit b given = rw (given, resolve_policy) refl

  -- From the directive to the task: under the policy that a request's directive resolves to,
  -- whatever the named profile says, if the directive has a max_cost_usd and a budget, and the
  -- scope has a cap (the client's or the operator's), then the candidate that serves the request
  -- has an estimate, within the ceiling, and the scope's commitment before the planning plus that
  -- estimate is within the cap (both with _EPS).
  pub served_within_directive :
      {R : Type 0} (planner : Planner R) (split : String → Option (String × String))
      (backend_name : Option String) (raise_errors : Bool) (l m : CostLedger) (plan : RoutePlan)
      (attempt : Candidate → ℕ → Attempted) (checked_at held_at : ℕ → DateTime) (task : String)
      (c : Candidate) (n : ℕ) (reason : Option Reason) (cap limit : ℕ) (b : BudgetDirective)
      → planner.policy ≡ resolve_policy profiles default_optimize directive tag
      → plan_route planner split backend_name raise_errors l ≡ planned (plan, m)
      → (execute_plan attempt checked_at held_at plan planner.key m).1 ≡ served task c n reason
      → directive.max_cost_usd ≡ some cap
      → directive.budget ≡ some b
      → scope_limit planner.key b.limit_usd ≡ some limit
      → (e : ℕ) × (c.estimate ≡ some e)
        × (e ≤ cap + eps)
        × (committed (key_id planner.key) (in_scope b.scope) l + e ≤ limit + eps)
  served_within_directive planner split backend_name raise_errors l m plan attempt checked_at
        held_at task c n reason cap limit b policy routed answered capped budgeted limited =
      let (active, (priced, within, (in_key, in_scopes)), tagged, fit) =
        served-IsPlanned planner split backend_name raise_errors l m plan attempt checked_at held_at
          task c n reason routed answered in
      let (e, known, small) =
        within cap
          (subst (λ p. p.max_cost_usd ≡ some cap) (sym policy) (directive_cap cap capped)) in
      let room =
        in_scopes b.scope limit
          (subst (λ p. p.budget_scope ≡ some b.scope) (sym policy) (directive_scope b budgeted))
          (subst (λ p. scope_limit planner.key p.budget_limit_usd ≡ some limit) (sym policy)
            (subst (λ o. scope_limit planner.key o ≡ some limit) (sym (directive_limit b budgeted))
              limited)) in
      (
        e,
        known,
        small,
        subst (λ o. committed (key_id planner.key) (in_scope b.scope) l + amount_of o ≤ limit + eps)
            known room,
      )
