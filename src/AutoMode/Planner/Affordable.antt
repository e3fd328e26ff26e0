-- ===== src/AutoMode/Planner/Affordable.antt =====
-- What the planner admits is affordable: within the ceiling, and the budgets have room for it.
use mm_gateway.Prelude.{
  ℕ, ◌+◌, ◌≤◌, String, ◌≡◌, inl, inr, refl, subst, ◌∙◌, false, Option, none, some, string_eq,
  option_eq, Bool-cases, Option-cases, arith,
}
use mm_gateway.Models.Limits.{ModelLimits}
use mm_gateway.Models.Catalog.{limits_for}
use mm_gateway.Ledger.{
  CostLedger, DateTime, check, eps, key_limit, scope_limit, period_of, key_id, applies,
}
use mm_gateway.Ledger.Committed.{
  committed, in_period, in_scope, committed-check, check_period, check_scope,
}
use mm_gateway.AutoMode.Planner.{
  Planner, Planning, admitted, estimate, budgeted, check_budgets, admit, amount_of, cap_reason,
}

-- The ledger has the same commitments in every budget.
abbrev pub SameCommitted : CostLedger → CostLedger → Type 0
SameCommitted l m =
    (id : String) → (a : mm_gateway.Ledger.Committed.Account) → committed id a m ≡ committed id a l

module _ {R : Type 0} (planner : Planner R) (l : CostLedger) where
  -- The key's budget, at one of the clock's readings, and the scope's have room for the amount.
  abbrev pub HasRoom : ℕ → Type 0
  HasRoom amount =
      ((limit : ℕ)
        → key_limit planner.key ≡ some limit
        → (i : ℕ) × (committed (key_id planner.key)
                (in_period (period_of planner.key (planner.clock i))) l
              + amount
            ≤ limit + eps))
      × ((scope : String) (limit : ℕ)
          → planner.policy.budget_scope ≡ some scope
          → scope_limit planner.key planner.policy.budget_limit_usd ≡ some limit
          → committed (key_id planner.key) (in_scope scope) l + amount ≤ limit + eps)

  -- An estimate within the request's ceiling, if it has one.
  abbrev pub IsWithinCap : Option ℕ → Type 0
  IsWithinCap est =
      (cap : ℕ)
      → planner.policy.max_cost_usd ≡ some cap
      → (e : ℕ) × (est ≡ some e) × (e ≤ cap + eps)

  abbrev pub Affordable : String → Option ℕ → Type 0
  Affordable model est =
      (est ≡ estimate planner model (limits_for model planner.modality planner.catalog))
      × IsWithinCap est
      × HasRoom (amount_of est)

  -- A check that passes leaves room, whatever was checked before.
  room_of :
      (p : Planning) (est : Option ℕ)
      → SameCommitted l p.ledger
      → (check planner.key planner.policy.budget_scope planner.policy.budget_limit_usd
          (amount_of est)
          (planner.clock p.checks)
          p.ledger).1
        ≡ none
      → HasRoom (amount_of est)
  room_of p est same passed =
      let now = planner.clock p.checks in
      let client = planner.policy.budget_limit_usd in
      (
        (λ limit capped. (
          p.checks,
          subst (λ n. n + amount_of est ≤ limit + eps)
              (same (key_id planner.key) (in_period (period_of planner.key now)))
              (check_period planner.key planner.policy.budget_scope client (amount_of est) limit now
                p.ledger capped passed),
        )),
        λ scope limit named capped.
            subst (λ n. n + amount_of est ≤ limit + eps)
              (same (key_id planner.key) (in_scope scope))
              (check_scope planner.key scope client (amount_of est) limit now p.ledger capped (
                subst (λ s. (check planner.key s client (amount_of est) now p.ledger).1 ≡ none)
                  named passed)),
      )

  check_budgets-SameCommitted :
      (p : Planning) (est : Option ℕ)
      → SameCommitted l p.ledger
      → SameCommitted l (check_budgets planner est p).0.ledger
  unfolding check_budgets
  check_budgets-SameCommitted p est same id a =
      let now = planner.clock p.checks in
      let client = planner.policy.budget_limit_usd in
      let scope = planner.policy.budget_scope in
      let kept =
        committed-check id a planner.key scope client (amount_of est) now p.ledger ∙ same id a in
      elim (Option-cases (check planner.key scope client (amount_of est) now p.ledger).1) [
        | inl passed ↦ rw (passed, check_budgets) kept
        | inr (r, refused) ↦ rw (refused, check_budgets) kept
      ]

  check_budgets-admitted :
      (p : Planning) (est verdict : Option ℕ)
      → SameCommitted l p.ledger
      → (check_budgets planner est p).1 ≡ admitted verdict
      → (est ≡ verdict) × HasRoom (amount_of est)
  unfolding check_budgets
  check_budgets-admitted p est verdict same h =
      elim (Option-cases
        (check planner.key planner.policy.budget_scope planner.policy.budget_limit_usd
          (amount_of est) (planner.clock p.checks) p.ledger).1) [
            | inr (r, refused) ↦ absurd (ground arith)
            | inl passed ↦ (ground arith, room_of p est same passed)
          ]

  -- Nothing caps a request that is not budgeted.
  unbudgeted : (amount : ℕ) → budgeted planner ≡ false → HasRoom amount
  unfolding budgeted applies
  unbudgeted amount h =
      ((λ limit capped. absurd (ground arith)), λ scope limit named capped. absurd (ground arith))

  within_cap :
      (est : Option ℕ) → cap_reason planner.policy.max_cost_usd est ≡ none → IsWithinCap est
  within_cap none h cap capped = absurd (ground arith)
  within_cap (some e) h cap capped = (e, refl, ground arith)

  pub admit-SameCommitted :
      (model : String) (lims : ModelLimits) (p : Planning)
      → SameCommitted l p.ledger
      → SameCommitted l (admit planner model lims p).0.ledger
  unfolding admit
  admit-SameCommitted model lims p same id a =
      let est = estimate planner model lims in
      elim (Option-cases (cap_reason planner.policy.max_cost_usd est)) [
        | inr (reason, capped) ↦ rw (capped, admit) (same id a)
        | inl free ↦ ground (arith, same id a, check_budgets-SameCommitted p est same id a)
      ]

  pub admit-Affordable :
      (model : String) (p : Planning) (verdict : Option ℕ)
      → SameCommitted l p.ledger
      → (admit planner model (limits_for model planner.modality planner.catalog) p).1
        ≡ admitted verdict
      → Affordable model verdict
  unfolding admit
  admit-Affordable model p verdict same h =
      let est = estimate planner model (limits_for model planner.modality planner.catalog) in
      elim (Option-cases (cap_reason planner.policy.max_cost_usd est)) [
        | inr (reason, capped) ↦ absurd (ground arith)
        | inl free ↦ elim (Bool-cases (budgeted planner)) [
          | inr open_ended ↦
              let is : est ≡ verdict = ground arith in
              subst (Affordable model) is
                (refl, within_cap est free, unbudgeted (amount_of est) open_ended)
          | inl capped ↦
              let (is, room) = check_budgets-admitted p est verdict same (ground arith) in
              subst (Affordable model) is (refl, within_cap est free, room)
        ]
      ]
