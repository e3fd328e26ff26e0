-- ===== src/Ledger.antt =====
-- The cost ledger of mm_gateway/billing.py: spend, reservations and budgets.
-- Amounts are exact multiples of 1e-9 USD, the source's `_EPS`; rounding of floats is not modelled.
-- `clock()` is an argument of each operation that reads it, one for each reading.
mod Period
mod State
pub mod Reserved
pub mod WellFormed
pub mod Committed
pub mod Settlement
pub mod Steps
pub mod Within
pub mod Reports
pub use Period.{period_eq, period_beq_iff, DateTime, PeriodId, daily, monthly, total}
unfoldable pub use Period.{period_window}
use mm_gateway.Prelude.{
  ℕ, ◌+◌, ◌-◌, min, String, Bool, true, false, ◌&&◌, Option, none, some, List, [], ◌∷◌, ltb, Eq,
  ◌==◌, nat_eq, string_eq, option_eq, pair_eq, triple_eq, quadruple_eq, is_some, if◌then◌else◌,
}
use mm_gateway.Prelude.Int.{ℤ, pos_part}
use mm_gateway.Prelude.Dict
use mm_gateway.Prelude.Dict.{Dict, values}
pub use mm_gateway.Config.{KeyBudget, KeyConfig}
pub use State.{
  Token, Hold, BudgetKind, BudgetRejection, CostLedger, init, eps, key_id, budget_of, min_present,
  budget_kind, agrees, counts, key_budget, scope_budget,
}
unfoldable pub use State.{key_limit, scope_limit, applies, period_of, reserved, touch, add_to}

check_key_limit :
    Option ℕ → String → PeriodId → ℕ → CostLedger → CostLedger × Option BudgetRejection
check_key_limit none id period amount l = (l, none)
check_key_limit (some limit) id period amount l =
    let spent = Dict.get_or (id, period) 0 l.key_spent in
    let held = reserved id (some period) none l.holds in
    (
      record l { key_spent = touch (id, period) l.key_spent },
      if ltb (limit + eps) (spent + held + amount)
          then some (record {
            budget = key_budget;
            scope = none;
            limit_usd = limit;
            spent_usd = spent;
            reserved_usd = held;
            estimate_usd = amount;
          })
          else none,
    )

check_scope_limit :
    Option String → Option ℕ → String → ℕ → CostLedger → CostLedger × Option BudgetRejection
check_scope_limit (some scope) (some limit) id amount l =
    let spent = Dict.get_or (id, scope) 0 l.scope_spent in
    let held = reserved id none (some scope) l.holds in
    (
      record l { scope_spent = touch (id, scope) l.scope_spent },
      if ltb (limit + eps) (spent + held + amount)
          then some (record {
            budget = scope_budget;
            scope = some scope;
            limit_usd = limit;
            spent_usd = spent;
            reserved_usd = held;
            estimate_usd = amount;
          })
          else none,
    )
check_scope_limit _ _ id amount l = (l, none)

-- `check`: would a task costing `amount` fit every applicable budget right now?
unfoldable pub check :
    Option KeyConfig
    → Option String
    → Option ℕ
    → ℕ
    → DateTime
    → CostLedger
    → CostLedger × Option BudgetRejection
unfolding key_limit scope_limit period_of check_key_limit check_scope_limit
check key scope client_limit amount now l =
    let (l', rejection) =
      check_key_limit (key_limit key) (key_id key) (period_of key now) amount l in
    elim rejection [
      | some r ↦ (l', some r)
      | none ↦ check_scope_limit scope (scope_limit key client_limit) (key_id key) amount l'
    ]

-- max(0.0, amount or 0.0)
abbrev pub held_value : Option ℤ → ℕ
held_value none = 0
held_value (some a) = pos_part a

pub data HoldResult : Type 0 where
  held : ℕ → HoldResult
  rejected : BudgetRejection → HoldResult

abbrev pub note_scope_limit :
    Option String → Option ℕ → String → Dict (String × String) ℕ → Dict (String × String) ℕ
note_scope_limit (some scope) (some limit) id d = Dict.put (id, scope) limit d
note_scope_limit _ _ id d = d

pub record Order : Type 0 where
  pub key : Option KeyConfig
  pub scope : Option String
  pub client_limit : Option ℕ
  pub model : String
  pub modality : String
  pub amount : Option ℤ

abbrev pub new_hold : Order → PeriodId → Hold
new_hold o period = record {
  key_id = key_id o.key;
  period = period;
  scope = o.scope;
  model = o.model;
  modality = o.modality;
  amount = held_value o.amount;
  priced = is_some o.amount;
  task = none;
}

-- The clock is read for the check and again for the hold's period.
unfoldable pub hold : Order → DateTime → DateTime → CostLedger → CostLedger × HoldResult
unfolding scope_limit period_of
hold o checked_at held_at l =
    let (l', rejection) = check o.key o.scope o.client_limit (held_value o.amount) checked_at l in
    elim rejection [
      | some r ↦ (l', rejected r)
      | none ↦ (
        record l' {
          next_id = l'.next_id + 1;
          holds = Dict.put l'.next_id (new_hold o (period_of o.key held_at)) l'.holds;
          scope_limits =
              note_scope_limit o.scope (scope_limit o.key o.client_limit) (key_id o.key)
                l'.scope_limits;
        },
        held l'.next_id,
      )
    ]

-- The provider accepted the task: the hold becomes its reservation.
unfoldable pub bind : ℕ → Token → CostLedger → CostLedger
bind hold_id token l = elim (Dict.get hold_id l.holds) [
  | none ↦ l
  | some h ↦ record l {
    holds = Dict.put hold_id (record h { task = some token }) l.holds;
    by_task = Dict.put token hold_id l.by_task;
  }
]

unfoldable pub release : ℕ → CostLedger → CostLedger
release hold_id l = elim (Dict.get hold_id l.holds) [
  | none ↦ record l { holds = Dict.remove hold_id l.holds }
  | some h ↦ record l {
    holds = Dict.remove hold_id l.holds;
    by_task = Dict.discard h.task l.by_task;
  }
]

abbrev pub add_scope :
    Option String → String → ℕ → Dict (String × String) ℕ → Dict (String × String) ℕ
add_scope none id v d = d
add_scope (some scope) id v d = add_to (id, scope) v d

-- The four tables that a finished task is recorded in.
unfoldable pub record_spent : Hold → ℕ → CostLedger → CostLedger
unfolding add_to
record_spent h amount l =
    let entry : String × PeriodId × String × String = (h.key_id, h.period, h.model, h.modality) in
    let (spent, tasks) = Dict.get_or entry (0, 0) l.model_spent in
    record l {
      key_spent = add_to (h.key_id, h.period) amount l.key_spent;
      key_tasks = add_to (h.key_id, h.period) 1 l.key_tasks;
      scope_spent = add_scope h.scope h.key_id amount l.scope_spent;
      scope_tasks = add_scope h.scope h.key_id 1 l.scope_tasks;
      model_spent = Dict.put entry (spent + amount, tasks + 1) l.model_spent;
    }

unfoldable pub settle_hold : Option Hold → Option ℤ → CostLedger → CostLedger × Option ℕ
settle_hold none cost l = (l, none)
settle_hold (some h) none l = (l, none)
settle_hold (some h) (some cost) l = (record_spent h (pos_part cost) l, some (pos_part cost))

-- Finish a task's reservation: record its cost as spent, or release it.
unfoldable pub settle : Token → Option ℤ → CostLedger → CostLedger × Option ℕ
unfolding settle_hold
settle token cost l =
    let by_task' = Dict.remove token l.by_task in
    elim (Dict.get token l.by_task) [
      | none ↦ (record l { by_task = by_task' }, none)
      | some hold_id ↦
          settle_hold (Dict.get hold_id l.holds) cost
            (record l { by_task = by_task'; holds = Dict.remove hold_id l.holds })
    ]

-- (reserved amount, priced) of a task's reservation
unfoldable pub reservation : Token → CostLedger → Option (ℕ × Bool)
reservation token l = elim (Dict.get token l.by_task) [
  | none ↦ none
  | some hold_id ↦ elim (Dict.get hold_id l.holds) [
    | none ↦ none
    | some h ↦ some (h.amount, h.priced)
  ]
]
