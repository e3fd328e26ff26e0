-- ===== src/Ledger/Reports.antt =====
-- `scope_state`, `clear` and the key's part of `usage` of mm_gateway/billing.py. A report rounds every amount to a millionth of a
-- dollar by itself.
use mm_gateway.Prelude.{
  ℕ, ◌+◌, ◌-◌, ◌*◌, ◌≤◌, String, ◌≡◌, refl, Option, none, some, [], arith, nat_eq, string_eq,
  pair_eq,
}
use mm_gateway.Prelude.Dict.{get, get_or}
use mm_gateway.Models.Pricing.{round_usd}
use mm_gateway.Models.Pricing.Rounding.{round_usd-error}
use mm_gateway.Ledger.{
  CostLedger, KeyConfig, DateTime, key_id, key_limit, period_of, period_eq, scope_limit, reserved,
}
use mm_gateway.Ledger.Committed.{committed, in_scope}

pub record ScopeState : Type 0 where
  pub scope : String
  pub limit_usd : Option ℕ
  pub spent_usd : ℕ
  pub reserved_usd : ℕ
  pub remaining_usd : Option ℕ
  pub tasks : ℕ

-- round(x, 6) of an amount in 1e-9 USD
abbrev pub rounded : ℕ → ℕ
rounded x = round_usd (x * 1000)

-- The cap that applies, else the last one that was noted.
abbrev pub reported_limit : Option ℕ → Option ℕ → Option ℕ
reported_limit none noted = noted
reported_limit (some limit) noted = some limit

abbrev pub remaining : Option ℕ → ℕ → ℕ → Option ℕ
remaining none spent held = none
remaining (some limit) spent held = some (rounded (limit - spent - held))

unfoldable pub scope_state : Option KeyConfig → String → Option ℕ → CostLedger → ScopeState
scope_state key scope client l =
    let id = key_id key in
    let limit = reported_limit (scope_limit key client) (get (id, scope) l.scope_limits) in
    let spent = get_or (id, scope) 0 l.scope_spent in
    let held = reserved id none (some scope) l.holds in
    record {
      scope = scope;
      limit_usd = limit;
      spent_usd = rounded spent;
      reserved_usd = rounded held;
      remaining_usd = remaining limit spent held;
      tasks = get_or (id, scope) 0 l.scope_tasks;
    }

-- The "key" member of `usage`: the state of the key's current period.
pub record KeyUsage : Type 0 where
  pub limit_usd : Option ℕ
  pub spent_usd : ℕ
  pub reserved_usd : ℕ
  pub remaining_usd : Option ℕ
  pub tasks : ℕ

unfoldable pub key_usage : Option KeyConfig → DateTime → CostLedger → KeyUsage
key_usage key now l =
    let id = key_id key in
    let period = period_of key now in
    let spent = get_or (id, period) 0 l.key_spent in
    let held = reserved id (some period) none l.holds in
    record {
      limit_usd = key_limit key;
      spent_usd = rounded spent;
      reserved_usd = rounded held;
      remaining_usd = remaining (key_limit key) spent held;
      tasks = get_or (id, period) 0 l.key_tasks;
    }

-- The ids of holds go on.
unfoldable pub clear : CostLedger → CostLedger
clear l = record l {
  holds = [];
  by_task = [];
  key_spent = [];
  key_tasks = [];
  scope_spent = [];
  scope_tasks = [];
  model_spent = [];
  scope_limits = [];
}

abbrev pub Near : ℕ → ℕ → ℕ → Type 0
Near margin x y = (x ≤ y + margin) × (y ≤ x + margin)

rounded-Near : (x : ℕ) → Near 500 (rounded x) x
rounded-Near x =
    let error = round_usd-error (x * 1000) in (omega (arith, error.0), omega (arith, error.1))

-- What a report says is left of a limit: nothing without one, else the limit less what is committed, or
-- 0, up to half a micro-dollar.
abbrev pub Remains : Option ℕ → ℕ → Option ℕ → Type 0
Remains none used left = left ≡ none
Remains (some limit) used left = (n : ℕ) × (left ≡ some n) × Near 500 n (limit - used)

remaining-Remains :
    (limit : Option ℕ) (spent held : ℕ) → Remains limit (spent + held) (remaining limit spent held)
remaining-Remains none spent held = refl
remaining-Remains (some limit) spent held =
    let near = rounded-Near (limit - spent - held) in
    (
      rounded (limit - spent - held),
      refl,
      (omega (arith, near.0, near.1), omega (arith, near.0, near.1)),
    )

-- The report of a scope tells its state up to rounding: the reported spent and reserved amounts add
-- up to the scope's commitment within a micro-dollar; and no remaining amount is reported if no
-- limit is, else one that is within half a micro-dollar of the limit less the commitment, or of 0
-- if the commitment is beyond the limit.
pub scope_state-Near :
    (key : Option KeyConfig) (scope : String) (client : Option ℕ) (l : CostLedger)
    → Near 1000
        ((scope_state key scope client l).spent_usd + (scope_state key scope client l).reserved_usd)
        (committed (key_id key) (in_scope scope) l)
      × Remains
          (scope_state key scope client l).limit_usd
          (committed (key_id key) (in_scope scope) l)
          (scope_state key scope client l).remaining_usd
unfolding scope_state committed
scope_state-Near key scope client l =
    let id = key_id key in
    let spent = get_or (id, scope) 0 l.scope_spent in
    let held = reserved id none (some scope) l.holds in
    let near_spent = rounded-Near spent in
    let near_held = rounded-Near held in
    (
      (omega (arith, near_spent.0, near_held.0), omega (arith, near_spent.1, near_held.1)),
      remaining-Remains (reported_limit (scope_limit key client) (get (id, scope) l.scope_limits))
          spent held,
    )
