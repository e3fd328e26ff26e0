-- ===== src/Ledger/State.antt =====
-- The ledger's state, the caps that constrain a task, and the sums over its tables.
use mm_gateway.Ledger.Period.{period_eq, DateTime, PeriodId}
use mm_gateway.Ledger.Period.{period_window}
use mm_gateway.Prelude.{
  ℕ, ◌+◌, min, String, Bool, true, ◌&&◌, Option, none, some, [], ◌∷◌, Eq, ◌==◌, nat_eq, string_eq,
  option_eq, pair_eq, triple_eq, quadruple_eq, is_some, if◌then◌else◌,
}
use mm_gateway.Config.{KeyConfig, KeyBudget}
use mm_gateway.Prelude.Dict
use mm_gateway.Prelude.Dict.{Dict, values}

-- (modality, backend, task id)
abbrev pub Token : Type 0
Token = String × String × String

pub record Hold : Type 0 where
  pub key_id : String
  pub period : PeriodId
  pub scope : Option String
  pub model : String
  pub modality : String
  pub amount : ℕ
  pub priced : Bool
  pub task : Option Token

pub data BudgetKind : Type 0 where
  key_budget scope_budget : BudgetKind

pub record BudgetRejection : Type 0 where
  pub budget : BudgetKind
  pub scope : Option String
  pub limit_usd : ℕ
  pub spent_usd : ℕ
  pub reserved_usd : ℕ
  pub estimate_usd : ℕ

pub record CostLedger : Type 0 where
  -- the next value of the counter `_ids`
  pub next_id : ℕ
  pub holds : Dict ℕ Hold
  pub by_task : Dict Token ℕ
  pub key_spent : Dict (String × PeriodId) ℕ
  pub key_tasks : Dict (String × PeriodId) ℕ
  pub scope_spent : Dict (String × String) ℕ
  pub scope_tasks : Dict (String × String) ℕ
  pub model_spent : Dict (String × PeriodId × String × String) (ℕ × ℕ)
  pub scope_limits : Dict (String × String) ℕ

abbrev pub init : CostLedger
init = record {
  next_id = 1;
  holds = [];
  by_task = [];
  key_spent = [];
  key_tasks = [];
  scope_spent = [];
  scope_tasks = [];
  model_spent = [];
  scope_limits = [];
}

-- 1e-9 USD
abbrev pub eps : ℕ
eps = 1

abbrev pub key_id : Option KeyConfig → String
key_id none = "anonymous"
key_id (some key) = key.id

abbrev pub budget_of : Option KeyConfig → Option KeyBudget
budget_of none = none
budget_of (some key) = key.budget

unfoldable pub key_limit : Option KeyConfig → Option ℕ
key_limit key = elim (budget_of key) [ none ↦ none | some b ↦ b.limit_usd ]

abbrev pub min_present : Option ℕ → Option ℕ → Option ℕ
min_present none none = none
min_present (some a) none = some a
min_present none (some b) = some b
min_present (some a) (some b) = some (min a b)

unfoldable pub scope_limit : Option KeyConfig → Option ℕ → Option ℕ
scope_limit key client_limit =
    min_present client_limit (elim (budget_of key) [ none ↦ none | some b ↦ b.scopes_limit_usd ])

-- True iff any cap constrains a task of the key in the scope.
unfoldable pub applies : Option KeyConfig → Option String → Option ℕ → Bool
unfolding key_limit scope_limit
applies key scope client_limit =
    if is_some (key_limit key)
    then true
    else is_some scope && is_some (scope_limit key client_limit)

abbrev pub budget_kind : Option KeyConfig → String
budget_kind key = elim (budget_of key) [ none ↦ "month" | some b ↦ b.period ]

unfoldable pub period_of : Option KeyConfig → DateTime → PeriodId
period_of key now = (period_window (budget_kind key) now).0

-- `None` in `_reserved` is no constraint.
abbrev pub agrees : {A : Type 0} ⦃e : Eq A⦄ → Option A → A → Bool
agrees none b = true
agrees (some a) b = b == a

abbrev pub counts : String → Option PeriodId → Option String → Hold → Bool
counts id period scope hold =
    hold.key_id == id
    && (agrees period hold.period && elim scope [ none ↦ true | some s ↦ hold.scope == some s ])

-- the sum over `self._holds.values()`
unfoldable pub reserved : String → Option PeriodId → Option String → Dict ℕ Hold → ℕ
reserved id period scope [] = 0
reserved id period scope ((i, h) ∷ rest) =
    (if counts id period scope h then h.amount else 0) + reserved id period scope rest

-- Reading a missing key of a `defaultdict` writes the default.
unfoldable pub touch : {K : Type 0} ⦃e : Eq K⦄ → K → Dict K ℕ → Dict K ℕ
touch k d = elim (Dict.get k d) [ none ↦ Dict.put k 0 d | some v ↦ d ]

-- d[k] += v on a `defaultdict`
unfoldable pub add_to : {K : Type 0} ⦃e : Eq K⦄ → K → ℕ → Dict K ℕ → Dict K ℕ
add_to k v d = Dict.put k (Dict.get_or k 0 d + v) d
