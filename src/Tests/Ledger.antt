-- ===== src/Tests/Ledger.antt =====
-- A key with a monthly budget and a scope, one task held, bound and settled.
use mm_gateway.Prelude.{
  ◌+◌, ◌≤◌, ◌≡◌, ◌≢◌, refl, Option, none, some, [], ◌∷◌, arith, nat_eq, string_eq, ap, triple_eq,
  pair_eq, option_eq, quadruple_eq,
}
use mm_gateway.Prelude.Int.{pos}
use mm_gateway.Prelude.Dict.{get, put, remove}
use mm_gateway.Config.{no_defaults}
use mm_gateway.Ledger.{
  KeyConfig, Order, DateTime, Token, Hold, CostLedger, monthly, period_eq, init, hold, bind, settle,
  check, eps, key_limit, scope_limit, period_of, period_window, add_to, touch, reserved,
  record_spent, settle_hold, held, new_hold, key_id,
}
use mm_gateway.Ledger.WellFormed.{IsWellFormed, init-IsWellFormed}
use mm_gateway.Ledger.Committed.{in_period, in_scope, committed, share_of}
use mm_gateway.Ledger.Steps.{Reach, here, next, holding, binding, settling, Reach-IsWellFormed}
use mm_gateway.Ledger.Settlement.{committed-settle}
use mm_gateway.Ledger.Reports.{scope_state, Near, Remains, scope_state-Near}
use mm_gateway.Ledger.Within.{Reach-within, AllRespect}

abbrev pub team : Option KeyConfig
team = some (
    no_defaults "team" "secret"
      (some (record { limit_usd = some 100; period = "month"; scopes_limit_usd = some 60 })))

abbrev pub noon : DateTime
noon = record {
  year = 2026;
  month = 1;
  day = 15;
  hour = 12;
  minute = 0;
  second = 0;
  microsecond = 0;
}

abbrev pub order : Order
order = record {
  key = team;
  scope = some "film";
  client_limit = some 50;
  model = "m";
  modality = "video";
  amount = some (pos 40);
}

abbrev pub token : Token
token = ("video", "b", "t1")

abbrev pub held_once : CostLedger
held_once = (hold order noon noon init).0

abbrev pub bound_once : CostLedger
bound_once = bind 1 token held_once

abbrev pub the_hold : Hold
the_hold = record (new_hold order (monthly 2026 1)) { task = some token }

-- The second task of the month does not fit the scope: 40 held, 40 more, a cap of 50.
second_refused : (hold order noon noon bound_once).1 ≢ held 2
unfolding hold check bind key_limit scope_limit period_of period_window reserved put get touch
second_refused = λ e. ground arith

after_settling :
    (settle token (some (pos 30)) bound_once).0.scope_spent ≡ ((("team", "film"), 30) ∷ [])
unfolding hold check bind settle settle_hold record_spent add_to key_limit scope_limit period_of
    period_window reserved put get remove touch
after_settling = refl

pub entered : get token bound_once.by_task ≡ some 1
unfolding hold check bind key_limit scope_limit period_of period_window reserved put get touch
entered = refl

pub at_hold : get 1 bound_once.holds ≡ some the_hold
unfolding hold check bind key_limit scope_limit period_of period_window reserved put get touch
at_hold = refl

calls : Reach init (settle token (some (pos 30)) bound_once).0
unfolding hold check key_limit scope_limit period_of period_window reserved put get touch
calls =
    next
      (next (next here (holding order noon noon init))
        (binding 1 token held_once (λ h e. ground arith) refl))
      (settling token (some (pos 30)) bound_once)

respected : AllRespect "team" (in_period (monthly 2026 1)) 100 calls
unfolding calls key_limit period_of period_window
respected = (
  ((tt, λ e. (refl, refl)), tt),
  λ i h e f.
      let a = entered in
      let b = at_hold in
      let is_hold : h ≡ the_hold = cc in omega (arith, ap (λ g. g.amount) is_hold),
)

Reach-within_example :
    committed "team" (in_period (monthly 2026 1)) (settle token (some (pos 30)) bound_once).0
    ≤ 100 + eps
Reach-within_example =
    Reach-within "team" (in_period (monthly 2026 1)) 100 init-IsWellFormed
      (unfold committed reserved get in omega arith) calls respected

pub bound_once-IsWellFormed : IsWellFormed bound_once
unfolding hold check key_limit scope_limit period_of period_window reserved put get touch
bound_once-IsWellFormed = Reach-IsWellFormed init-IsWellFormed (
    next (next here (holding order noon noon init))
      (binding 1 token held_once (λ h e. ground arith) refl))

Reach-IsWellFormed_example : IsWellFormed (settle token (some (pos 30)) bound_once).0
Reach-IsWellFormed_example = Reach-IsWellFormed init-IsWellFormed calls

committed-settle_example :
    (committed "team" (in_scope "film") (settle token (some (pos 30)) bound_once).0
        + share_of "team" (in_scope "film") the_hold
      ≡ committed "team" (in_scope "film") bound_once
        + share_of "team" (in_scope "film") (record the_hold { amount = 30 }))
    × ((settle token (some (pos 30)) bound_once).1 ≡ some 30)
committed-settle_example =
    committed-settle token bound_once 1 the_hold bound_once-IsWellFormed entered at_hold "team"
      (in_scope "film") (pos 30)

-- A scope with a charge of 0.0012345 USD, 0.0020005 USD held, and a cap of 0.005 USD.
abbrev roomy : Option KeyConfig
roomy = some (no_defaults "team" "secret" none)

abbrev used : CostLedger
used = record init {
  holds = (1, record the_hold { amount = 2000500 }) ∷ [];
  scope_spent = (("team", "film"), 1234500) ∷ [];
}

scope_state-Near_example :
    Near 1000
      ((scope_state roomy "film" (some 5000000) used).spent_usd
        + (scope_state roomy "film" (some 5000000) used).reserved_usd)
      (committed (key_id roomy) (in_scope "film") used)
    × Remains
        (scope_state roomy "film" (some 5000000) used).limit_usd
        (committed (key_id roomy) (in_scope "film") used)
        (scope_state roomy "film" (some 5000000) used).remaining_usd
scope_state-Near_example = scope_state-Near roomy "film" (some 5000000) used
