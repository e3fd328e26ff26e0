-- ===== src/Tests/AutoMode.antt =====
-- A plan of two candidates: the first fails with a rate limit after its task was accepted, the second
-- answers.
use mm_gateway.Prelude.{
  ℕ, zero, ◌+◌, ◌≡◌, refl, true, none, some, [], ◌∷◌, nat_eq, string_eq, triple_eq, pair_eq,
  option_eq, quadruple_eq, arith,
}
use mm_gateway.Prelude.Int.{pos}
use mm_gateway.Prelude.Dict.{get, put, remove}
use mm_gateway.Models.Limits.{active}
use mm_gateway.Ledger.{
  init, hold, bind, release, check, key_limit, scope_limit, period_of, period_window, touch,
  reserved, DateTime, settle, settle_hold, record_spent, add_to,
}
use mm_gateway.Ledger.WellFormed.{init-IsWellFormed}
use mm_gateway.Ledger.Committed.{in_scope, committed, share_of}
use mm_gateway.AutoMode.{
  balanced_mode, Candidate, RoutePlan, Attempted, returned, raised, cancelled, interrupted,
  end_task, fallback_none, auto_kind, auto, execute_plan, run_candidates, try_all, try_candidate,
  under_hold, accept, stops, served, on_terminal,
}
use mm_gateway.AutoMode.Errors.{
  provider_request, is_retryable, is_rate_limited, failure_reason, rate_limited,
}
use mm_gateway.AutoMode.Execute.{AllFresh, AfterRequest, execute_plan-AfterRequest}
use mm_gateway.AutoMode.First.{FirstSuccess, execute_plan-FirstSuccess}
use mm_gateway.AutoMode.Settlement.{committed-on_terminal, charged}
use mm_gateway.Tests.Ledger.{
  team, noon, token, bound_once, the_hold, bound_once-IsWellFormed, entered, at_hold,
}

abbrev limited : Candidate
limited = record {
  account_id = "default";
  model = "m";
  backend = "a";
  kind = auto_kind;
  estimate = some 40;
  lifecycle = active;
  sort_key = [];
}

abbrev healthy : Candidate
healthy = record limited { backend = "b" }

abbrev plan : RoutePlan
plan = record {
  modality = "video";
  mode = auto;
  policy = record {
    optimize = balanced_mode;
    profile = none;
    tags = [];
    legacy_tag = none;
    max_cost_usd = none;
    fallback = fallback_none;
    budget_scope = some "film";
    budget_limit_usd = some 50;
  };
  candidates = limited ∷ healthy ∷ [];
  excluded = [];
  rejections = [];
  pinned_unavailable = none;
}

abbrev answers : Candidate → ℕ → Attempted
answers c zero = record { accepts = some "t0"; answer = raised (provider_request 429) }
answers c n = record { accepts = some "t1"; answer = returned "t1" (some (true, some (pos 30))) }

abbrev clock : ℕ → DateTime
clock i = noon

-- The first attempt's hold is given back, so the second fits the scope's 50. Its task ends at once, for 30.
second_answers :
    (execute_plan answers clock clock plan team init).1 ≡ served "t1" healthy 2 (some rate_limited)
unfolding execute_plan run_candidates try_all try_candidate under_hold accept stops is_retryable
    is_rate_limited failure_reason end_task on_terminal settle settle_hold record_spent add_to hold
    check bind release key_limit scope_limit period_of period_window reserved put get remove touch
second_answers = refl

all_fresh : AllFresh answers clock clock plan team plan.candidates 0 init
unfolding get
all_fresh = (
  ((λ task e. refl), λ task how e. absurd (ground arith)),
  (((λ task e. refl), λ task how e. cc), tt),
)

-- A request that is cancelled while its first attempt runs.
abbrev interrupts : Candidate → ℕ → Attempted
interrupts c i = record { accepts = none; answer = cancelled }

-- The hold of 40 stays, and no task can settle it.
hold_leaks :
    ((execute_plan interrupts clock clock plan team init).1 ≡ interrupted)
    × (committed "team" (in_scope "film") (execute_plan interrupts clock clock plan team init).0
        ≡ 40)
unfolding execute_plan run_candidates try_all try_candidate under_hold accept hold check key_limit
    scope_limit period_of period_window reserved put get touch committed
hold_leaks = (refl, refl)

execute_plan-AfterRequest_example :
    AfterRequest answers clock clock plan team
      (execute_plan answers clock clock plan team init).1
      init
      (execute_plan answers clock clock plan team init).0
execute_plan-AfterRequest_example =
    execute_plan-AfterRequest answers clock clock plan team init-IsWellFormed all_fresh

execute_plan-FirstSuccess_example :
    (k : ℕ) × (2 ≡ k + 1)
    × FirstSuccess answers clock clock plan team plan.candidates 0 init "t1" healthy k
execute_plan-FirstSuccess_example =
    execute_plan-FirstSuccess answers clock clock plan team init "t1" healthy 2 second_answers

committed-on_terminal_example :
    committed "team" (in_scope "film") (on_terminal token true none bound_once)
      + share_of "team" (in_scope "film") the_hold
    ≡ committed "team" (in_scope "film") bound_once
      + share_of "team" (in_scope "film") (record the_hold { amount = charged the_hold true none })
committed-on_terminal_example =
    committed-on_terminal token bound_once 1 the_hold true none bound_once-IsWellFormed entered
      at_hold "team" (in_scope "film")
