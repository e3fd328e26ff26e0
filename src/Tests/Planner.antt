-- ===== src/Tests/Planner.antt =====
-- A plan over two backends, the cheaper of which is limited, and what is made of it.
use mm_gateway.Prelude.{
  ◌+◌, ◌≤◌, nat_eq, pair_eq, ℕ, String, string_eq, ◌≡◌, refl, Bool, true, false, Option, none, some,
  List, [], ◌∷◌, All,
}
use mm_gateway.Prelude.Dict
use mm_gateway.Prelude.Int.{pos, negsuc}
use mm_gateway.Models.Limits.{active, lifecycle}
use mm_gateway.Models.Catalog.{Catalog, limits_for, price_for}
use mm_gateway.Models.Pricing.{estimate_cost, priced, round_usd}
use mm_gateway.Router.{RequestProfile, score, longest_side}
use mm_gateway.Ledger.{eps, scope_limit, CostLedger, init, DateTime}
use mm_gateway.Registry.{Registry}
use mm_gateway.AutoMode.{
  RoutingPolicy, Candidate, RoutePlan, cost_mode, fallback_none, auto_kind, auto, served,
  execute_plan, Attempted, returned,
}
use mm_gateway.AutoMode.Planner.{Planner, Request, Health, Planning}
use mm_gateway.AutoMode.Planner.Auto.{auto_candidates}
use mm_gateway.AutoMode.Planner.Route.{plan_route, planned, initial}
use mm_gateway.AutoMode.Planner.Affordable.{SameCommitted}
use mm_gateway.AutoMode.Planner.Pinned.{IsPlanned}
use mm_gateway.AutoMode.Planner.Planned.{plan_route-IsPlanned}
use mm_gateway.AutoMode.Policy.{RoutingDirective, no_directive, resolve_policy}
use mm_gateway.AutoMode.Policy.Ceiling.{served_within_directive}
use mm_gateway.Ledger.Committed.{committed, in_scope}
use mm_gateway.AutoMode.Planner.Served.{served-IsPlanned}
use mm_gateway.Registry.Serving.{usable_for_modality}
use mm_gateway.AutoMode.Planner.Complete.{AllBackendsHandled, auto_candidates-AllBackendsHandled}
use mm_gateway.AutoMode.Planner.Cheapest.{CheapestFirst, auto_candidates-CheapestFirst}
use mm_gateway.Tests.Registry.{registry, key, whole}
use mm_gateway.Tests.Router.{clip}
use mm_gateway.Tests.Ledger.{noon}

abbrev pub catalog : Catalog
catalog = record {
  overrides = [];
  builtin_limits = [];
  builtin_prices =
      (
        "v",
        record {
          per_second = none;
          per_second_tiers = [];
          per_image = none;
          per_request = some 5000;
          per_character = none;
          per_clone = none;
        },
      )
      ∷ [];
  today = (2026, 1, 1);
}

abbrev directive : RoutingDirective
directive = record no_directive {
  max_cost_usd = some 6000;
  budget = some (record { scope = "film"; limit_usd = some 9000 });
}

abbrev policy : RoutingPolicy
policy = record {
  optimize = cost_mode;
  profile = none;
  tags = [];
  legacy_tag = none;
  max_cost_usd = some 6000;
  fallback = fallback_none;
  budget_scope = some "film";
  budget_limit_usd = some 9000;
}

policy_resolved : policy ≡ resolve_policy [] cost_mode directive none
unfolding resolve_policy
policy_resolved = refl

abbrev healthy : String → String → String → Health
healthy backend account model = record { rate_limited = false; score = pos 1; latency = none }

abbrev pub planner : Planner String
planner = record {
  registry = registry;
  catalog = catalog;
  key = some key;
  modality = "video";
  policy = policy;
  request = record {
    model = none;
    profile = clip;
    voice_backend = none;
    voice_account = none;
    payload = "";
  };
  allow_unpriced = false;
  clock = λ i. noon;
  health = healthy;
}

abbrev pub at_b : Candidate
at_b = record {
  account_id = "default";
  model = "v";
  backend = "b";
  kind = auto_kind;
  estimate = some 5000;
  lifecycle = active;
  sort_key =
      pos 0
      ∷ pos 0
      ∷ pos 5000
      ∷ pos 0
      ∷ negsuc 0
      ∷ pos 1
      ∷ pos 0
      ∷ negsuc 2
      ∷ pos 0
      ∷ pos 1
      ∷ pos 0
      ∷ [];
}

abbrev at_a : Candidate
at_a = record at_b {
  backend = "a";
  sort_key =
      pos 0
      ∷ pos 0
      ∷ pos 5000
      ∷ pos 0
      ∷ negsuc 0
      ∷ pos 1
      ∷ pos 1
      ∷ negsuc 2
      ∷ pos 0
      ∷ pos 0
      ∷ pos 0
      ∷ [];
}

abbrev pub the_plan : RoutePlan
the_plan = record {
  modality = "video";
  mode = auto;
  policy = policy;
  candidates = at_b ∷ at_a ∷ [];
  excluded = [];
  rejections = [];
  pinned_unavailable = none;
}

-- Checking enters a zero for the scope.
abbrev pub touched : CostLedger
touched = record init { scope_spent = (("team", "film"), 0) ∷ [] }

abbrev after : Planning
after = record (initial touched) { checks = 2 }

chosen_example : auto_candidates planner none none (initial init) ≡ some (after, at_b ∷ at_a ∷ [])
unfolding auto_candidates mm_gateway.Registry.Serving.usable_for_modality mm_gateway.Registry.usable
    mm_gateway.Registry.usable_backends Dict.get mm_gateway.Prelude.Sort.sort_by
    mm_gateway.Prelude.Sort.lt_key mm_gateway.Registry.Serving.models_of
    mm_gateway.Registry.modality_models score mm_gateway.Router.fits limits_for lifecycle
    estimate_cost price_for priced round_usd mm_gateway.Models.Pricing.rate_for
    mm_gateway.Ledger.applies mm_gateway.Ledger.check mm_gateway.Ledger.scope_limit
    mm_gateway.Ledger.key_limit mm_gateway.Ledger.reserved mm_gateway.Ledger.touch Dict.put
    mm_gateway.AutoMode.Planner.check_budgets mm_gateway.Registry.Serving.accounts_of
    mm_gateway.Registry.key_default_backend mm_gateway.Registry.key_default_tag
    mm_gateway.AutoMode.Planner.audio_candidate_ok
chosen_example = refl

limit_example : scope_limit (some key) (some 9000) ≡ some 9000
unfolding scope_limit
limit_example = refl

pub planned_example : plan_route planner whole none true init ≡ planned (the_plan, touched)
unfolding plan_route
planned_example = rw chosen_example refl

pub planned_quietly : plan_route planner whole none false init ≡ planned (the_plan, touched)
unfolding plan_route
planned_quietly = rw chosen_example refl

abbrev pub answers : Candidate → ℕ → Attempted
answers c i = record { accepts = none; answer = returned "t" none }

pub served_example :
    (execute_plan answers planner.clock planner.clock the_plan planner.key touched).1
    ≡ served "t" at_b 1 none
unfolding execute_plan mm_gateway.AutoMode.run_candidates mm_gateway.AutoMode.try_all
    mm_gateway.AutoMode.try_candidate mm_gateway.Ledger.hold mm_gateway.Ledger.check
    mm_gateway.AutoMode.under_hold Dict.get mm_gateway.Ledger.reserved
served_example = refl

plan_route-IsPlanned_example :
    SameCommitted init touched × All (IsPlanned planner init) (at_b ∷ at_a ∷ [])
plan_route-IsPlanned_example =
    plan_route-IsPlanned planner init whole none true the_plan touched planned_example

served-IsPlanned_example : IsPlanned planner init at_b
served-IsPlanned_example =
    served-IsPlanned planner whole none true init touched the_plan answers planner.clock
      planner.clock "t" at_b 1 none planned_example served_example

auto_candidates-CheapestFirst_example : CheapestFirst planner (at_b ∷ at_a ∷ [])
auto_candidates-CheapestFirst_example =
    auto_candidates-CheapestFirst planner none none (initial init) after (at_b ∷ at_a ∷ []) refl
      chosen_example

usable_example : usable_for_modality (some key) "video" none registry ≡ some ("a" ∷ "b" ∷ [])
unfolding usable_for_modality mm_gateway.Registry.usable mm_gateway.Registry.usable_backends
    Dict.get
usable_example = refl

auto_candidates-AllBackendsHandled_example :
    AllBackendsHandled planner none ("a" ∷ "b" ∷ []) (after, at_b ∷ at_a ∷ [])
auto_candidates-AllBackendsHandled_example =
    auto_candidates-AllBackendsHandled planner none none (initial init) after (at_b ∷ at_a ∷ [])
      ("a" ∷ "b" ∷ []) refl usable_example chosen_example

served_within_directive_example :
    (e : ℕ) × (at_b.estimate ≡ some e)
    × (e ≤ 6000 + eps)
    × (committed "team" (in_scope "film") init + e ≤ 9000 + eps)
served_within_directive_example =
    served_within_directive [] cost_mode directive none planner whole none true init touched
      the_plan answers planner.clock planner.clock "t" at_b 1 none 6000 9000
      (record { scope = "film"; limit_usd = some 9000 }) policy_resolved planned_example
      served_example refl refl limit_example
