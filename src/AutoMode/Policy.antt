-- ===== src/AutoMode/Policy.antt =====
-- `resolve_policy` of mm_gateway/auto_mode.py: the request's routing directive over the operator's named
-- profile (`RoutingProfile` of mm_gateway/config.py) over the defaults.
pub mod Ceiling
use mm_gateway.Prelude.{
  ℕ, String, Bool, Option, none, some, List, [], ◌==◌, string_eq, if◌then◌else◌,
}
use mm_gateway.Prelude.Dict
use mm_gateway.Prelude.Dict.{Dict}
use mm_gateway.AutoMode.Plan.{RoutingPolicy, Optimize, Fallback, fallback_none}

pub record RoutingProfile : Type 0 where
  pub name : String
  pub tags : List String
  pub optimize : Option Optimize
  pub max_cost_usd : Option ℕ
  pub fallback : Option Fallback

pub record BudgetDirective : Type 0 where
  pub scope : String
  pub limit_usd : Option ℕ

pub record RoutingDirective : Type 0 where
  pub profile : Option String
  pub optimize : Option Optimize
  pub max_cost_usd : Option ℕ
  pub fallback : Option Fallback
  pub budget : Option BudgetDirective

-- A request without a directive.
abbrev pub no_directive : RoutingDirective
no_directive = record {
  profile = none;
  optimize = none;
  max_cost_usd = none;
  fallback = none;
  budget = none;
}

-- a or b, of names: one of no length is falsy
abbrev pub or_name : Option String → Option String → Option String
or_name none b = b
or_name (some a) b = if a == "" then b else some a

-- The directive's member, else the profile's.
abbrev pub pick :
    {A : Type 0} → Option A → Option RoutingProfile → (RoutingProfile → Option A) → Option A
pick (some a) profile member = some a
pick none none member = none
pick none (some p) member = member p

abbrev pub or_else : {A : Type 0} → Option A → A → A
or_else none default = default
or_else (some a) default = a

-- The profile that a name stands for; the empty name stands for none.
abbrev pub profile_of : Option String → Dict String RoutingProfile → Option RoutingProfile
profile_of none profiles = none
profile_of (some name) profiles = if name == "" then none else Dict.get name profiles

-- A name without a profile is a backend tag.
abbrev pub legacy_tag_of : Option String → Option RoutingProfile → Option String
legacy_tag_of name (some profile) = none
legacy_tag_of none none = none
legacy_tag_of (some name) none = if name == "" then none else some name

unfoldable pub resolve_policy :
    Dict String RoutingProfile → Optimize → RoutingDirective → Option String → RoutingPolicy
resolve_policy profiles default_optimize directive tag =
    let name = or_name directive.profile tag in
    let profile = profile_of name profiles in
    record {
      optimize = or_else (pick directive.optimize profile (λ p. p.optimize)) default_optimize;
      profile = name;
      tags = elim profile [ none ↦ [] | some p ↦ p.tags ];
      legacy_tag = legacy_tag_of name profile;
      max_cost_usd = pick directive.max_cost_usd profile (λ p. p.max_cost_usd);
      fallback = or_else (pick directive.fallback profile (λ p. p.fallback)) fallback_none;
      budget_scope = elim directive.budget [ none ↦ none | some b ↦ some b.scope ];
      budget_limit_usd = elim directive.budget [ none ↦ none | some b ↦ b.limit_usd ];
    }
