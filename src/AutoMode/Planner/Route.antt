-- ===== src/AutoMode/Planner/Route.antt =====
-- `plan_route` of mm_gateway/auto_mode.py, up to its logs and counters.
use mm_gateway.Prelude.{
  String, Bool, true, false, ◌&&◌, ◌||◌, not, Option, none, some, List, [], ◌∷◌, ◌++◌, map, ◌==◌,
  string_eq, nat_eq, option_eq, contains, keep, if◌then◌else◌,
}
use mm_gateway.Prelude.Int.{pos}
use mm_gateway.Prelude.Sort.{Key, sort_by}
use mm_gateway.Models.Limits.{lifecycle}
use mm_gateway.Models.Catalog.{limits_for}
use mm_gateway.Ledger.{CostLedger}
use mm_gateway.Registry.{RouteError, forbidden, profile_unavailable, no_texts}
use mm_gateway.Registry.Serving.{backends_serving, found, refused}
use mm_gateway.AutoMode.Plan.{
  RoutingPolicy, Candidate, RoutePlan, Fallback, fallback_none, same_model, any, NoCandidate,
  no_candidate_error, pinned_kind, replacement_kind, auto_kind, auto, pinned, Mode,
}
use mm_gateway.AutoMode.Planner.{Planner, Planning, tag_ok, is_retired}
use mm_gateway.AutoMode.Planner.Auto.{auto_candidates}
use mm_gateway.AutoMode.Planner.Pinning.{Pinned, audio_backends, plan_pinned}

-- The texts whose lower case is "auto"; no text but the empty one has none.
abbrev pub auto_spellings : List String
auto_spellings =
    "" ∷ "auto" ∷ "autO" ∷ "auTo" ∷ "auTO" ∷ "aUto" ∷ "aUtO" ∷ "aUTo" ∷ "aUTO" ∷ "Auto" ∷ "AutO"
    ∷ "AuTo" ∷ "AuTO" ∷ "AUto" ∷ "AUtO" ∷ "AUTo" ∷ "AUTO" ∷ []

unfoldable pub is_auto : Option String → Bool
is_auto none = true
is_auto (some model) = contains auto_spellings model

pub data PlanError : Type 0 where
  route_error : RouteError → PlanError
  retired_error : Option String → PlanError
  candidate_error : NoCandidate → PlanError

pub data PlanOutcome (A : Type 0) : Type 0 where
  planned : A → PlanOutcome A
  failed : CostLedger → PlanError → PlanOutcome A

abbrev pub initial : CostLedger → Planning
initial l = record { ledger = l; checks = 0; excluded = []; rejections = [] }

abbrev pub is_any : Fallback → Bool
is_any f = elim f [ fallback_none ↦ false | same_model ↦ false | any ↦ true ]

abbrev pub is_empty {ℓ} : {A : Type ℓ} → List A → Bool
is_empty [] = true
is_empty (x ∷ xs) = false

-- `legacy_tag or tags`
abbrev pub wants_tag : RoutingPolicy → Bool
wants_tag policy =
    (elim policy.legacy_tag [ none ↦ false | some t ↦ not (t == "") ]) || not (no_texts policy.tags)

abbrev pub as_replacement : String → Candidate → Candidate
as_replacement successor c =
    if c.model == successor then record c { kind = replacement_kind } else c

-- c.kind != "replacement"
abbrev pub replacement_key : Candidate → Key
replacement_key c = elim c.kind [
  | pinned_kind ↦ pos 1 ∷ []
  | replacement_kind ↦ pos 0 ∷ []
  | auto_kind ↦ pos 1 ∷ []
]

abbrev pub successor_first : Option String → List Candidate → List Candidate
successor_first none others = others
successor_first (some successor) others =
    if successor == ""
    then others
    else sort_by replacement_key (map (as_replacement successor) others)

module _ {R : Type 0} (planner : Planner R) where
  -- The candidates of the other models, when the policy allows any.
  unfoldable pub with_others : Option String → String → Pinned → Option Pinned
  unfolding auto_candidates
  with_others backend_name real pin =
      if is_any planner.policy.fallback
      then elim (auto_candidates planner backend_name (some real) pin.planning) [
        | none ↦ none
        | some (q, others) ↦ some (record pin {
          planning = q;
          candidates =
              pin.candidates
              ++ successor_first (limits_for real planner.modality planner.catalog).replacement
                  others;
        })
      ]
      else some pin

  abbrev pub plan_of : Mode → Pinned → RoutePlan
  plan_of mode' pin = record {
    modality = planner.modality;
    mode = mode';
    policy = planner.policy;
    candidates = pin.candidates;
    excluded = pin.planning.excluded;
    rejections = pin.planning.rejections;
    pinned_unavailable = pin.unavailable;
  }

  abbrev pub conclude : Mode → Bool → Pinned → PlanOutcome (RoutePlan × CostLedger)
  conclude mode' raise_errors pin =
      if is_empty pin.candidates && raise_errors
      then failed pin.planning.ledger
          (candidate_error (no_candidate_error pin.planning.excluded pin.planning.rejections))
      else planned (plan_of mode' pin, pin.planning.ledger)

  -- A pinned model whose backends are known.
  unfoldable pub plan_tagged :
      Option String
      → Bool
      → String
      → String
      → List String
      → Planning
      → PlanOutcome (RoutePlan × CostLedger)
  unfolding plan_pinned with_others
  plan_tagged backend_name raise_errors requested real tagged p =
      let lims = limits_for real planner.modality planner.catalog in
      if wants_tag planner.policy && no_texts tagged
      then failed p.ledger (route_error profile_unavailable)
      else if is_retired (lifecycle lims planner.catalog.today)
          && (not (is_any planner.policy.fallback) && raise_errors)
      then failed p.ledger (retired_error lims.replacement)
      else let pin = plan_pinned planner requested real tagged p in
        elim (with_others backend_name real pin) [
          | none ↦ failed pin.planning.ledger (route_error forbidden)
          | some whole ↦ conclude pinned raise_errors whole
        ]

  unfoldable pub plan_route :
      (String → Option (String × String))
      → Option String
      → Bool
      → CostLedger
      → PlanOutcome (RoutePlan × CostLedger)
  unfolding is_auto auto_candidates plan_tagged tag_ok
  plan_route split backend_name raise_errors l =
      if is_auto planner.request.model
      then elim (auto_candidates planner backend_name none (initial l)) [
        | none ↦ failed l (route_error forbidden)
        | some (q, candidates) ↦
            conclude auto raise_errors
              (record { planning = q; candidates = candidates; unavailable = none })
      ]
      else let requested : String = elim planner.request.model [
        | none ↦ "auto"
        | some model ↦ model
      ] in
        elim (backends_serving split requested planner.key planner.modality backend_name
          planner.registry) [
            | refused e ↦ failed l (route_error e)
            | found (real, backends) ↦
                let (q, usable) =
                  if planner.modality == "audio"
                  then audio_backends planner real backends (initial l)
                  else (initial l, backends) in
                plan_tagged backend_name raise_errors requested real (keep (tag_ok planner) usable)
                  q
          ]
