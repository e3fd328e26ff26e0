-- ===== src/AutoMode/Estimate/Listing.antt =====
-- What an estimate lists: every model of the plan once, the candidates as admissible.
use mm_gateway.Prelude.{
  String, ◌≡◌, refl, sym, ◌∙◌, subst, ap, true, false, ◌||◌, Option, none, List, [], ◌∷◌, string_eq,
  contains, keep, All, All-append, arith, is_some,
}
use mm_gateway.Ledger.{CostLedger, DateTime}
use mm_gateway.AutoMode.Plan.{Candidate, RoutePlan}
use mm_gateway.AutoMode.Estimate.{
  EstimateCandidate, Estimate, admissible, inadmissible, list_new, list_candidates, estimate_route,
  estimate_of, first_model,
}
use mm_gateway.AutoMode.Planner.{Planner}
use mm_gateway.AutoMode.Planner.Route.{PlanOutcome, plan_route, planned, failed}
use mm_gateway.AutoMode.Planner.Admissible.{IsActive}
use mm_gateway.AutoMode.Planner.Affordable.{Affordable}
use mm_gateway.AutoMode.Planner.Pinned.{IsPlanned}
use mm_gateway.AutoMode.Planner.Planned.{plan_route-IsPlanned}
use mm_gateway.AutoMode.Estimate.Loop.{
  listed_models, AreDistinct, names, contains-append, listed_models-append, distinct-append,
  list_new-Loop, list_new-All, is_offered, keep-append, append_nil, keep_whole, keep_none,
  everywhere,
}

-- Every model of the plan is listed once, and offered if it is a candidate's.
pub record IsListing (plan : RoutePlan) (es : List EstimateCandidate) : Type 0 where
  pub once : AreDistinct (listed_models es)
  pub listed :
      (m : String)
      → contains (listed_models es) m ≡ (
          contains (names admissible plan.candidates) m
          || contains (names inadmissible plan.excluded) m)
  pub offered :
      (m : String)
      → contains (listed_models (keep is_offered es)) m
        ≡ contains (names admissible plan.candidates) m

list_candidates-IsListing : (plan : RoutePlan) → IsListing plan (list_candidates plan)
unfolding list_candidates
list_candidates-IsListing plan =
    let chosen = list_new admissible [] plan.candidates in
    let others = list_new inadmissible chosen.0 plan.excluded in
    let h = list_new-Loop admissible [] plan.candidates in
    let k = list_new-Loop inadmissible chosen.0 plan.excluded in
    let all_offered : keep is_offered chosen.1 ≡ chosen.1 = keep_whole chosen.1 (
      list_new-All admissible (λ e. e.reason ≡ none) [] plan.candidates
        (everywhere (λ c. (admissible c).reason ≡ none) plan.candidates (λ c. refl))) in
    let none_offered : keep is_offered others.1 ≡ [] = keep_none others.1 (
      list_new-All inadmissible (λ e. is_some e.reason ≡ true) chosen.0 plan.excluded
        (everywhere (λ e. is_some (inadmissible e).reason ≡ true) plan.excluded (λ e. refl))) in
    record {
      once = rw (listed_models-append chosen.1 others.1) (
          distinct-append (listed_models chosen.1) (listed_models others.1) h.distinct k.distinct
            (λ m found. ground (arith, h.listed m, k.listed m, h.seen_after m)));
      listed = λ m. ground (
        arith,
        listed_models-append chosen.1 others.1,
        contains-append (listed_models chosen.1) (listed_models others.1) m,
        h.listed m,
        k.listed m,
        h.seen_after m,
      );
      offered = λ m. ground (
        arith,
        keep-append chosen.1 others.1,
        all_offered,
        none_offered,
        append_nil chosen.1,
        h.listed m,
      );
    }

module _ {R : Type 0} (planner : Planner R) (l : CostLedger) where
  -- An offered model is not retired, and its amount is its price, within the caps.
  abbrev pub Promise : EstimateCandidate → Type 0
  Promise e =
      e.reason ≡ none → IsActive planner l e.model × Affordable planner l e.model e.estimated_cost

  promises :
      (plan : RoutePlan)
      → All (IsPlanned planner l) plan.candidates
      → All Promise (list_candidates plan)
  unfolding list_candidates
  promises plan good =
      let chosen = list_new admissible [] plan.candidates in
      let others = list_new inadmissible chosen.0 plan.excluded in
      All-append Promise chosen.1 others.1
        (list_new-All admissible Promise [] plan.candidates (kept plan.candidates good))
        (list_new-All inadmissible Promise chosen.0 plan.excluded
          (everywhere (λ e. Promise (inadmissible e)) plan.excluded (λ e h. cc)))
    where
      kept :
          (cs : List Candidate)
          → All (IsPlanned planner l) cs
          → All (λ c. Promise (admissible c)) cs
      kept [] h = tt
      kept (c ∷ cs) h = ((λ e. (h.0.0, h.0.1)), kept cs h.1)

  pub estimate_route_planned :
      (split : String → Option (String × String)) (backend_name : Option String) (now : DateTime)
      (plan : RoutePlan) (m : CostLedger)
      → plan_route planner split backend_name false l ≡ planned (plan, m)
      → estimate_route planner split backend_name now l
        ≡ planned (estimate_of planner now plan m, m)
  unfolding estimate_route
  estimate_route_planned split backend_name now plan m made = ground arith

  -- An estimate tells the plan that it was made from: every model of the plan's candidates and
  -- exclusions is listed once, and no other; it is offered exactly if it is a candidate's; the
  -- model named first is the first candidate's; and every offered model is not retired and is
  -- listed at the catalogue's price for the request, within max_cost_usd if there is one and within
  -- what the key's budget (at a reading of the clock) and the scope's had left.
  pub estimate_route-IsListing :
      (split : String → Option (String × String)) (backend_name : Option String) (now : DateTime)
      (est : Estimate) (m : CostLedger)
      → estimate_route planner split backend_name now l ≡ planned (est, m)
      → (plan : RoutePlan) × (plan_route planner split backend_name false l ≡ planned (plan, m))
        × IsListing plan est.candidates
        × (est.model ≡ first_model plan.candidates)
        × All Promise est.candidates
  unfolding estimate_route
  estimate_route-IsListing split backend_name now est m h =
      go (plan_route planner split backend_name false l) refl h
    where
      go :
          (outcome : PlanOutcome (RoutePlan × CostLedger))
          → plan_route planner split backend_name false l ≡ outcome
          → (elim outcome as (λ _. PlanOutcome (Estimate × CostLedger)) [
            | planned (plan, m') ↦ planned (estimate_of planner now plan m', m')
            | failed m' e ↦ failed m' e
          ])
            ≡ planned (est, m)
          → (plan : RoutePlan) × (plan_route planner split backend_name false l ≡ planned (plan, m))
            × IsListing plan est.candidates
            × (est.model ≡ first_model plan.candidates)
            × All Promise est.candidates
      go (failed m' e) made same = cc
      go (planned (plan, m')) made same =
          let is_est : estimate_of planner now plan m' ≡ est = cc in
          let is_m : m' ≡ m = cc in
          let (kept, good) = plan_route-IsPlanned planner l split backend_name false plan m' made in
          (
            plan,
            made ∙ ap (λ l'. planned (plan, l')) is_m,
            subst (λ (e : Estimate). IsListing plan e.candidates) is_est
                (list_candidates-IsListing plan),
            sym (ap (λ (e : Estimate). e.model) is_est),
            subst (λ (e : Estimate). All Promise e.candidates) is_est (promises plan good),
          )
