-- ===== src/Tests/Estimate.antt =====
-- The estimate of a request, from the plan over two backends.
use mm_gateway.Prelude.{◌≡◌, none, false, All}
use mm_gateway.Ledger.{init}
use mm_gateway.AutoMode.Plan.{RoutePlan}
use mm_gateway.AutoMode.Estimate.{estimate_route, estimate_of, first_model}
use mm_gateway.AutoMode.Estimate.Listing.{
  IsListing, Promise, estimate_route_planned, estimate_route-IsListing,
}
use mm_gateway.AutoMode.Planner.Route.{plan_route, planned}
use mm_gateway.Tests.Ledger.{noon}
use mm_gateway.Tests.Registry.{whole}
use mm_gateway.Tests.Planner.{planner, touched, the_plan, planned_quietly}

estimated :
    estimate_route planner whole none noon init
    ≡ planned (estimate_of planner noon the_plan touched, touched)
estimated = estimate_route_planned planner init whole none noon the_plan touched planned_quietly

estimate_route-IsListing_example :
    (plan : RoutePlan) × (plan_route planner whole none false init ≡ planned (plan, touched))
    × IsListing plan (estimate_of planner noon the_plan touched).candidates
    × ((estimate_of planner noon the_plan touched).model ≡ first_model plan.candidates)
    × All (Promise planner init) (estimate_of planner noon the_plan touched).candidates
estimate_route-IsListing_example =
    estimate_route-IsListing planner init whole none noon
      (estimate_of planner noon the_plan touched) touched estimated
