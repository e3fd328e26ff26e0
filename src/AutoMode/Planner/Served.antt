-- ===== src/AutoMode/Planner/Served.antt =====
-- A plan that is carried out: `plan_route`, then `execute_plan`.
use mm_gateway.Prelude.{ℕ, String, ◌≡◌, Option, Bool, List, [], ◌∷◌, ◌++◌, All, subst}
use mm_gateway.Ledger.{CostLedger, DateTime}
use mm_gateway.AutoMode.{Attempted, Candidate, RoutePlan, execute_plan, served}
use mm_gateway.AutoMode.Errors.{Reason}
use mm_gateway.AutoMode.First.{execute_plan-FirstSuccess}
use mm_gateway.AutoMode.Planner.{Planner}
use mm_gateway.AutoMode.Planner.Route.{planned, plan_route}
use mm_gateway.AutoMode.Planner.Pinned.{IsPlanned}
use mm_gateway.AutoMode.Planner.Planned.{plan_route-IsPlanned}

All-middle :
    {A : Type 0} (P : A → Type 0) (before : List A) (x : A) (after : List A)
    → All P (before ++ (x ∷ after))
    → P x
All-middle P [] x after h = h.0
All-middle P (y ∷ before) x after h = All-middle P before x after h.1

-- When a plan of plan_route is executed and a candidate serves the request, that candidate's model
-- is not retired, its estimate is the catalogue's price for the request, within max_cost_usd if the
-- policy has one, and within what the key's and the scope's budgets had left in the ledger that the
-- planner was given; its backend carries the tags of the policy, and, unless the model was pinned,
-- the request fits the model's limits.
pub served-IsPlanned :
    {R : Type 0} (planner : Planner R) (split : String → Option (String × String))
    (backend_name : Option String) (raise_errors : Bool) (l m : CostLedger) (plan : RoutePlan)
    (attempt : Candidate → ℕ → Attempted) (checked_at held_at : ℕ → DateTime) (task : String)
    (c : Candidate) (n : ℕ) (reason : Option Reason)
    → plan_route planner split backend_name raise_errors l ≡ planned (plan, m)
    → (execute_plan attempt checked_at held_at plan planner.key m).1 ≡ served task c n reason
    → IsPlanned planner l c
served-IsPlanned planner split backend_name raise_errors l m plan attempt checked_at held_at task c
      n reason h s =
    let (_, good) = plan_route-IsPlanned planner l split backend_name raise_errors plan m h in
    let (k, count, first) =
      execute_plan-FirstSuccess attempt checked_at held_at plan planner.key m task c n s in
    All-middle (IsPlanned planner l) first.before c first.after
      (subst (All (IsPlanned planner l)) first.split good)
