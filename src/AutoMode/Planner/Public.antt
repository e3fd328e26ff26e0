-- ===== src/AutoMode/Planner/Public.antt =====
-- A public video request that is planned, carried out and served: mm_gateway/translators/rest.py, then
-- mm_gateway/router.py and mm_gateway/auto_mode.py.
use mm_gateway.Prelude.{ℕ, String, ◌≡◌, ◌⊎◌, inl, inr, Option, Bool, true, subst}
use mm_gateway.Ledger.{CostLedger, DateTime}
use mm_gateway.Schemas.Rest.{VideoRequest}
use mm_gateway.Router.{RequestProfile, fits}
use mm_gateway.Router.Video.{ServesVideo, public_profile, fits-ServesVideo}
use mm_gateway.AutoMode.{Attempted, Candidate, RoutePlan, execute_plan, served}
use mm_gateway.AutoMode.Errors.{Reason}
use mm_gateway.AutoMode.Plan.{pinned_kind}
use mm_gateway.AutoMode.Planner.{Planner}
use mm_gateway.AutoMode.Planner.Route.{planned, plan_route}
use mm_gateway.AutoMode.Planner.Admissible.{limits_of}
use mm_gateway.AutoMode.Planner.Served.{served-IsPlanned}

-- From the public video request to its task: when a request whose profile is the one made from the
-- public body is planned and carried out and a candidate serves it, then that candidate was pinned,
-- or its model's documented limits deny nothing that the body has or asks for: its texts, images,
-- videos and recordings are of modalities that the model takes (if any are documented), each role
-- of its images and its reference videos and recordings is not documented as unsupported, nor is
-- sound if the body asks for it, and the number of images, the duration, the frame rate, the width
-- and the height are within the limits.
pub served-ServesVideo :
    {R : Type 0} (planner : Planner R) (split : String → Option (String × String))
    (backend_name : Option String) (raise_errors : Bool) (l m : CostLedger) (plan : RoutePlan)
    (attempt : Candidate → ℕ → Attempted) (checked_at held_at : ℕ → DateTime) (task : String)
    (c : Candidate) (n : ℕ) (reason : Option Reason) (body : VideoRequest)
    → planner.request.profile ≡ public_profile body
    → plan_route planner split backend_name raise_errors l ≡ planned (plan, m)
    → (execute_plan attempt checked_at held_at plan planner.key m).1 ≡ served task c n reason
    → (c.kind ≡ pinned_kind) ⊎ ServesVideo body (limits_of planner l c.model)
served-ServesVideo planner split backend_name raise_errors l m plan attempt checked_at held_at task
      c n reason body same h s =
    let (_, _, _, fit) =
      served-IsPlanned planner split backend_name raise_errors l m plan attempt checked_at held_at
        task c n reason h s in
    elim fit [
      | inl pinned ↦ inl pinned
      | inr fits_it ↦ inr (
          fits-ServesVideo body (limits_of planner l c.model) (
            subst (λ (p : RequestProfile). (fits p (limits_of planner l c.model)).0 ≡ true) same
              fits_it))
    ]
