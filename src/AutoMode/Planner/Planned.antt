-- ===== src/AutoMode/Planner/Planned.antt =====
-- Every candidate of a plan, pinned or chosen, passed the stages.
use mm_gateway.Prelude.{
  String, ◌≡◌, ◌⊎◌, inl, inr, refl, subst, Bool, true, Option, none, some, List, [], ◌∷◌, ◌++◌,
  ◌==◌, string_eq, map, keep, All, All-append, Bool-cases, Option-cases, arith, if◌then◌else◌,
}
use mm_gateway.Prelude.Sort.{sort_by-All}
use mm_gateway.Ledger.{CostLedger}
use mm_gateway.Registry.{RouteError}
use mm_gateway.Registry.Serving.{Outcome, found, refused, backends_serving}
use mm_gateway.AutoMode.Plan.{Candidate, RoutePlan, Mode, auto, pinned}
use mm_gateway.AutoMode.Planner.{Planner, Planning, tag_ok}
use mm_gateway.AutoMode.Planner.Auto.{auto_candidates}
use mm_gateway.AutoMode.Planner.Affordable.{SameCommitted}
use mm_gateway.AutoMode.Planner.Admissible.{IsAdmissible, auto_candidates-IsGood, limits_of}
use mm_gateway.AutoMode.Planner.Route.{
  planned, is_auto, is_any, as_replacement, successor_first, replacement_key, with_others, conclude,
  plan_tagged, plan_route, initial,
}
use mm_gateway.AutoMode.Planner.Pinning.{Pinned, audio_backends, plan_pinned}
use mm_gateway.AutoMode.Planner.Pinned.{
  IsPlanned, IsSound, unchanged, audio_backends-ledger, plan_pinned-IsSound,
}

All-keep : (test : String → Bool) (xs : List String) → All (λ x. test x ≡ true) (keep test xs)
All-keep test [] = tt
All-keep test (x ∷ xs) = elim (Bool-cases (test x)) [
  | inl passes ↦ rw passes (passes, All-keep test xs)
  | inr fails ↦ rw fails (All-keep test xs)
]

served-cases :
    (o : Outcome (String × List String))
    → ((e : RouteError) × (o ≡ refused e))
      ⊎ ((real : String) × (cs : List String) × (o ≡ found (real, cs)))
served-cases (refused e) = inl (e, refl)
served-cases (found (real, cs)) = inr (real, cs, refl)

module _ {R : Type 0} (planner : Planner R) (l : CostLedger) where
  chosen-IsPlanned :
      (cs : List Candidate) → All (IsAdmissible planner l) cs → All (IsPlanned planner l) cs
  chosen-IsPlanned [] h = tt
  chosen-IsPlanned (c ∷ cs) (h, rest) =
      let (active, affordable, tagged, fit) = h in
      ((active, affordable, tagged, inr fit), chosen-IsPlanned cs rest)

  replaced-IsAdmissible :
      (successor : String) (cs : List Candidate)
      → All (IsAdmissible planner l) cs
      → All (IsAdmissible planner l) (map (as_replacement successor) cs)
  replaced-IsAdmissible successor [] h = tt
  replaced-IsAdmissible successor (c ∷ cs) (h, rest) = elim (Bool-cases (c.model == successor)) [
    | inl same ↦ rw same (h, replaced-IsAdmissible successor cs rest)
    | inr other ↦ rw other (h, replaced-IsAdmissible successor cs rest)
  ]

  successor_first-IsAdmissible :
      (successor : Option String) (cs : List Candidate)
      → All (IsAdmissible planner l) cs
      → All (IsAdmissible planner l) (successor_first successor cs)
  successor_first-IsAdmissible none cs h = h
  successor_first-IsAdmissible (some s) cs h = elim (Bool-cases (s == "")) [
    | inl empty ↦ rw empty h
    | inr named ↦ rw named (
        sort_by-All replacement_key (IsAdmissible planner l) (map (as_replacement s) cs)
          (replaced-IsAdmissible s cs h))
  ]

  with_others-IsSound :
      (backend_name : Option String) (real : String) (pin whole : Pinned)
      → IsSound planner l pin
      → with_others planner backend_name real pin ≡ some whole
      → IsSound planner l whole
  unfolding with_others
  with_others-IsSound backend_name real pin whole sound h =
      elim (Bool-cases (is_any planner.policy.fallback)) [
        | inr alone ↦ let is : pin ≡ whole = ground arith in subst (IsSound planner l) is sound
        | inl more ↦
            elim (Option-cases (auto_candidates planner backend_name (some real) pin.planning)) [
              | inl gone ↦ absurd (ground arith)
              | inr ((q, others), chosen) ↦
                  let (kept, good) =
                    auto_candidates-IsGood planner l backend_name (some real) pin.planning q others
                      sound.0 chosen in
                  let first = successor_first (limits_of planner l real).replacement others in
                  let is : record pin { planning = q; candidates = pin.candidates ++ first }
                      ≡ whole =
                    ground arith in
                  subst (IsSound planner l) is (
                    kept,
                    All-append (IsPlanned planner l) pin.candidates first sound.1 (
                        chosen-IsPlanned first (
                          successor_first-IsAdmissible (limits_of planner l real).replacement others
                            good)),
                  )
            ]
      ]

  conclude-IsPlanned :
      (mode' : Mode) (raise_errors : Bool) (pin : Pinned) (plan : RoutePlan) (m : CostLedger)
      → IsSound planner l pin
      → conclude planner mode' raise_errors pin ≡ planned (plan, m)
      → SameCommitted l m × All (IsPlanned planner l) plan.candidates
  conclude-IsPlanned mode' raise_errors pin plan m sound h =
      let same_ledger : pin.planning.ledger ≡ m = ground arith in
      let same_candidates : pin.candidates ≡ plan.candidates = ground arith in
      (
        subst (SameCommitted l) same_ledger sound.0,
        subst (All (IsPlanned planner l)) same_candidates sound.1,
      )

  plan_tagged-IsPlanned :
      (backend_name : Option String) (raise_errors : Bool) (requested real : String)
      (tagged : List String) (p : Planning) (plan : RoutePlan) (m : CostLedger)
      → SameCommitted l p.ledger
      → All (λ n. tag_ok planner n ≡ true) tagged
      → plan_tagged planner backend_name raise_errors requested real tagged p ≡ planned (plan, m)
      → SameCommitted l m × All (IsPlanned planner l) plan.candidates
  unfolding plan_tagged
  plan_tagged-IsPlanned backend_name raise_errors requested real tagged p plan m same all_tagged h =
      let pin = plan_pinned planner requested real tagged p in
      elim (Option-cases (with_others planner backend_name real pin)) [
        | inl gone ↦ absurd (ground arith)
        | inr (whole, got) ↦
            conclude-IsPlanned pinned raise_errors whole plan m
              (with_others-IsSound backend_name real pin whole
                (plan_pinned-IsSound planner l requested real tagged p same all_tagged) got)
              (ground arith)
      ]

  -- Planning changes no budget's commitment, and every candidate of a plan is of a model that is
  -- not retired, has the estimate of the catalogue, within max_cost_usd if there is one and within
  -- what the key's budget (at a reading of the clock) and the scope's had left, and is at a backend
  -- with the tags of the policy; if it was not pinned, the request fits its model's limits.
  pub plan_route-IsPlanned :
      (split : String → Option (String × String)) (backend_name : Option String)
      (raise_errors : Bool) (plan : RoutePlan) (m : CostLedger)
      → plan_route planner split backend_name raise_errors l ≡ planned (plan, m)
      → SameCommitted l m × All (IsPlanned planner l) plan.candidates
  unfolding plan_route
  plan_route-IsPlanned split backend_name raise_errors plan m h =
      elim (Bool-cases (is_auto planner.request.model)) [
        | inl automatic ↦
            elim (Option-cases (auto_candidates planner backend_name none (initial l))) [
              | inl gone ↦ absurd (ground arith)
              | inr ((q, cs), chosen) ↦
                  let (kept, good) =
                    auto_candidates-IsGood planner l backend_name none (initial l) q cs
                      (λ id a. refl) chosen in
                  conclude-IsPlanned auto raise_errors
                    (record { planning = q; candidates = cs; unavailable = none }) plan m
                    (kept, chosen-IsPlanned cs good) (ground arith)
            ]
        | inr named ↦
            let requested : String = elim planner.request.model [
              | none ↦ "auto"
              | some model ↦ model
            ] in
            elim (served-cases (
              backends_serving split requested planner.key planner.modality backend_name
                planner.registry)) [
                  | inl (e, refuses) ↦ absurd (ground arith)
                  | inr (real, backends, finds) ↦
                      let step : Planning × List String =
                        if planner.modality == "audio"
                        then audio_backends planner real backends (initial l)
                        else (initial l, backends) in
                      let kept : step.0.ledger ≡ l =
                        ground (arith, audio_backends-ledger planner l real backends (initial l)) in
                      plan_tagged-IsPlanned backend_name raise_errors requested real
                        (keep (tag_ok planner) step.1) step.0 plan m
                        (unchanged planner l (initial l) step.0 kept (λ id a. refl))
                        (All-keep (tag_ok planner) step.1) (ground arith)
                ]
      ]
