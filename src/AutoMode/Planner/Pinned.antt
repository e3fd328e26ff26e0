-- ===== src/AutoMode/Planner/Pinned.antt =====
-- The candidates of a pinned model passed the stages.
use mm_gateway.Prelude.{
  ℕ, ◌+◌, String, ◌≡◌, ◌⊎◌, inl, inr, refl, ap, ◌∙◌, Bool, true, false, ◌&&◌, not, Option, none,
  List, [], ◌∷◌, ◌==◌, string_eq, All, All-append, Bool-cases, arith, if◌then◌else◌,
}
use mm_gateway.Prelude.Sort.{sort_by, sort_by-All}
use mm_gateway.Models.Limits.{Lifecycle, lifecycle}
use mm_gateway.Router.{score}
use mm_gateway.Ledger.{CostLedger}
use mm_gateway.Ledger.Committed.{committed}
use mm_gateway.Registry.{Provider}
use mm_gateway.Registry.Serving.{accounts_of}
use mm_gateway.AutoMode.Plan
use mm_gateway.AutoMode.Plan.{
  Candidate, CandidateKind, Exclusion, RoutePlan, limits, pinned_kind, Mode, auto, pinned,
}
use mm_gateway.AutoMode.Planner.{
  Planner, Planning, admit, tag_ok, is_retired, exclude, audio_candidate_ok,
}
use mm_gateway.AutoMode.Planner.Affordable.{
  SameCommitted, Affordable, admit-SameCommitted, admit-Affordable,
}
use mm_gateway.AutoMode.Planner.Admissible.{
  IsActive, Fits, limits_of, exclude-ledger, Admission-cases, audio-ledger,
}
use mm_gateway.AutoMode.Planner.Pinning.{
  Pinned, audio_accounts, any_account, audio_backends, pinned_accounts, chosen_accounts,
  pinned_backends, chosen_backends, pinned_admitted, plan_pinned, is_fallback_none, take_one,
}

All-take_one : {A : Type 0} (P : A → Type 0) (xs : List A) → All P xs → All P (take_one xs)
All-take_one P [] h = tt
All-take_one P (x ∷ xs) h = (h.0, tt)

module _ {R : Type 0} (planner : Planner R) (l : CostLedger) where
  -- A candidate that the gateway chose itself also fits the limits.
  abbrev pub IsPlanned : Candidate → Type 0
  IsPlanned c =
      IsActive planner l c.model
      × Affordable planner l c.model c.estimate
      × (tag_ok planner c.backend ≡ true)
      × ((c.kind ≡ pinned_kind) ⊎ Fits planner l c.model)

  abbrev pub ArePlanned : Planning × List Candidate → Type 0
  ArePlanned (p, cs) = SameCommitted l p.ledger × All IsPlanned cs

  audio_accounts-ledger :
      (name model : String) (accounts : List (String × Provider R)) (p : Planning)
      → (audio_accounts planner name model accounts p).0.ledger ≡ p.ledger
  audio_accounts-ledger name model [] p = refl
  audio_accounts-ledger name model ((account, provider) ∷ rest) p = ground (
    arith,
    audio-ledger planner l name account provider model p,
    audio_accounts-ledger name model rest
        (audio_candidate_ok planner name account provider model p).0,
  )

  any_account-ledger :
      (name model : String) (accounts : List (String × Provider R)) (p : Planning)
      → (any_account planner name model accounts p).0.ledger ≡ p.ledger
  any_account-ledger name model [] p = refl
  any_account-ledger name model ((account, provider) ∷ rest) p = ground (
    arith,
    audio-ledger planner l name account provider model p,
    any_account-ledger name model rest (audio_candidate_ok planner name account provider model p).0,
  )

  pub audio_backends-ledger :
      (model : String) (names : List String) (p : Planning)
      → (audio_backends planner model names p).0.ledger ≡ p.ledger
  audio_backends-ledger model [] p = refl
  audio_backends-ledger model (name ∷ names) p = ground (
    arith,
    any_account-ledger name model (accounts_of planner.registry name) p,
    audio_backends-ledger model names
        (any_account planner name model (accounts_of planner.registry name) p).0,
  )

  pub unchanged :
      (p q : Planning) → q.ledger ≡ p.ledger → SameCommitted l p.ledger → SameCommitted l q.ledger
  unchanged p q e same id a = ap (committed id a) e ∙ same id a

  pinned_accounts-IsPlanned :
      (name model : String) (est : Option ℕ) (life : Lifecycle) (order : ℕ)
      (accounts : List (String × Provider R))
      → IsActive planner l model
      → Affordable planner l model est
      → tag_ok planner name ≡ true
      → All IsPlanned (pinned_accounts planner name model est life order accounts)
  pinned_accounts-IsPlanned name model est life order [] active affordable tagged = tt
  pinned_accounts-IsPlanned name model est life order ((account, provider) ∷ rest) active affordable
        tagged =
      (
        (active, affordable, tagged, inl refl),
        pinned_accounts-IsPlanned name model est life order rest active affordable tagged,
      )

  pinned_backends-ArePlanned :
      (model : String) (est : Option ℕ) (life : Lifecycle) (order : ℕ) (names : List String)
      (p : Planning)
      → SameCommitted l p.ledger
      → IsActive planner l model
      → Affordable planner l model est
      → All (λ n. tag_ok planner n ≡ true) names
      → ArePlanned (pinned_backends planner model est life order names p)
  unfolding pinned_backends
  pinned_backends-ArePlanned model est life order [] p same active affordable tagged = (same, tt)
  pinned_backends-ArePlanned model est life order (name ∷ names) p same active affordable tagged =
      let accounts = accounts_of planner.registry name in
      let step : Planning × List (String × Provider R) =
        if planner.modality == "audio"
        then audio_accounts planner name model accounts p
        else (p, accounts) in
      let kept : step.0.ledger ≡ p.ledger =
        ground (arith, audio_accounts-ledger name model accounts p) in
      let (done, rest) =
        pinned_backends-ArePlanned model est life (order + 1) names step.0
          (unchanged p step.0 kept same) active affordable tagged.1 in
      (
        done,
        All-append IsPlanned
            (pinned_accounts planner name model est life order (chosen_accounts planner step.1))
            (pinned_backends planner model est life (order + 1) names step.0).1
            (pinned_accounts-IsPlanned name model est life order (chosen_accounts planner step.1)
              active affordable tagged.0)
            rest,
      )

  -- The candidates and the planner's state of the pinned part.
  abbrev pub IsSound : Pinned → Type 0
  IsSound pin = ArePlanned (pin.planning, pin.candidates)

  chosen_backends-tagged :
      (tagged : List String)
      → All (λ n. tag_ok planner n ≡ true) tagged
      → All (λ n. tag_ok planner n ≡ true) (chosen_backends planner tagged)
  chosen_backends-tagged tagged h = elim (Bool-cases (is_fallback_none planner.policy.fallback)) [
    | inl alone ↦ rw alone (All-take_one (λ n. tag_ok planner n ≡ true) tagged h)
    | inr more ↦ rw more h
  ]

  sorted_unless :
      (b : Bool) (cs : List Candidate)
      → All IsPlanned cs
      → All IsPlanned (if b then cs else sort_by (λ c. c.sort_key) cs)
  sorted_unless true cs h = h
  sorted_unless false cs h = sort_by-All (λ (c : Candidate). c.sort_key) IsPlanned cs h

  pinned_admitted-IsSound :
      (real : String) (est : Option ℕ) (life : Lifecycle) (tagged : List String) (p : Planning)
      → SameCommitted l p.ledger
      → IsActive planner l real
      → Affordable planner l real est
      → All (λ n. tag_ok planner n ≡ true) tagged
      → IsSound (pinned_admitted planner real est life tagged p)
  unfolding pinned_admitted
  pinned_admitted-IsSound real est life tagged p same active affordable all_tagged =
      let (kept, good) =
        pinned_backends-ArePlanned real est life 0 (chosen_backends planner tagged) p same active
          affordable (chosen_backends-tagged tagged all_tagged) in
      let (q, cs) = pinned_backends planner real est life 0 (chosen_backends planner tagged) p in
      (kept, sorted_unless (is_fallback_none planner.policy.fallback) cs good)

  without_candidates :
      (e : Exclusion) (p : Planning) → SameCommitted l p.ledger → ArePlanned (exclude e p, [])
  without_candidates e p same = (unchanged p (exclude e p) (exclude-ledger e p) same, tt)

  pub plan_pinned-IsSound :
      (requested real : String) (tagged : List String) (p : Planning)
      → SameCommitted l p.ledger
      → All (λ n. tag_ok planner n ≡ true) tagged
      → IsSound (plan_pinned planner requested real tagged p)
  unfolding plan_pinned
  plan_pinned-IsSound requested real tagged p same all_tagged =
      let lims = limits_of planner l real in
      let life = lifecycle lims planner.catalog.today in
      elim (Bool-cases (is_retired life)) [
        | inl gone ↦
            rw (gone, plan_pinned)
              (without_candidates
                (record {
                  model = requested;
                  reason = Plan.retired;
                  estimate = none;
                  lifecycle = life;
                })
                p same)
        | inr active ↦
            elim (Bool-cases
              (planner.modality == "audio" && not (score planner.request.profile lims 0 0).fits)) [
                | inl misfit ↦
                    rw (active, plan_pinned, misfit)
                      (without_candidates
                        (record {
                          model = requested;
                          reason = limits;
                          estimate = none;
                          lifecycle = life;
                        })
                        p same)
                | inr fine ↦
                    let (q, admission) = admit planner real lims p in
                    let kept = admit-SameCommitted planner l real lims p same in
                    rw (active, plan_pinned, fine)
                      (elim (Admission-cases admission) [
                        | inr (est, reason, no_room) ↦ rw no_room (
                            without_candidates
                              (record {
                                model = requested;
                                reason = reason;
                                estimate = est;
                                lifecycle = life;
                              })
                              q kept)
                        | inl (est, granted) ↦ rw granted (
                            pinned_admitted-IsSound real est life tagged q kept active
                              (admit-Affordable planner l real p est same granted) all_tagged)
                      ])
              ]
      ]
