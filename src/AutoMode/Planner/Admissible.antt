-- ===== src/AutoMode/Planner/Admissible.antt =====
-- Every candidate that the gateway chose passed every stage.
use mm_gateway.Prelude.{
  ℕ, ◌+◌, String, ◌≡◌, ◌⊎◌, inl, inr, refl, ap, subst, ◌∙◌, true, false, Option, none, some, List,
  [], ◌∷◌, ◌++◌, ◌==◌, string_eq, option_eq, All, All-append, Bool-cases, Option-cases, arith,
}
use mm_gateway.Prelude.Sort.{Key, sort_by, sort_by-All}
use mm_gateway.Models.Limits.{ModelLimits, Lifecycle, lifecycle}
use mm_gateway.Models.Catalog.{limits_for}
use mm_gateway.Router.{score, fits}
use mm_gateway.Ledger.{CostLedger}
use mm_gateway.Registry.{Provider}
use mm_gateway.Registry.Serving.{accounts_of, models_of, usable_for_modality}
use mm_gateway.AutoMode.Plan
use mm_gateway.AutoMode.Plan.{
  Candidate, CandidateKind, Exclusion, ExclusionReason, limits, pinned_kind, auto_kind, same_reason,
}
use mm_gateway.AutoMode.Planner.{
  Planner, Planning, Admission, admitted, denied, estimate, admit, tag_ok, is_retired, exclude,
  excludes, audio_candidate_ok,
}
use mm_gateway.AutoMode.Planner.Auto.{
  auto_accounts, auto_model, auto_models, auto_backends, auto_candidates, static_key,
}
use mm_gateway.AutoMode.Planner.Affordable.{
  SameCommitted, Affordable, admit-SameCommitted, admit-Affordable,
}

pub exclude-ledger : (e : Exclusion) (p : Planning) → (exclude e p).ledger ≡ p.ledger
exclude-ledger e p = ground arith

pub Admission-cases :
    (a : Admission)
    → ((est : Option ℕ) × (a ≡ admitted est))
      ⊎ ((est : Option ℕ) × (reason : ExclusionReason) × (a ≡ denied est reason))
Admission-cases (admitted est) = inl (est, refl)
Admission-cases (denied est reason) = inr (est, reason, refl)

module _ {R : Type 0} (planner : Planner R) (l : CostLedger) where
  abbrev pub limits_of : String → ModelLimits
  limits_of model = limits_for model planner.modality planner.catalog

  abbrev pub IsActive : String → Type 0
  IsActive model = is_retired (lifecycle (limits_of model) planner.catalog.today) ≡ false

  abbrev pub Fits : String → Type 0
  Fits model = (fits planner.request.profile (limits_of model)).0 ≡ true

  -- What every candidate that the gateway chose passed.
  abbrev pub IsAdmissible : Candidate → Type 0
  IsAdmissible c =
      IsActive c.model
      × Affordable planner l c.model c.estimate
      × (tag_ok planner c.backend ≡ true)
      × Fits c.model

  abbrev pub IsGood : Planning × List Candidate → Type 0
  IsGood (p, cs) = SameCommitted l p.ledger × All IsAdmissible cs

  pub audio-ledger :
      (name account : String) (provider : Provider R) (model : String) (p : Planning)
      → (audio_candidate_ok planner name account provider model p).0.ledger ≡ p.ledger
  unfolding audio_candidate_ok
  audio-ledger name account provider model p = ground arith

  auto_accounts-IsGood :
      (name model : String) (est : Option ℕ) (life : Lifecycle) (static : Key)
      (accounts : List (String × Provider R)) (p : Planning)
      → SameCommitted l p.ledger
      → IsActive model
      → Affordable planner l model est
      → tag_ok planner name ≡ true
      → Fits model
      → IsGood (auto_accounts planner name model est life static accounts p)
  unfolding auto_accounts
  auto_accounts-IsGood name model est life static [] p same active affordable tagged fit =
      (same, tt)
  auto_accounts-IsGood name model est life static ((account, provider) ∷ rest) p same active
        affordable tagged fit =
      let (q, ok) = audio_candidate_ok planner name account provider model p in
      let kept : SameCommitted l q.ledger = λ id a.
        ap (mm_gateway.Ledger.Committed.committed id a) (audio-ledger name account provider model p)
        ∙ same id a in
      let (done, good) =
        auto_accounts-IsGood name model est life static rest q kept active affordable tagged fit in
      elim (Bool-cases ok) [
        | inl ok_now ↦ rw ok_now (done, ((active, affordable, tagged, fit), good))
        | inr not_ok ↦ rw not_ok (done, good)
      ]

  excluded-IsGood :
      (e : Exclusion) (p : Planning) → SameCommitted l p.ledger → IsGood (exclude e p, [])
  excluded-IsGood e p same = (
    (λ id a. ap (mm_gateway.Ledger.Committed.committed id a) (exclude-ledger e p) ∙ same id a),
    tt,
  )

  admission-IsGood :
      (name model : String) (b m hits : ℕ) (p : Planning)
      → SameCommitted l p.ledger
      → IsActive model
      → tag_ok planner name ≡ true
      → Fits model
      → IsGood (
          let (q, admission) = admit planner model (limits_of model) p in
          let life = lifecycle (limits_of model) planner.catalog.today in
          elim admission as (λ _. Planning × List Candidate) [
            | denied est reason ↦ (excludes model reason est life q, [])
            | admitted est ↦
                auto_accounts planner name model est life
                  (static_key planner name hits life b m)
                  (accounts_of planner.registry name)
                  q
          ])
  admission-IsGood name model b m hits p same active tagged fit =
      let (q, admission) = admit planner model (limits_of model) p in
      let life = lifecycle (limits_of model) planner.catalog.today in
      let kept = admit-SameCommitted planner l model (limits_of model) p same in
      elim (Admission-cases admission) [
        | inr (est, reason, refused) ↦ rw refused (
            excluded-IsGood
              (record { model = model; reason = reason; estimate = est; lifecycle = life }) q kept)
        | inl (est, granted) ↦ rw granted (
            auto_accounts-IsGood name model est life (static_key planner name hits life b m)
              (accounts_of planner.registry name) q kept active
              (admit-Affordable planner l model p est same granted) tagged fit)
      ]

  auto_model-IsGood :
      (skip : Option String) (name : String) (b m : ℕ) (model : String) (p : Planning)
      → SameCommitted l p.ledger
      → tag_ok planner name ≡ true
      → IsGood (auto_model planner skip name b m model p)
  unfolding auto_model score
  auto_model-IsGood skip name b m model p same tagged =
      let lims = limits_of model in
      let life = lifecycle lims planner.catalog.today in
      elim (Bool-cases (skip == some model)) [
        | inl skipped ↦ rw (skipped, auto_model) (same, tt)
        | inr other ↦ elim (Bool-cases (fits planner.request.profile lims).0) [
          | inr misfit ↦
              rw (other, auto_model, score, misfit)
                (excluded-IsGood
                  (record { model = model; reason = limits; estimate = none; lifecycle = life }) p
                  same)
          | inl fit ↦ elim (Bool-cases (is_retired life)) [
            | inl gone ↦
                rw (other, auto_model, score, fit, gone)
                  (excluded-IsGood
                    (record {
                      model = model;
                      reason = Plan.retired;
                      estimate = estimate planner model lims;
                      lifecycle = life;
                    })
                    p same)
            | inr active ↦
                rw (other, auto_model, score, fit, active)
                  (admission-IsGood name model b m (fits planner.request.profile lims).1 p same
                    active tagged fit)
          ]
        ]
      ]

  together :
      (found more : List Candidate) (q : Planning)
      → All IsAdmissible found
      → IsGood (q, more)
      → IsGood (q, found ++ more)
  together found more q h k = (k.0, All-append IsAdmissible found more h k.1)

  auto_models-IsGood :
      (skip : Option String) (name : String) (b m : ℕ) (models : List String) (p : Planning)
      → SameCommitted l p.ledger
      → tag_ok planner name ≡ true
      → IsGood (auto_models planner skip name b m models p)
  unfolding auto_models
  auto_models-IsGood skip name b m [] p same tagged = (same, tt)
  auto_models-IsGood skip name b m (model ∷ models) p same tagged =
      let (kept, good) = auto_model-IsGood skip name b m model p same tagged in
      let (q, found) = auto_model planner skip name b m model p in
      let rest = auto_models planner skip name b (m + 1) models q in
      together found rest.1 rest.0 good
        (auto_models-IsGood skip name b (m + 1) models q kept tagged)

  auto_backends-IsGood :
      (skip : Option String) (b : ℕ) (names : List String) (p : Planning)
      → SameCommitted l p.ledger
      → IsGood (auto_backends planner skip b names p)
  unfolding auto_backends
  auto_backends-IsGood skip b [] p same = (same, tt)
  auto_backends-IsGood skip b (name ∷ names) p same = elim (Bool-cases (tag_ok planner name)) [
    | inl tagged ↦
        let (kept, good) =
          auto_models-IsGood skip name b 0 (models_of planner.registry name planner.modality) p same
            tagged in
        let (q, found) =
          auto_models planner skip name b 0 (models_of planner.registry name planner.modality) p in
        let rest = auto_backends planner skip (b + 1) names q in
        rw tagged
          (together found rest.1 rest.0 good (auto_backends-IsGood skip (b + 1) names q kept))
    | inr untagged ↦ rw untagged (auto_backends-IsGood skip (b + 1) names p same)
  ]

  pub auto_candidates-IsGood :
      (backend_name skip : Option String) (p q : Planning) (cs : List Candidate)
      → SameCommitted l p.ledger
      → auto_candidates planner backend_name skip p ≡ some (q, cs)
      → IsGood (q, cs)
  unfolding auto_candidates
  auto_candidates-IsGood backend_name skip p q cs same h =
      elim (Option-cases
        (usable_for_modality planner.key planner.modality backend_name planner.registry)) [
          | inl gone ↦ absurd (ground arith)
          | inr (names, usable) ↦
              let (done, found) = auto_backends planner skip 0 names p in
              let is_q : done ≡ q = ground arith in
              let is_cs : sort_by (λ (c : Candidate). c.sort_key) found ≡ cs = ground arith in
              (
                subst (λ (x : Planning). SameCommitted l x.ledger) is_q
                    (auto_backends-IsGood skip 0 names p same).0,
                subst (All IsAdmissible) is_cs (
                    sort_by-All (λ (c : Candidate). c.sort_key) IsAdmissible found
                      (auto_backends-IsGood skip 0 names p same).1),
              )
        ]
