-- ===== src/AutoMode/Planner/Cheapest.antt =====
-- What `optimize: cost` promises of the chosen candidates.
use mm_gateway.Prelude.{
  ℕ, ◌+◌, ◌≤◌, String, ◌≡◌, ◌∙◌, inl, inr, refl, sym, subst, Bool, true, false, not, is_some,
  Option, none, some, List, [], ◌∷◌, ◌==◌, string_eq, option_eq, All, All-append, Bool-cases,
  Option-cases, arith,
}
use mm_gateway.Prelude.Int.{pos, opposite}
use mm_gateway.Prelude.Sort.{Key, lt_key, sort_by, sort_by-All, sort_by-IsSorted, IsSorted}
use mm_gateway.Models.Limits.{Lifecycle, lifecycle}
use mm_gateway.Models.Catalog.{limits_for}
use mm_gateway.Router.{score}
use mm_gateway.Registry.{Provider}
use mm_gateway.Registry.Serving.{accounts_of, models_of, usable_for_modality, flag}
use mm_gateway.AutoMode.Plan.{Candidate, cost_mode}
use mm_gateway.AutoMode.Planner.{
  Planner, Planning, admit, tag_ok, is_retired, audio_candidate_ok, amount_of,
}
use mm_gateway.AutoMode.Planner.Auto.{
  order_key, auto_accounts, auto_model, auto_models, auto_backends, auto_candidates, static_key,
  is_deprecated,
}
use mm_gateway.AutoMode.Planner.Admissible.{Admission-cases}

abbrev head_key : Bool → Option ℕ → Key → Key
head_key limited est rest =
    pos (flag (not limited)) ∷ pos (flag (is_some est)) ∷ pos (amount_of est) ∷ rest

limited_last :
    (a b : Bool) (est est' : Option ℕ) (rest rest' : Key)
    → lt_key (head_key b est' rest') (head_key a est rest) ≡ false
    → a ≡ true
    → b ≡ true
unfolding lt_key
limited_last a true est est' rest rest' h k = refl
limited_last true false est est' rest rest' h k = cc
limited_last false false est est' rest rest' h k = k

cheaper_first :
    (a : Bool) (est est' : Option ℕ) (rest rest' : Key)
    → lt_key (head_key a est' rest') (head_key a est rest) ≡ false
    → (e : ℕ) → est' ≡ some e
    → (f : ℕ) × (est ≡ some f) × (f ≤ e)
unfolding lt_key
cheaper_first a est none rest rest' h e k = absurd (ground arith)
cheaper_first true none (some g) rest rest' h e k = absurd (ground arith)
cheaper_first false none (some g) rest rest' h e k = absurd (ground arith)
cheaper_first true (some f) (some g) rest rest' h e k = (f, refl, ground arith)
cheaper_first false (some f) (some g) rest rest' h e k = (f, refl, ground arith)

module _ {R : Type 0} (planner : Planner R) where
  -- The key of a chosen candidate is that of its estimate, lifecycle and health.
  abbrev pub IsKeyed : Candidate → Type 0
  IsKeyed c =
      (static : Key) × (c.sort_key
        ≡ order_key planner static c.estimate c.lifecycle
            (planner.health c.backend c.account_id c.model))

  auto_accounts-IsKeyed :
      (name model : String) (est : Option ℕ) (life : Lifecycle) (static : Key)
      (accounts : List (String × Provider R)) (p : Planning)
      → All IsKeyed (auto_accounts planner name model est life static accounts p).1
  unfolding auto_accounts
  auto_accounts-IsKeyed name model est life static [] p = tt
  auto_accounts-IsKeyed name model est life static ((account, provider) ∷ rest) p =
      let (q, ok) = audio_candidate_ok planner name account provider model p in
      let more = auto_accounts-IsKeyed name model est life static rest q in
      elim (Bool-cases ok) [
        | inl ok_now ↦ rw ok_now ((static, refl), more)
        | inr not_ok ↦ rw not_ok more
      ]

  auto_model-IsKeyed :
      (skip : Option String) (name : String) (b m : ℕ) (model : String) (p : Planning)
      → All IsKeyed (auto_model planner skip name b m model p).1
  unfolding auto_model
  auto_model-IsKeyed skip name b m model p =
      let lims = limits_for model planner.modality planner.catalog in
      let life = lifecycle lims planner.catalog.today in
      let fit = score planner.request.profile lims b m in
      elim (Bool-cases (skip == some model)) [
        | inl skipped ↦ rw (skipped, auto_model) tt
        | inr other ↦ elim (Bool-cases fit.fits) [
          | inr misfit ↦ rw (other, auto_model, misfit) tt
          | inl fitting ↦ elim (Bool-cases (is_retired life)) [
            | inl gone ↦ rw (other, auto_model, fitting, gone) tt
            | inr active ↦
                let (q, admission) = admit planner model lims p in
                rw (other, auto_model, fitting, active)
                  (elim (Admission-cases admission) [
                    | inr (est, reason, no_room) ↦ rw no_room tt
                    | inl (est, granted) ↦ rw granted (
                        auto_accounts-IsKeyed name model est life
                          (static_key planner name fit.optional_hits life b m)
                          (accounts_of planner.registry name) q)
                  ])
          ]
        ]
      ]

  auto_models-IsKeyed :
      (skip : Option String) (name : String) (b m : ℕ) (models : List String) (p : Planning)
      → All IsKeyed (auto_models planner skip name b m models p).1
  unfolding auto_models
  auto_models-IsKeyed skip name b m [] p = tt
  auto_models-IsKeyed skip name b m (model ∷ models) p =
      let (q, found) = auto_model planner skip name b m model p in
      All-append IsKeyed found (auto_models planner skip name b (m + 1) models q).1
        (auto_model-IsKeyed skip name b m model p)
        (auto_models-IsKeyed skip name b (m + 1) models q)

  auto_backends-IsKeyed :
      (skip : Option String) (b : ℕ) (names : List String) (p : Planning)
      → All IsKeyed (auto_backends planner skip b names p).1
  unfolding auto_backends
  auto_backends-IsKeyed skip b [] p = tt
  auto_backends-IsKeyed skip b (name ∷ names) p = elim (Bool-cases (tag_ok planner name)) [
    | inl tagged ↦
        let (q, found) =
          auto_models planner skip name b 0 (models_of planner.registry name planner.modality) p in
        rw tagged (
          All-append IsKeyed found (auto_backends planner skip (b + 1) names q).1
            (auto_models-IsKeyed skip name b 0 (models_of planner.registry name planner.modality) p)
            (auto_backends-IsKeyed skip (b + 1) names q))
    | inr untagged ↦ rw untagged (auto_backends-IsKeyed skip (b + 1) names p)
  ]

  -- A candidate stands before another only if the other is not better: not rate-limited while this one is, and
  -- if both or neither are, no cheaper, a missing price being dearer than any.
  abbrev pub NotBeaten : Candidate → Candidate → Type 0
  NotBeaten c d =
      let limited : Candidate → Bool =
        λ x. (planner.health x.backend x.account_id x.model).rate_limited in
      (limited c ≡ true → limited d ≡ true)
      × (limited c ≡ limited d
          → (e : ℕ) → d.estimate ≡ some e
          → (f : ℕ) × (c.estimate ≡ some f) × (f ≤ e))

  cost_key :
      (static : Key) (c : Candidate)
      → planner.policy.optimize ≡ cost_mode
      → order_key planner static c.estimate c.lifecycle
          (planner.health c.backend c.account_id c.model)
        ≡ head_key (planner.health c.backend c.account_id c.model).rate_limited c.estimate (
            pos (is_deprecated c.lifecycle)
            ∷ opposite (planner.health c.backend c.account_id c.model).score
            ∷ static)
  unfolding order_key
  cost_key static c costs = rw (costs, order_key) refl

  keyed_order :
      (c d : Candidate)
      → planner.policy.optimize ≡ cost_mode
      → IsKeyed c
      → IsKeyed d
      → lt_key d.sort_key c.sort_key ≡ false
      → NotBeaten c d
  keyed_order c d costs (static, at_c) (static', at_d) h =
      let of_c = planner.health c.backend c.account_id c.model in
      let of_d = planner.health d.backend d.account_id d.model in
      let rest = pos (is_deprecated c.lifecycle) ∷ opposite of_c.score ∷ static in
      let rest' = pos (is_deprecated d.lifecycle) ∷ opposite of_d.score ∷ static' in
      let compared : lt_key (head_key of_d.rate_limited d.estimate rest')
            (head_key of_c.rate_limited c.estimate rest)
          ≡ false =
        subst (λ k. lt_key k (head_key of_c.rate_limited c.estimate rest) ≡ false)
          (at_d ∙ cost_key static' d costs)
          (subst (λ k. lt_key d.sort_key k ≡ false) (at_c ∙ cost_key static c costs) h) in
      (
        limited_last of_c.rate_limited of_d.rate_limited c.estimate d.estimate rest rest' compared,
        λ same. cheaper_first of_c.rate_limited c.estimate d.estimate rest rest' (
            subst
              (λ b.
                lt_key (head_key b d.estimate rest') (head_key of_c.rate_limited c.estimate rest)
                ≡ false)
              (sym same) compared),
      )

  none_beats :
      (c : Candidate) (cs : List Candidate)
      → planner.policy.optimize ≡ cost_mode
      → IsKeyed c
      → All IsKeyed cs
      → All (λ d. lt_key d.sort_key c.sort_key ≡ false) cs
      → All (NotBeaten c) cs
  none_beats c [] costs keyed all_keyed h = tt
  none_beats c (d ∷ ds) costs keyed (keyed_d, rest) (later, h) =
      (keyed_order c d costs keyed keyed_d later, none_beats c ds costs keyed rest h)

  -- No candidate is beaten by a later one.
  abbrev pub CheapestFirst : List Candidate → Type 0
  CheapestFirst [] = Unit
  CheapestFirst (c ∷ cs) = All (NotBeaten c) cs × CheapestFirst cs

  sorted-CheapestFirst :
      (cs : List Candidate)
      → planner.policy.optimize ≡ cost_mode
      → All IsKeyed cs
      → IsSorted (λ c. c.sort_key) cs
      → CheapestFirst cs
  sorted-CheapestFirst [] costs keyed h = tt
  sorted-CheapestFirst (c ∷ cs) costs (keyed, rest) (least, h) =
      (none_beats c cs costs keyed rest least, sorted-CheapestFirst cs costs rest h)

  -- With optimize=cost, no chosen candidate is beaten by a later one: one that is rate-limited
  -- stands only before others that are, and among those of the same state a candidate stands before
  -- one with an estimate only if it has an estimate that is no higher.
  pub auto_candidates-CheapestFirst :
      (backend_name skip : Option String) (p q : Planning) (cs : List Candidate)
      → planner.policy.optimize ≡ cost_mode
      → auto_candidates planner backend_name skip p ≡ some (q, cs)
      → CheapestFirst cs
  unfolding auto_candidates
  auto_candidates-CheapestFirst backend_name skip p q cs costs h =
      elim (Option-cases
        (usable_for_modality planner.key planner.modality backend_name planner.registry)) [
          | inl gone ↦ absurd (ground arith)
          | inr (names, usable) ↦
              let found = (auto_backends planner skip 0 names p).1 in
              let is_cs : sort_by (λ (c : Candidate). c.sort_key) found ≡ cs = ground arith in
              subst CheapestFirst is_cs (
                sorted-CheapestFirst (sort_by (λ c. c.sort_key) found) costs
                  (sort_by-All (λ (c : Candidate). c.sort_key) IsKeyed found
                    (auto_backends-IsKeyed skip 0 names p))
                  (sort_by-IsSorted (λ (c : Candidate). c.sort_key) found))
        ]
