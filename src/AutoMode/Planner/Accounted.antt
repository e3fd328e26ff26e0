-- ===== src/AutoMode/Planner/Accounted.antt =====
-- What one model of a backend comes to in a plan: excluded for a reason, or a candidate of every account.
use mm_gateway.Prelude.{
  ℕ, String, ◌≡◌, ◌⊎◌, inl, inr, refl, sym, ap, subst, ◌∙◌, Bool, true, false, ◌&&◌, ◌||◌, Option,
  none, some, List, [], ◌∷◌, ◌++◌, ◌==◌, string_eq, option_eq, any, All, Bool-cases, arith, eq_iff,
}
use mm_gateway.Prelude.Sort.{Key, sort_by, insert_by}
use mm_gateway.Models.Limits.{Lifecycle, lifecycle}
use mm_gateway.Models.Catalog.{limits_for}
use mm_gateway.Router.{score}
use mm_gateway.Registry.{Provider}
use mm_gateway.Registry.Serving.{accounts_of}
use mm_gateway.AutoMode.Plan
use mm_gateway.AutoMode.Plan.{Candidate, Exclusion, ExclusionReason, limits, same_reason}
use mm_gateway.AutoMode.Planner.{
  Planner, Planning, estimate, admit, check_budgets, is_retired, exclude, audio_candidate_ok,
}
use mm_gateway.AutoMode.Planner.Auto.{auto_accounts, auto_model, static_key}
use mm_gateway.AutoMode.Planner.Admissible.{Admission-cases}

abbrev pub is_excluded : String → List Exclusion → Bool
is_excluded model = any (λ e. e.model == model)

abbrev pub is_candidate : String → String → String → List Candidate → Bool
is_candidate name model account =
    any (λ c. c.backend == name && (c.model == model && c.account_id == account))

module _ {A : Type 0} (test : A → Bool) where
  pub any-append_left : (xs ys : List A) → any test xs ≡ true → any test (xs ++ ys) ≡ true
  any-append_left [] ys h = cc
  any-append_left (x ∷ xs) ys h = ground (arith, any-append_left xs ys)

  pub any-append_right : (xs ys : List A) → any test ys ≡ true → any test (xs ++ ys) ≡ true
  any-append_right [] ys h = h
  any-append_right (x ∷ xs) ys h = ground (arith, any-append_right xs ys)

self_eq : (x : String) → (x == x) ≡ true
self_eq x = (eq_iff x x).1 refl

pub exclude-is_excluded :
    (e : Exclusion) (p : Planning) → is_excluded e.model (exclude e p).excluded ≡ true
exclude-is_excluded e p =
    elim (Bool-cases (any (λ x. x.model == e.model && same_reason x.reason e.reason) p.excluded)) [
      | inl known ↦ rw known (weaker p.excluded known)
      | inr new ↦ rw new (
          any-append_right (λ x. x.model == e.model) p.excluded (e ∷ [])
            (ground (arith, self_eq e.model)))
    ]
  where
    weaker :
        (xs : List Exclusion)
        → any (λ x. x.model == e.model && same_reason x.reason e.reason) xs ≡ true
        → is_excluded e.model xs ≡ true
    weaker [] h = cc
    weaker (x ∷ xs) h = ground (arith, weaker xs)

-- Exclusions stay.
abbrev pub Keeps : Planning → Planning → Type 0
Keeps p q =
    (model : String) → is_excluded model p.excluded ≡ true → is_excluded model q.excluded ≡ true

pub exclude-Keeps : (e : Exclusion) (p : Planning) → Keeps p (exclude e p)
exclude-Keeps e p model h =
    elim (Bool-cases (any (λ x. x.model == e.model && same_reason x.reason e.reason) p.excluded)) [
      | inl known ↦ rw known h
      | inr new ↦ rw new (any-append_left (λ x. x.model == model) p.excluded (e ∷ []) h)
    ]

pub insert_by-any :
    {A : Type 0} (key : A → Key) (test : A → Bool) (x : A) (xs : List A)
    → any test (insert_by key x xs) ≡ any test (x ∷ xs)
unfolding insert_by
insert_by-any key test x [] = refl
insert_by-any key test x (y ∷ ys) = ground (arith, insert_by-any key test x ys)

pub sort_by-any :
    {A : Type 0} (key : A → Key) (test : A → Bool) (xs : List A)
    → any test (sort_by key xs) ≡ any test xs
unfolding sort_by
sort_by-any key test [] = refl
sort_by-any key test (x ∷ xs) =
    insert_by-any key test x (sort_by key xs) ∙ ap (λ b. test x || b) (sort_by-any key test xs)

module _ {R : Type 0} (planner : Planner R) where
  admit-excluded :
      (model : String) (p : Planning)
      → (admit planner model (limits_for model planner.modality planner.catalog) p).0.excluded
        ≡ p.excluded
  unfolding admit check_budgets
  admit-excluded model p = ground arith

  -- A model at a backend is excluded, or every account of the backend gives a candidate for it.
  abbrev pub Accounted : String → String → Planning × List Candidate → Type 0
  Accounted name model (p, cs) =
      (is_excluded model p.excluded ≡ true)
      ⊎ All (λ account. is_candidate name model account.0 cs ≡ true)
          (accounts_of planner.registry name)

  pub grow :
      (name model : String) (cs ds : List Candidate) (accounts : List (String × Provider R))
      → ((account : String)
          → is_candidate name model account cs ≡ true
          → is_candidate name model account ds ≡ true)
      → All (λ a. is_candidate name model a.0 cs ≡ true) accounts
      → All (λ a. is_candidate name model a.0 ds ≡ true) accounts
  grow name model cs ds [] f h = tt
  grow name model cs ds (a ∷ accounts) f (h, rest) =
      (f a.0 h, grow name model cs ds accounts f rest)

  media_ok :
      (name account : String) (provider : Provider R) (model : String) (p : Planning)
      → (planner.modality == "audio") ≡ false
      → audio_candidate_ok planner name account provider model p ≡ (p, true)
  unfolding audio_candidate_ok
  media_ok name account provider model p media = rw media refl

  every_account :
      (name model : String) (est : Option ℕ) (life : Lifecycle) (static : Key)
      (accounts : List (String × Provider R)) (p : Planning)
      → (planner.modality == "audio") ≡ false
      → All
          (λ a.
            is_candidate name model a.0
              (auto_accounts planner name model est life static accounts p).1
            ≡ true)
          accounts
  unfolding auto_accounts
  every_account name model est life static [] p media = tt
  every_account name model est life static ((account, provider) ∷ rest) p media =
      let more = every_account name model est life static rest p media in
      let cs = (auto_accounts planner name model est life static rest p).1 in
      rw (media_ok name account provider model p media) (
        ground (arith, self_eq name, self_eq model, self_eq account),
        grow name model cs _ rest (λ a h. ground arith) more,
      )

  auto_accounts-excluded :
      (name model : String) (est : Option ℕ) (life : Lifecycle) (static : Key)
      (accounts : List (String × Provider R)) (p : Planning)
      → (planner.modality == "audio") ≡ false
      → (auto_accounts planner name model est life static accounts p).0 ≡ p
  unfolding auto_accounts
  auto_accounts-excluded name model est life static [] p media = refl
  auto_accounts-excluded name model est life static ((account, provider) ∷ rest) p media =
      rw (media_ok name account provider model p media)
        (auto_accounts-excluded name model est life static rest p media)

  -- One model at one backend: what was excluded stays, and it is skipped or accounted for.
  abbrev pub Handled :
      Option String → String → String → Planning → Planning × List Candidate → Type 0
  Handled skip name model p r =
      Keeps p r.0 × (((skip == some model) ≡ true) ⊎ Accounted name model r)

  handled_exclusion :
      {Skipped : Type 0} (name : String) (e : Exclusion) (p q : Planning)
      → q.excluded ≡ p.excluded
      → Keeps p (exclude e q) × (Skipped ⊎ Accounted name e.model (exclude e q, []))
  handled_exclusion name e p q same = (
    (λ m h. exclude-Keeps e q m (subst (λ xs. is_excluded m xs ≡ true) (sym same) h)),
    inr (inl (exclude-is_excluded e q)),
  )

  pub auto_model-Handled :
      (skip : Option String) (name : String) (b m : ℕ) (model : String) (p : Planning)
      → (planner.modality == "audio") ≡ false
      → Handled skip name model p (auto_model planner skip name b m model p)
  unfolding auto_model
  auto_model-Handled skip name b m model p media =
      let lims = limits_for model planner.modality planner.catalog in
      let life = lifecycle lims planner.catalog.today in
      let fit = score planner.request.profile lims b m in
      elim (Bool-cases (skip == some model)) [
        | inl skipped ↦ rw (skipped, auto_model) ((λ n h. h), inl refl)
        | inr other ↦ elim (Bool-cases fit.fits) [
          | inr misfit ↦
              rw (other, auto_model, misfit)
                (handled_exclusion name
                  (record { model = model; reason = limits; estimate = none; lifecycle = life }) p p
                  refl)
          | inl fitting ↦ elim (Bool-cases (is_retired life)) [
            | inl gone ↦
                rw (other, auto_model, fitting, gone)
                  (handled_exclusion name
                    (record {
                      model = model;
                      reason = Plan.retired;
                      estimate = estimate planner model lims;
                      lifecycle = life;
                    })
                    p p refl)
            | inr active ↦
                let (q, admission) = admit planner model lims p in
                let same : q.excluded ≡ p.excluded = admit-excluded model p in
                rw (other, auto_model, fitting, active)
                  (elim (Admission-cases admission) [
                    | inr (est, reason, no_room) ↦ rw no_room (
                        handled_exclusion name
                          (record {
                            model = model;
                            reason = reason;
                            estimate = est;
                            lifecycle = life;
                          })
                          p q same)
                    | inl (est, granted) ↦
                        let static = static_key planner name fit.optional_hits life b m in
                        let accounts = accounts_of planner.registry name in
                        rw granted (
                          (λ n h.
                              subst (λ (x : Planning). is_excluded n x.excluded ≡ true)
                                (sym (
                                  auto_accounts-excluded name model est life static accounts q
                                    media))
                                (subst (λ xs. is_excluded n xs ≡ true) (sym same) h)),
                          inr (inr (every_account name model est life static accounts q media)),
                        )
                  ])
          ]
        ]
      ]
