-- ===== src/AutoMode/Planner/Complete.antt =====
-- No model disappears from a plan without a reason.
use mm_gateway.Prelude.{
  ℕ, ◌+◌, String, ◌≡◌, ◌⊎◌, inl, inr, sym, subst, ◌∙◌, true, false, ◌&&◌, Option, some, List, [],
  ◌∷◌, ◌++◌, ◌==◌, string_eq, option_eq, All, Bool-cases, arith, if◌then◌else◌,
}
use mm_gateway.Prelude.Sort.{sort_by}
use mm_gateway.Registry.Serving.{accounts_of, models_of, usable_for_modality}
use mm_gateway.AutoMode.Plan.{Candidate}
use mm_gateway.AutoMode.Planner.{Planner, Planning, tag_ok}
use mm_gateway.AutoMode.Planner.Auto.{auto_model, auto_models, auto_backends, auto_candidates}
use mm_gateway.AutoMode.Planner.Accounted.{
  is_excluded, is_candidate, any-append_left, any-append_right, sort_by-any, Keeps, Accounted, grow,
  auto_model-Handled,
}

module _ {R : Type 0} (planner : Planner R) where
  -- What is accounted for stays so when exclusions are added and candidates appended or reordered.
  abbrev Grows : List Candidate → List Candidate → Type 0
  Grows cs ds =
      (name model account : String)
      → is_candidate name model account cs ≡ true
      → is_candidate name model account ds ≡ true

  still :
      (name model : String) (p q : Planning) (cs ds : List Candidate)
      → Keeps p q
      → Grows cs ds
      → Accounted planner name model (p, cs)
      → Accounted planner name model (q, ds)
  still name model p q cs ds kept grows (inl gone) = inl (kept model gone)
  still name model p q cs ds kept grows (inr here) =
      inr
        (grow planner name model cs ds (accounts_of planner.registry name) (grows name model) here)

  abbrev pub AllHandled : Option String → String → List String → Planning × List Candidate → Type 0
  AllHandled skip name models r =
      All (λ model. ((skip == some model) ≡ true) ⊎ Accounted planner name model r) models

  all_still :
      (skip : Option String) (name : String) (models : List String) (p q : Planning)
      (cs ds : List Candidate)
      → Keeps p q
      → Grows cs ds
      → AllHandled skip name models (p, cs)
      → AllHandled skip name models (q, ds)
  all_still skip name [] p q cs ds kept grows h = tt
  all_still skip name (model ∷ models) p q cs ds kept grows (inl skipped, rest) =
      (inl skipped, all_still skip name models p q cs ds kept grows rest)
  all_still skip name (model ∷ models) p q cs ds kept grows (inr here, rest) = (
    inr (still name model p q cs ds kept grows here),
    all_still skip name models p q cs ds kept grows rest,
  )

  in_front : (cs ds : List Candidate) → Grows cs (cs ++ ds)
  in_front cs ds name model account =
      any-append_left (λ c. c.backend == name && (c.model == model && c.account_id == account)) cs
        ds

  behind : (cs ds : List Candidate) → Grows ds (cs ++ ds)
  behind cs ds name model account =
      any-append_right (λ c. c.backend == name && (c.model == model && c.account_id == account)) cs
        ds

  reordered : (cs : List Candidate) → Grows cs (sort_by (λ c. c.sort_key) cs)
  reordered cs name model account h =
      sort_by-any (λ (c : Candidate). c.sort_key)
        (λ c. c.backend == name && (c.model == model && c.account_id == account)) cs
      ∙ h

  auto_models-Handled :
      (skip : Option String) (name : String) (b m : ℕ) (models : List String) (p : Planning)
      → (planner.modality == "audio") ≡ false
      → Keeps p (auto_models planner skip name b m models p).0
        × AllHandled skip name models (auto_models planner skip name b m models p)
  unfolding auto_models
  auto_models-Handled skip name b m [] p media = ((λ n h. h), tt)
  auto_models-Handled skip name b m (model ∷ models) p media =
      let (kept, here) = auto_model-Handled planner skip name b m model p media in
      let (q, found) = auto_model planner skip name b m model p in
      let (later, all) = auto_models-Handled skip name b (m + 1) models q media in
      let (done, more) = auto_models planner skip name b (m + 1) models q in
      (
        (λ n h. later n (kept n h)),
        (
          elim here [
            | inl skipped ↦ inl skipped
            | inr at ↦
                inr (still name model q done found (found ++ more) later (in_front found more) at)
          ],
          all_still skip name models done done more (found ++ more) (λ n h. h) (behind found more)
              all,
        ),
      )

  -- Every model of every backend of the list that carries the policy's tags is handled.
  abbrev pub AllBackendsHandled : Option String → List String → Planning × List Candidate → Type 0
  AllBackendsHandled skip names r =
      All
        (λ name.
          tag_ok planner name ≡ true
          → AllHandled skip name (models_of planner.registry name planner.modality) r)
        names

  backends_still :
      (skip : Option String) (names : List String) (p q : Planning) (cs ds : List Candidate)
      → Keeps p q
      → Grows cs ds
      → AllBackendsHandled skip names (p, cs)
      → AllBackendsHandled skip names (q, ds)
  backends_still skip [] p q cs ds kept grows h = tt
  backends_still skip (name ∷ names) p q cs ds kept grows (h, rest) = (
    (λ tagged.
        all_still skip name (models_of planner.registry name planner.modality) p q cs ds kept grows
          (h tagged)),
    backends_still skip names p q cs ds kept grows rest,
  )

  -- What the models of one backend come to, if it carries the tags.
  abbrev tagged_models : Option String → ℕ → String → Planning → Planning × List Candidate
  tagged_models skip b name p =
      if tag_ok planner name
      then auto_models planner skip name b 0 (models_of planner.registry name planner.modality) p
      else (p, [])

  tagged_models-Handled :
      (skip : Option String) (b : ℕ) (name : String) (p : Planning)
      → (planner.modality == "audio") ≡ false
      → Keeps p (tagged_models skip b name p).0
        × (tag_ok planner name ≡ true
            → AllHandled skip name
                (models_of planner.registry name planner.modality)
                (tagged_models skip b name p))
  tagged_models-Handled skip b name p media =
      let models = models_of planner.registry name planner.modality in
      elim (Bool-cases (tag_ok planner name)) [
        | inl tagged ↦
            let (kept, here) = auto_models-Handled skip name b 0 models p media in
            rw tagged (kept, (λ _. here))
        | inr untagged ↦ (
          (λ n h.
              subst
                (λ t.
                  is_excluded n
                    (if t then auto_models planner skip name b 0 models p else (p, [])).0.excluded
                  ≡ true)
                (sym untagged) h),
          λ tagged. absurd (ground arith),
        )
      ]

  auto_backends-Handled :
      (skip : Option String) (b : ℕ) (names : List String) (p : Planning)
      → (planner.modality == "audio") ≡ false
      → Keeps p (auto_backends planner skip b names p).0
        × AllBackendsHandled skip names (auto_backends planner skip b names p)
  unfolding auto_backends
  auto_backends-Handled skip b [] p media = ((λ n h. h), tt)
  auto_backends-Handled skip b (name ∷ names) p media =
      let models = models_of planner.registry name planner.modality in
      let (kept, here) = tagged_models-Handled skip b name p media in
      let (q, found) = tagged_models skip b name p in
      let (later, all) = auto_backends-Handled skip (b + 1) names q media in
      let (done, more) = auto_backends planner skip (b + 1) names q in
      (
        (λ n h. later n (kept n h)),
        (
          (λ tagged.
              all_still skip name models q done found (found ++ more) later (in_front found more)
                (here tagged)),
          backends_still skip names done done more (found ++ more) (λ n h. h) (behind found more)
              all,
        ),
      )

  -- Outside speech, no model disappears from the candidates without a reason: every model of every
  -- usable backend with the policy's tags is the one to leave out, or is excluded for a stated
  -- reason, or has a candidate for every account of the backend.
  pub auto_candidates-AllBackendsHandled :
      (backend_name skip : Option String) (p q : Planning) (cs : List Candidate)
      (names : List String)
      → (planner.modality == "audio") ≡ false
      → usable_for_modality planner.key planner.modality backend_name planner.registry ≡ some names
      → auto_candidates planner backend_name skip p ≡ some (q, cs)
      → AllBackendsHandled skip names (q, cs)
  unfolding auto_candidates
  auto_candidates-AllBackendsHandled backend_name skip p q cs names media usable h =
      let (done, found) = auto_backends planner skip 0 names p in
      let is_q : done ≡ q = ground arith in
      let is_cs : sort_by (λ (c : Candidate). c.sort_key) found ≡ cs = ground arith in
      subst (λ (x : Planning). AllBackendsHandled skip names (x, cs)) is_q
        (subst (λ (xs : List Candidate). AllBackendsHandled skip names (done, xs)) is_cs
          (backends_still skip names done done found (sort_by (λ (c : Candidate). c.sort_key) found)
            (λ n h. h) (reordered found) (auto_backends-Handled skip 0 names p media).1))
