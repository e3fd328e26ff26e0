-- ===== src/Router/Best.antt =====
-- `best` picks a fitting score that no other fitting score precedes.
use mathlib.Core.List.{Mem, mem-cons_self, not-mem-nil}
use mathlib.Core.List.Perm
use mm_gateway.Prelude.{
  ◌<◌, ◌≤◌, ◌⊎◌, arith, ◌≡◌, ◌≢◌, ◌↔◌, refl, sym, subst, Bool, true, false, none, some, List, [],
  ◌∷◌, All-mem, mem-keep, Bool-cases, Option-cases, inl, inr,
}
use mm_gateway.Prelude.Sort.{
  Key, sort_by, sort_by-IsSorted, sort_by-perm, lt_key, lt_key_irrefl, IsSorted, lt_key-neg,
  lt_key-pos,
}
use mm_gateway.Prelude.Int.{pos}
use mm_gateway.Router.{Score, best, score_key, only_fitting, head}

Bool_prop : (a b : Bool) → IsProp (a ≡ b)
Bool_prop a b = hlevel

-- The first score comes no later than the second: it has more hits, or as many and an earlier backend, or
-- the same backend and no later model.
abbrev pub IsNoLater : Score → Score → Type 0
IsNoLater s t =
    (t.optional_hits < s.optional_hits)
    ⊎ ((t.optional_hits ≡ s.optional_hits)
        × ((s.backend_index < t.backend_index)
            ⊎ ((s.backend_index ≡ t.backend_index) × (s.model_index ≤ t.model_index))))

key-IsNoLater : (s t : Score) → lt_key (score_key t) (score_key s) ≡ false → IsNoLater s t
key-IsNoLater s t h =
    let rest : Score → Key = λ x. pos x.backend_index ∷ pos x.model_index ∷ [] in
    elim (lt_key-neg t.optional_hits s.optional_hits (rest t) (rest s) h) [
      | inl fewer ↦ inl fewer
      | inr (as_many, h') ↦ inr (
        as_many,
        elim (lt_key-pos t.backend_index s.backend_index (pos t.model_index ∷ [])
            (pos s.model_index ∷ []) h') [
              | inl earlier ↦ inl earlier
              | inr (same, h'') ↦ inr (
                same,
                elim (lt_key-pos t.model_index s.model_index [] [] h'') [
                  | inl earlier ↦ omega (arith, earlier)
                  | inr (equal, _) ↦ omega (arith, equal)
                ],
              )
            ],
      )
    ]

best-least :
    (scores : List Score) (s : Score)
    → best scores ≡ some s
    → Mem s scores
      × (s.fits ≡ true)
      × ((t : Score) → Mem t scores → t.fits ≡ true → lt_key (score_key t) (score_key s) ≡ false)
unfolding best
best-least scores s chosen = on_sorted (sort_by score_key (only_fitting scores)) refl chosen
  where
    on_sorted :
        (sorted : List Score)
        → sort_by score_key (only_fitting scores) ≡ sorted
        → head sorted ≡ some s
        → Mem s scores
          × (s.fits ≡ true)
          × ((t : Score)
              → Mem t scores
              → t.fits ≡ true
              → lt_key (score_key t) (score_key s) ≡ false)
    on_sorted [] e h = cc
    on_sorted (x ∷ xs) e h =
        let same = sort_by-perm score_key (only_fitting scores) in
        let is_s : x ≡ s = cc in
        let kept : Mem s (only_fitting scores) =
          (Perm.mem_iff same).0
            (subst (λ l. Mem s l) (sym e) (subst (λ y. Mem s (y ∷ xs)) (sym is_s) mem-cons_self)) in
        let (at_s, fits_s) = (mem-keep (λ (v : Score). v.fits) s scores).0 kept in
        let sorted : IsSorted score_key (x ∷ xs) =
          subst (IsSorted score_key) e (sort_by-IsSorted score_key (only_fitting scores)) in
        (
          at_s,
          fits_s,
          λ t m fits.
              let at : Mem t (x ∷ xs) =
                subst (Mem t) e (
                  (Perm.mem_iff same).1
                    ((mem-keep (λ (v : Score). v.fits) t scores).1 (m, fits))) in
              subst (λ y. lt_key (score_key t) (score_key y) ≡ false) is_s
                (All-mem (λ v. lt_key (score_key v) (score_key x) ≡ false)
                  (λ v. Bool_prop (lt_key (score_key v) (score_key x)) false) t (x ∷ xs)
                  (lt_key_irrefl (score_key x), sorted.0) at),
        )

-- The chosen score is one of the given ones and fits, and it comes no later than any fitting score:
-- it has more hits, or as many and an earlier backend, or the same backend and no later model.
pub best_is_best :
    (scores : List Score) (s : Score)
    → best scores ≡ some s
    → Mem s scores × (s.fits ≡ true) × ((t : Score) → Mem t scores → t.fits ≡ true → IsNoLater s t)
best_is_best scores s chosen =
    let (at, fits, least) = best-least scores s chosen in
    (at, fits, λ t m fits'. key-IsNoLater s t (least t m fits'))

head-none : (xs : List Score) → head xs ≡ none → xs ≡ []
head-none [] h = refl
head-none (x ∷ xs) h = cc

best_exists : (scores : List Score) (t : Score) → Mem t scores → t.fits ≡ true → best scores ≢ none
unfolding best
best_exists scores t m fits gone =
    let same = sort_by-perm score_key (only_fitting scores) in
    not-mem-nil (
      subst (Mem t) (head-none (sort_by score_key (only_fitting scores)) gone)
        ((Perm.mem_iff same).1 ((mem-keep (λ (v : Score). v.fits) t scores).1 (m, fits))))

-- There is no best score exactly when no given score fits.
best-none :
    (scores : List Score) → (best scores ≡ none) ↔ ((t : Score) → Mem t scores → t.fits ≡ false)
best-none scores = (
  (λ gone t m. elim (Bool-cases t.fits) [
    | inl fits ↦ absurd (best_exists scores t m fits gone)
    | inr misfit ↦ misfit
  ]),
  λ misfits. elim (Option-cases (best scores)) [
    | inl gone ↦ gone
    | inr (s, chosen) ↦ let (m, fits, _) = best_is_best scores s chosen in cc (misfits s m)
  ],
)
