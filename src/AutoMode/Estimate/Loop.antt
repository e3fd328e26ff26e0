-- ===== src/AutoMode/Estimate/Loop.antt =====
-- The loops of `estimate_route` (mm_gateway/auto_mode.py) that list a model once.
use mm_gateway.Prelude.{
  String, ◌≡◌, refl, sym, subst, ap, Bool, true, false, ◌&&◌, ◌||◌, not, none, List, [], ◌∷◌, ◌++◌,
  string_eq, contains, keep, All, Bool-cases, arith, inl, inr, is_some,
}
use mm_gateway.AutoMode.Estimate.{EstimateCandidate, list_new}

abbrev pub listed_models : List EstimateCandidate → List String
listed_models [] = []
listed_models (e ∷ es) = e.model ∷ listed_models es

abbrev pub AreDistinct : List String → Type 0
AreDistinct [] = Unit
AreDistinct (m ∷ ms) = (contains ms m ≡ false) × AreDistinct ms

pub contains-append :
    (xs ys : List String) (m : String) → contains (xs ++ ys) m ≡ (contains xs m || contains ys m)
contains-append [] ys m = refl
contains-append (x ∷ xs) ys m = ground (arith, contains-append xs ys m)

pub listed_models-append :
    (xs ys : List EstimateCandidate)
    → listed_models (xs ++ ys) ≡ listed_models xs ++ listed_models ys
listed_models-append [] ys = refl
listed_models-append (x ∷ xs) ys = ap (λ ms. x.model ∷ ms) (listed_models-append xs ys)

pub distinct-append :
    (xs ys : List String)
    → AreDistinct xs
    → AreDistinct ys
    → ((m : String) → contains xs m ≡ true → contains ys m ≡ false)
    → AreDistinct (xs ++ ys)
distinct-append [] ys hx hy apart = hy
distinct-append (x ∷ xs) ys hx hy apart = (
  rw (contains-append xs ys x) (ground (arith, apart x, string_eq.beq_iff x x)),
  distinct-append xs ys hx.1 hy (λ m h. ground (arith, apart m)),
)

module _ {A : Type 0} (entry : A → EstimateCandidate) where
  abbrev pub names : List A → List String
  names [] = []
  names (x ∷ xs) = (entry x).model ∷ names xs

  -- What a loop lists is new, and it has seen all it was given.
  pub record Loop (seen : List String) (xs : List A) (r : List String × List EstimateCandidate)
      : Type 0 where
    pub seen_after : (m : String) → contains r.0 m ≡ (contains seen m || contains (names xs) m)
    pub listed :
        (m : String)
        → contains (listed_models r.1) m ≡ (contains (names xs) m && not (contains seen m))
    pub distinct : AreDistinct (listed_models r.1)

  pub list_new-Loop : (seen : List String) (xs : List A) → Loop seen xs (list_new entry seen xs)
  unfolding list_new
  list_new-Loop seen [] = record {
    seen_after = λ m. ground arith;
    listed = λ m. refl;
    distinct = tt;
  }
  list_new-Loop seen (x ∷ xs) = elim (Bool-cases (contains seen (entry x).model)) [
    | inl old ↦
        let h = list_new-Loop seen xs in
        let same : list_new entry seen (x ∷ xs) ≡ list_new entry seen xs = ground arith in
        subst (Loop seen (x ∷ xs)) (sym same) (record {
          seen_after = λ m. ground (arith, h.seen_after m, string_eq.beq_iff (entry x).model m);
          listed = λ m. ground (arith, h.listed m, string_eq.beq_iff (entry x).model m);
          distinct = h.distinct;
        })
    | inr new ↦
        let next = list_new entry ((entry x).model ∷ seen) xs in
        let h = list_new-Loop ((entry x).model ∷ seen) xs in
        let step : list_new entry seen (x ∷ xs) ≡ (next.0, entry x ∷ next.1) = ground arith in
        subst (Loop seen (x ∷ xs)) (sym step) (record {
          seen_after = λ m. ground (arith, h.seen_after m);
          listed = λ m. ground (arith, h.listed m, string_eq.beq_iff (entry x).model m);
          distinct = (
            ground (
              arith,
              h.listed (entry x).model,
              string_eq.beq_iff (entry x).model (entry x).model,
            ),
            h.distinct,
          );
        })
  ]

  pub list_new-All :
      (P : EstimateCandidate → Type 0) (seen : List String) (xs : List A)
      → All (λ x. P (entry x)) xs
      → All P (list_new entry seen xs).1
  unfolding list_new
  list_new-All P seen [] h = tt
  list_new-All P seen (x ∷ xs) h = elim (Bool-cases (contains seen (entry x).model)) [
    | inl old ↦
        let same : list_new entry seen (x ∷ xs) ≡ list_new entry seen xs = ground arith in
        subst (λ (r : List String × List EstimateCandidate). All P r.1) (sym same)
          (list_new-All P seen xs h.1)
    | inr new ↦
        let next = list_new entry ((entry x).model ∷ seen) xs in
        let step : list_new entry seen (x ∷ xs) ≡ (next.0, entry x ∷ next.1) = ground arith in
        subst (λ (r : List String × List EstimateCandidate). All P r.1) (sym step)
          (h.0, list_new-All P ((entry x).model ∷ seen) xs h.1)
  ]

abbrev pub is_offered : EstimateCandidate → Bool
is_offered e = not (is_some e.reason)

pub keep-append :
    (xs ys : List EstimateCandidate)
    → keep is_offered (xs ++ ys) ≡ keep is_offered xs ++ keep is_offered ys
keep-append [] ys = refl
keep-append (x ∷ xs) ys = ground (arith, keep-append xs ys)

pub append_nil : (xs : List EstimateCandidate) → xs ++ [] ≡ xs
append_nil [] = refl
append_nil (x ∷ xs) = ap (λ ys. x ∷ ys) (append_nil xs)

pub keep_whole :
    (xs : List EstimateCandidate) → All (λ e. e.reason ≡ none) xs → keep is_offered xs ≡ xs
keep_whole [] h = refl
keep_whole (x ∷ xs) h = ground (arith, keep_whole xs)

pub keep_none :
    (xs : List EstimateCandidate) → All (λ e. is_some e.reason ≡ true) xs → keep is_offered xs ≡ []
keep_none [] h = refl
keep_none (x ∷ xs) h = ground (arith, keep_none xs)

pub everywhere : {A : Type 0} (P : A → Type 0) (xs : List A) → ((x : A) → P x) → All P xs
everywhere P [] h = tt
everywhere P (x ∷ xs) h = (h x, everywhere P xs h)
