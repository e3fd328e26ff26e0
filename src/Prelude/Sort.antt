-- ===== src/Prelude/Sort.antt =====
-- `list.sort(key=…)`: a stable sort by a strict order on the keys. Every stable sort gives the same
-- list, so the insertion sort here stands for Python's.
use mathlib.Core.Path.{◌≡◌, refl}
use mathlib.Core.Bool.{Bool, true, false}
use mathlib.Core.List.{List, [], ◌∷◌, Perm}
use mathlib.Core.List.Perm
use native.Mathlib.Omega.{arith}
use Prim.Native.Nat.{ℕ, zero, suc, ◌<◌}
use mm_gateway.Prelude.Tests.{ltb, if◌then◌else◌, Bool-cases}
use mm_gateway.Prelude.Lists.{All}
use mm_gateway.Prelude.Int.{ℤ, pos, neg, ltb_ℤ}
use mathlib.Core.Logic.{◌⊎◌, inl, inr}

-- Tuples of numbers, compared from the left.
abbrev pub Key : Type 0
Key = List ℤ

unfoldable pub lt_key : Key → Key → Bool
lt_key [] [] = false
lt_key [] (b ∷ bs) = true
lt_key (a ∷ as') [] = false
lt_key (a ∷ as') (b ∷ bs) = if ltb_ℤ a b then true else if ltb_ℤ b a then false else lt_key as' bs

pub lt_key_irrefl : (a : Key) → lt_key a a ≡ false
unfolding lt_key
lt_key_irrefl [] = refl
lt_key_irrefl (a ∷ as') = ground (arith, lt_key_irrefl as')

pub lt_key_asym : (a b : Key) → lt_key a b ≡ true → lt_key b a ≡ false
unfolding lt_key
lt_key_asym [] [] h = refl
lt_key_asym [] (b ∷ bs) h = refl
lt_key_asym (a ∷ as') [] h = cc
lt_key_asym (a ∷ as') (b ∷ bs) h = ground (arith, lt_key_asym as' bs)

-- Negated numbers compare the other way round.
ltb-neg : (a b : ℕ) → ltb_ℤ (neg a) (neg b) ≡ ltb b a
ltb-neg zero zero = ground arith
ltb-neg zero (suc b) = ground arith
ltb-neg (suc a) zero = ground arith
ltb-neg (suc a) (suc b) = ground arith

-- A key that begins with a negated number stands before another only by a larger number, or by an equal
-- one and the rest.
pub lt_key-neg :
    (a b : ℕ) (as' bs : Key)
    → lt_key (neg a ∷ as') (neg b ∷ bs) ≡ false
    → (a < b) ⊎ ((a ≡ b) × (lt_key as' bs ≡ false))
unfolding lt_key
lt_key-neg a b as' bs h = ground (arith, ltb-neg a b, ltb-neg b a)

pub lt_key-pos :
    (a b : ℕ) (as' bs : Key)
    → lt_key (pos a ∷ as') (pos b ∷ bs) ≡ false
    → (b < a) ⊎ ((b ≡ a) × (lt_key as' bs ≡ false))
unfolding lt_key
lt_key-pos a b as' bs h = ground arith

-- "not later than" is transitive.
pub le_key_trans : (a b c : Key) → lt_key b a ≡ false → lt_key c b ≡ false → lt_key c a ≡ false
unfolding lt_key
le_key_trans [] [] c h k = k
le_key_trans [] (b ∷ bs) [] h k = cc
le_key_trans [] (b ∷ bs) (c ∷ cs) h k = refl
le_key_trans (a ∷ as') [] c h k = cc
le_key_trans (a ∷ as') (b ∷ bs) [] h k = cc
le_key_trans (a ∷ as') (b ∷ bs) (c ∷ cs) h k = ground (arith, le_key_trans as' bs cs)

module _ {A : Type 0} (key : A → Key) where
  unfoldable pub insert_by : A → List A → List A
  insert_by x [] = x ∷ []
  insert_by x (y ∷ ys) =
      let rest = insert_by x ys in if lt_key (key y) (key x) then y ∷ rest else x ∷ y ∷ ys

  unfoldable pub sort_by : List A → List A
  unfolding insert_by
  sort_by [] = []
  sort_by (x ∷ xs) = insert_by x (sort_by xs)

  -- No element stands before one with a smaller key.
  abbrev pub IsSorted : List A → Type 0
  IsSorted [] = Unit
  IsSorted (x ∷ xs) = All (λ y. lt_key (key y) (key x) ≡ false) xs × IsSorted xs

  insert_by-All : (P : A → Type 0) (x : A) (xs : List A) → P x → All P xs → All P (insert_by x xs)
  unfolding insert_by
  insert_by-All P x [] px h = (px, tt)
  insert_by-All P x (y ∷ ys) px h = elim (Bool-cases (lt_key (key y) (key x))) [
    | inl e ↦ rw e (h.0, insert_by-All P x ys px h.1)
    | inr e ↦ rw e (px, h)
  ]

  pub sort_by-All : (P : A → Type 0) (xs : List A) → All P xs → All P (sort_by xs)
  unfolding sort_by
  sort_by-All P [] h = tt
  sort_by-All P (x ∷ xs) h = insert_by-All P x (sort_by xs) h.0 (sort_by-All P xs h.1)

  weaken :
      (x y : A) (ys : List A)
      → lt_key (key y) (key x) ≡ false
      → All (λ z. lt_key (key z) (key y) ≡ false) ys
      → All (λ z. lt_key (key z) (key x) ≡ false) ys
  weaken x y [] h k = tt
  weaken x y (z ∷ zs) h k = (le_key_trans (key x) (key y) (key z) h k.0, weaken x y zs h k.1)

  insert_by-IsSorted : (x : A) (xs : List A) → IsSorted xs → IsSorted (insert_by x xs)
  unfolding insert_by
  insert_by-IsSorted x [] h = (tt, tt)
  insert_by-IsSorted x (y ∷ ys) h = elim (Bool-cases (lt_key (key y) (key x))) [
    | inl e ↦ rw e (
      insert_by-All (λ z. lt_key (key z) (key y) ≡ false) x ys (lt_key_asym (key y) (key x) e) h.0,
      insert_by-IsSorted x ys h.1,
    )
    | inr e ↦ rw e ((e, weaken x y ys e h.0), h)
  ]

  pub sort_by-IsSorted : (xs : List A) → IsSorted (sort_by xs)
  unfolding sort_by
  sort_by-IsSorted [] = tt
  sort_by-IsSorted (x ∷ xs) = insert_by-IsSorted x (sort_by xs) (sort_by-IsSorted xs)

  insert_by-perm : (x : A) (xs : List A) → Perm (insert_by x xs) (x ∷ xs)
  unfolding insert_by
  insert_by-perm x [] = Perm.refl (x ∷ [])
  insert_by-perm x (y ∷ ys) = elim (Bool-cases (lt_key (key y) (key x))) [
    | inl e ↦ rw e (Perm.trans (Perm.cons y (insert_by-perm x ys)) (Perm.swap x y ys))
    | inr e ↦ rw e (Perm.refl (x ∷ y ∷ ys))
  ]

  pub sort_by-perm : (xs : List A) → Perm (sort_by xs) xs
  unfolding sort_by
  sort_by-perm [] = Perm.refl []
  sort_by-perm (x ∷ xs) = Perm.trans (insert_by-perm x (sort_by xs)) (Perm.cons x (sort_by-perm xs))
