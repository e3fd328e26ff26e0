-- ===== src/Prelude/Lists.antt =====
-- Lists over the native numbers, under the library's names, and predicates on all their elements.
use Prim.Native.Nat.{ℕ, suc}
use mathlib.Core.Bool.{Bool, false, ◌||◌}
use mathlib.Core.Path.{sym, subst}
use mathlib.Core.Logic.Or
use mathlib.Core.List.{
  List, [], ◌∷◌, ◌++◌, Mem, mem-cons, mem-cons_self, mem-cons_of_mem, not-mem-nil,
}

module _ {ℓ} {A : Type ℓ} where
  abbrev pub length : List A → ℕ
  length [] = 0
  length (x ∷ xs) = suc (length xs)

  -- any(test(x) for x in xs)
  abbrev pub any : (A → Bool) → List A → Bool
  any test [] = false
  any test (x ∷ xs) = test x || any test xs

abbrev pub All {ℓ κ} : {A : Type ℓ} → (A → Type κ) → List A → Type κ
All P [] = Unit
All P (x ∷ xs) = P x × All P xs

pub All-append {ℓ κ} :
    {A : Type ℓ} (P : A → Type κ) (xs ys : List A) → All P xs → All P ys → All P (xs ++ ys)
All-append P [] ys hx hy = hy
All-append P (x ∷ xs) ys hx hy = (hx.0, All-append P xs ys hx.1 hy)

-- A predicate on every element, read at one element, and gathered from all.
pub All-mem {ℓ} :
    {A : Type ℓ} (P : A → Type 0)
    → ((v : A) → IsProp (P v))
    → (v : A) (xs : List A) → All P xs
    → Mem v xs
    → P v
All-mem P prop v [] h m = absurd (not-mem-nil m)
All-mem P prop v (x ∷ xs) h m =
    Or.elim (prop v) (mem-cons.0 m) (λ e. subst P (sym e) h.0) (All-mem P prop v xs h.1)

pub All-of_mem {ℓ} :
    {A : Type ℓ} (P : A → Type 0) (xs : List A) → ((v : A) → Mem v xs → P v) → All P xs
All-of_mem P [] f = tt
All-of_mem P (x ∷ xs) f = (f x mem-cons_self, All-of_mem P xs (λ v m. f v (mem-cons_of_mem x m)))
