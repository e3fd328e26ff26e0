-- ===== src/Prelude/Filter.antt =====
-- `[x for x in xs if test(x)]`
use mathlib.Core.Path.{◌≡◌, sym, subst}
use mathlib.Core.Logic.{◌↔◌, inl, inr}
use mathlib.Core.Logic.Or
use mathlib.Core.Bool.{Bool, true, false}
use mathlib.Core.List.{List, [], ◌∷◌, Mem, mem-cons, mem-cons_self, mem-cons_of_mem, not-mem-nil}
use native.Mathlib.Omega.{arith}
use mm_gateway.Prelude.Tests.{if◌then◌else◌, Bool-cases}

module _ {A : Type 0} (test : A → Bool) where
  abbrev pub keep : List A → List A
  keep [] = []
  keep (x ∷ xs) = let rest = keep xs in if test x then x ∷ rest else rest

  keep_yes : (x : A) (xs : List A) → test x ≡ true → keep (x ∷ xs) ≡ x ∷ keep xs
  keep_yes x xs h = ground arith

  keep_no : (x : A) (xs : List A) → test x ≡ false → keep (x ∷ xs) ≡ keep xs
  keep_no x xs h = ground arith

  keep_in : (a : A) (xs : List A) → Mem a xs → test a ≡ true → Mem a (keep xs)
  keep_in a [] m h = absurd (not-mem-nil m)
  keep_in a (x ∷ xs) m h = elim (Bool-cases (test x)) [
    | inl e ↦ subst (Mem a) (sym (keep_yes x xs e)) (
        Or.elim squash₁ (mem-cons.0 m) (λ q. subst (λ y. Mem a (y ∷ keep xs)) q mem-cons_self)
          (λ later. mem-cons_of_mem x (keep_in a xs later h)))
    | inr e ↦ subst (Mem a) (sym (keep_no x xs e)) (
        Or.elim squash₁ (mem-cons.0 m) (λ q. absurd (ground arith)) (λ later. keep_in a xs later h))
  ]

  both-prop : (a : A) (xs : List A) → IsProp (Mem a xs × (test a ≡ true))
  both-prop a xs = hlevel

  keep_out : (a : A) (xs : List A) → Mem a (keep xs) → Mem a xs × (test a ≡ true)
  keep_out a [] m = absurd (not-mem-nil m)
  keep_out a (x ∷ xs) m = elim (Bool-cases (test x)) [
    | inl e ↦
        Or.elim (both-prop a (x ∷ xs)) (mem-cons.0 (subst (Mem a) (keep_yes x xs e) m))
          (λ q. (subst (λ y. Mem a (y ∷ xs)) q mem-cons_self, subst (λ y. test y ≡ true) (sym q) e))
          (λ later. let (at, passes) = keep_out a xs later in (mem-cons_of_mem x at, passes))
    | inr e ↦
        let (at, passes) = keep_out a xs (subst (Mem a) (keep_no x xs e) m) in
        (mem-cons_of_mem x at, passes)
  ]

  pub mem-keep : (a : A) (xs : List A) → Mem a (keep xs) ↔ (Mem a xs × (test a ≡ true))
  mem-keep a xs = (keep_out a xs, λ both. keep_in a xs both.0 both.1)
