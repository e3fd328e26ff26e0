-- ===== src/Prelude/Equality.antt =====
-- Python's `==` on the keys of dictionaries, as an interface with instances.
use Prim.Native.Nat.{ℕ}
use Prim.Native.String.{String}
use mathlib.Core.Path.{◌≡◌, refl}
use mathlib.Core.Logic.{◌↔◌}
use mathlib.Core.Bool.{Bool, true, false, ◌&&◌, ◌||◌}
use mathlib.Core.Option.{Option, none, some}
use mathlib.Core.List.{List, [], ◌∷◌}
use native.Mathlib.Omega.{arith}
use text.Mathlib.Text.{◌==◌ as str_eq}
use text.Mathlib.TextEquality.{eq_iff}
use mm_gateway.Prelude.Tests.{nat_beq, nat_beq_iff}

pub record Eq {ℓ} (A : Type ℓ) : Type ℓ where
  pub beq : A → A → Bool
  pub beq_iff : (a b : A) → (beq a b ≡ true) ↔ (a ≡ b)

instance abbrev pub string_eq : Eq String
string_eq = record { beq = str_eq; beq_iff = eq_iff }

infix 50 ◌==◌
abbrev pub ◌==◌ {ℓ} : {A : Type ℓ} ⦃e : Eq A⦄ → A → A → Bool
◌==◌ ⦃e⦄ = e.beq

pub ==_iff {ℓ} : {A : Type ℓ} ⦃e : Eq A⦄ (a b : A) → ((a == b) ≡ true) ↔ (a ≡ b)
==_iff ⦃e⦄ = e.beq_iff

pub ==_refl {ℓ} : {A : Type ℓ} ⦃e : Eq A⦄ (a : A) → (a == a) ≡ true
==_refl ⦃e⦄ a = (e.beq_iff a a).1 refl

instance abbrev pub nat_eq : Eq ℕ
nat_eq = record { beq = nat_beq; beq_iff = nat_beq_iff }

module _ {A : Type 0} ⦃e : Eq A⦄ where
  abbrev pub option_beq : Option A → Option A → Bool
  option_beq none none = true
  option_beq (some a) (some b) = a == b
  option_beq _ _ = false

  pub option_beq_iff : (a b : Option A) → (option_beq a b ≡ true) ↔ (a ≡ b)
  option_beq_iff none none = ((λ _. refl), λ _. refl)
  option_beq_iff (some a) (some b) = ground (arith, e.beq_iff a b)
  option_beq_iff _ _ = ground arith

  -- x in xs
  abbrev pub contains : List A → A → Bool
  contains [] a = false
  contains (x ∷ xs) a = x == a || contains xs a

instance abbrev pub option_eq : {A : Type 0} ⦃e : Eq A⦄ → Eq (Option A)
option_eq = record { beq = option_beq; beq_iff = option_beq_iff }

module _ {A B : Type 0} ⦃e : Eq A⦄ ⦃f : Eq B⦄ where
  abbrev pub pair_beq : A × B → A × B → Bool
  pair_beq (a, b) (c, d) = a == c && b == d

  pub pair_beq_iff : (p q : A × B) → (pair_beq p q ≡ true) ↔ (p ≡ q)
  pair_beq_iff (a, b) (c, d) = ground (arith, e.beq_iff a c, f.beq_iff b d)

instance abbrev pub pair_eq : {A B : Type 0} ⦃e : Eq A⦄ ⦃f : Eq B⦄ → Eq (A × B)
pair_eq = record { beq = pair_beq; beq_iff = pair_beq_iff }

module _ {A B C : Type 0} ⦃e : Eq A⦄ ⦃f : Eq B⦄ ⦃g : Eq C⦄ where
  abbrev pub triple_beq : A × B × C → A × B × C → Bool
  triple_beq (a, b, c) (d, h, i) = a == d && (b == h && c == i)

  pub triple_beq_iff : (p q : A × B × C) → (triple_beq p q ≡ true) ↔ (p ≡ q)
  triple_beq_iff (a, b, c) (d, h, i) = ground (arith, e.beq_iff a d, f.beq_iff b h, g.beq_iff c i)

instance abbrev pub triple_eq : {A B C : Type 0} ⦃e : Eq A⦄ ⦃f : Eq B⦄ ⦃g : Eq C⦄ → Eq (A × B × C)
triple_eq = record { beq = triple_beq; beq_iff = triple_beq_iff }

module _ {A B C D : Type 0} ⦃e : Eq A⦄ ⦃f : Eq B⦄ ⦃g : Eq C⦄ ⦃h : Eq D⦄ where
  abbrev pub quadruple_beq : A × B × C × D → A × B × C × D → Bool
  quadruple_beq (a, b, c, d) (i, j, k, l) = a == i && (b == j && (c == k && d == l))

  pub quadruple_beq_iff : (p q : A × B × C × D) → (quadruple_beq p q ≡ true) ↔ (p ≡ q)
  quadruple_beq_iff (a, b, c, d) (i, j, k, l) =
      ground (arith, e.beq_iff a i, f.beq_iff b j, g.beq_iff c k, h.beq_iff d l)

instance abbrev pub quadruple_eq :
    {A B C D : Type 0} ⦃e : Eq A⦄ ⦃f : Eq B⦄ ⦃g : Eq C⦄ ⦃h : Eq D⦄ → Eq (A × B × C × D)
quadruple_eq = record { beq = quadruple_beq; beq_iff = quadruple_beq_iff }
