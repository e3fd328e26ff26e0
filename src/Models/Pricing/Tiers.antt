-- ===== src/Models/Pricing/Tiers.antt =====
-- Which of a model's size tiers sets its rate.
use mathlib.Core.List.{Mem, mem-cons_self, mem-cons_of_mem}
use mathlib.Core.List.Perm
use native.Mathlib.Bridge.{le_prop}
use mm_gateway.Prelude.{
  ℕ, ◌≤◌, ◌<◌, ◌≡◌, refl, sym, subst, Option, none, some, List, [], ◌∷◌, arith, leb, if◌then◌else◌,
  All, All-mem, Bool-cases, inl, inr, true, false,
}
use mm_gateway.Prelude.Sort.{sort_by, sort_by-IsSorted, sort_by-perm, lt_key, IsSorted}
use mm_gateway.Models.Pricing.{ModelPrice, PriceTier, rate_for, covering, tier_key, tier_rate}

-- The tier that `rate_for` takes its rate from.
unfoldable pub pick_tier : ℕ → PriceTier → List PriceTier → PriceTier
pick_tier side t [] = t
pick_tier side t (u ∷ rest) =
    let later = pick_tier side u rest in if leb side t.max_longest_side then t else later

unfoldable pub tier_for : ModelPrice → ℕ → Option PriceTier
unfolding pick_tier
tier_for p side = elim (sort_by tier_key p.per_second_tiers) [
  | [] ↦ none
  | t ∷ rest ↦ some (pick_tier side t rest)
]

covering-pick_tier :
    (side : ℕ) (t : PriceTier) (rest : List PriceTier)
    → covering side t rest ≡ (pick_tier side t rest).per_second
unfolding covering pick_tier
covering-pick_tier side t [] = refl
covering-pick_tier side t (u ∷ rest) = ground (arith, covering-pick_tier side u rest)

-- `u` covers the side if `v` does, and is the smaller then; if `u` does not cover it, `u` is the larger.
abbrev pub Suits : ℕ → PriceTier → PriceTier → Type 0
Suits side u v =
    (side ≤ v.max_longest_side
      → (side ≤ u.max_longest_side) × (u.max_longest_side ≤ v.max_longest_side))
    × (u.max_longest_side < side → v.max_longest_side ≤ u.max_longest_side)

Suits-prop : (side : ℕ) (u v : PriceTier) → IsProp (Suits side u v)
Suits-prop side u v = hlevel le_prop

pick_tier-mem :
    (side : ℕ) (t : PriceTier) (rest : List PriceTier) → Mem (pick_tier side t rest) (t ∷ rest)
unfolding pick_tier
pick_tier-mem side t [] = mem-cons_self
pick_tier-mem side t (u ∷ rest) = elim (Bool-cases (leb side t.max_longest_side)) [
  | inl e ↦ rw e mem-cons_self
  | inr e ↦ rw e (mem-cons_of_mem t (pick_tier-mem side u rest))
]

-- A tier that covers the side suits it against every later one.
Suits-covering :
    (side : ℕ) (t : PriceTier) (rest : List PriceTier)
    → side ≤ t.max_longest_side
    → All (λ y. lt_key (tier_key y) (tier_key t) ≡ false) rest
    → All (Suits side t) rest
unfolding lt_key
Suits-covering side t [] h s = tt
Suits-covering side t (u ∷ rest) h s = (ground (arith, s.0), Suits-covering side t rest h s.1)

pick_here :
    (side : ℕ) (t u : PriceTier) (rest : List PriceTier)
    → leb side t.max_longest_side ≡ true
    → pick_tier side t (u ∷ rest) ≡ t
unfolding pick_tier
pick_here side t u rest e = rw e refl

pick_later :
    (side : ℕ) (t u : PriceTier) (rest : List PriceTier)
    → leb side t.max_longest_side ≡ false
    → pick_tier side t (u ∷ rest) ≡ pick_tier side u rest
unfolding pick_tier
pick_later side t u rest e = rw e refl

pick_tier-Suits :
    (side : ℕ) (t : PriceTier) (rest : List PriceTier)
    → IsSorted tier_key (t ∷ rest)
    → All (Suits side (pick_tier side t rest)) (t ∷ rest)
unfolding lt_key
pick_tier-Suits side t [] s = unfold pick_tier in omega arith
pick_tier-Suits side t (u ∷ rest) s = elim (Bool-cases (leb side t.max_longest_side)) [
  | inl e ↦
      subst (λ x. All (Suits side x) (t ∷ u ∷ rest)) (sym (pick_here side t u rest e))
        (omega arith, Suits-covering side t (u ∷ rest) (ground arith) s.0)
  | inr e ↦
      subst (λ x. All (Suits side x) (t ∷ u ∷ rest)) (sym (pick_later side t u rest e))
        (let later = pick_tier-Suits side u rest s.1 in (ground (arith, later.0, s.0.0), later))
]

-- The tier that sets the rate for a side is one of the model's tiers. It covers the side if any
-- tier does, and is then the smallest that does; otherwise it is the largest tier. Its rate is the
-- rate.
tier_for_lem :
    (p : ModelPrice) (side : ℕ) (u : PriceTier)
    → tier_for p side ≡ some u
    → (rate_for p (some side) ≡ some u.per_second)
      × Mem u p.per_second_tiers
      × ((v : PriceTier) → Mem v p.per_second_tiers → Suits side u v)
unfolding tier_for rate_for tier_rate
tier_for_lem p side u found = on_sorted (sort_by tier_key p.per_second_tiers) refl found
  where
    on_sorted :
        (tiers : List PriceTier)
        → sort_by tier_key p.per_second_tiers ≡ tiers
        → (elim tiers [ [] ↦ none | t ∷ rest ↦ some (pick_tier side t rest) ]) ≡ some u
        → (tier_rate p.per_second (some side) (sort_by tier_key p.per_second_tiers)
            ≡ some u.per_second)
          × Mem u p.per_second_tiers
          × ((v : PriceTier) → Mem v p.per_second_tiers → Suits side u v)
    on_sorted [] e h = cc
    on_sorted (t ∷ rest) e h =
        let is_u : pick_tier side t rest ≡ u = cc in
        let same = sort_by-perm tier_key p.per_second_tiers in
        (
          rw (e, ← is_u, covering-pick_tier side t rest) refl,
          (Perm.mem_iff same).0 (rw (e, ← is_u) (pick_tier-mem side t rest)),
          λ v m.
              let sorted : IsSorted tier_key (t ∷ rest) =
                subst (IsSorted tier_key) e (sort_by-IsSorted tier_key p.per_second_tiers) in
              let here : Mem v (t ∷ rest) = subst (Mem v) e ((Perm.mem_iff same).1 m) in
              subst (λ x. Suits side x v) is_u
                (All-mem (Suits side (pick_tier side t rest))
                  (Suits-prop side (pick_tier side t rest)) v (t ∷ rest)
                  (pick_tier-Suits side t rest sorted) here),
        )
