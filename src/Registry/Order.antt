-- ===== src/Registry/Order.antt =====
-- The choice among candidates that stand in the order of preference: it is the first.
use mm_gateway.Prelude.{
  String, ◌≡◌, inl, inr, refl, sym, subst, ap, Bool, true, false, Option, none, some, List, [], ◌∷◌,
  arith, ◌==◌, string_eq, nat_eq, option_eq, eq_iff, ==_refl, contains, All, keep, Bool-cases,
  Option-cases, ◌∙◌,
}
use mm_gateway.Prelude.Int.{pos}
use mm_gateway.Prelude.Sort.{Key, lt_key}
use mm_gateway.Registry.{Registry}
use mm_gateway.Registry.Serving.{
  found, rank, flag, tagged_with, tags_of, listed, first_or, choose_default, choose,
}

pub All-contains :
    (P : String → Type 0) (xs : List String) (x : String) → All P xs → contains xs x ≡ true → P x
All-contains P [] x h e = absurd (cc)
All-contains P (y ∷ ys) x h e = elim (Bool-cases (y == x)) [
  | inl same ↦ subst P ((eq_iff y x).0 same) h.0
  | inr other ↦ All-contains P ys x h.1 (ground arith)
]

-- Of two keys in order, the first has every flag that decides between them.
lt_flag_1 :
    (a b : Bool) (x y : Key)
    → lt_key (pos (flag a) ∷ x) (pos (flag b) ∷ y) ≡ false
    → a ≡ true
    → b ≡ true
unfolding lt_key
lt_flag_1 a b x y h e = ground arith

lt_flag_2 :
    (a b c d : Bool) (x y : Key)
    → lt_key (pos (flag a) ∷ pos (flag b) ∷ x) (pos (flag c) ∷ pos (flag d) ∷ y) ≡ false
    → a ≡ c
    → b ≡ true
    → d ≡ true
unfolding lt_key
lt_flag_2 a b c d x y h same e = ground arith

lt_flag_3 :
    (a b e c d f : Bool) (x y : Key)
    → lt_key
        (pos (flag a) ∷ pos (flag b) ∷ pos (flag e) ∷ x)
        (pos (flag c) ∷ pos (flag d) ∷ pos (flag f) ∷ y)
      ≡ false
    → a ≡ c
    → b ≡ d
    → e ≡ true
    → f ≡ true
unfolding lt_key
lt_flag_3 a b e c d f x y h same same' g = ground arith

-- `listed` finds nothing: the option is none of the names.
listed-none :
    (o : Option String) (ns : List String) (n : String)
    → listed o ns ≡ none
    → contains ns n ≡ true
    → (o == some n) ≡ false
listed-none none ns n h here = refl
listed-none (some m) ns n h here = ground (arith, eq_iff m n)

listed-some :
    (o : Option String) (ns : List String) (n : String)
    → listed o ns ≡ some n
    → (contains ns n ≡ true) × ((o == some n) ≡ true)
listed-some none ns n h = cc
listed-some (some m) ns n h = ground (arith, eq_iff m n)

contains_head : (c : String) (cs : List String) → contains (c ∷ cs) c ≡ true
contains_head c cs = ground (arith, ==_refl c)

keep_none :
    (test : String → Bool) (ns : List String)
    → ((n : String) → contains ns n ≡ true → test n ≡ false)
    → keep test ns ≡ []
keep_none test [] h = refl
keep_none test (n ∷ ns) h =
    let first = h n (contains_head n ns) in
    let rest = keep_none test ns (λ m here. h m (ground arith)) in ground arith

first_or-same :
    (test : String → Bool) (c : String) (cs : List String)
    → ((n : String) → contains (c ∷ cs) n ≡ true → test n ≡ true → test c ≡ true)
    → first_or (keep test (c ∷ cs)) c ≡ c
first_or-same test c cs h = elim (Bool-cases (test c)) [
  | inl yes_it ↦ ground arith
  | inr not_it ↦
      let none_left = keep_none test (c ∷ cs) (λ n here. elim (Bool-cases (test n)) [
        | inl has ↦ absurd (let yes_it = h n here has in ground arith)
        | inr has_not ↦ has_not
      ]) in
      rw none_left refl
]

module _ {R : Type 0} (r : Registry R) (pin default default_tag : Option String) (all : List String)
    (c : String) (cs : List String)
    (leads : All
      (λ y.
        lt_key (rank r pin default default_tag all y) (rank r pin default default_tag all c)
        ≡ false)
      (c ∷ cs)) where
  behind :
      (p : String)
      → contains (c ∷ cs) p ≡ true
      → lt_key (rank r pin default default_tag all p) (rank r pin default default_tag all c) ≡ false
  behind p here =
      All-contains
        (λ y.
          lt_key (rank r pin default default_tag all y) (rank r pin default default_tag all c)
          ≡ false)
        (c ∷ cs) p leads here

  -- A candidate that is the option `o` is the first, if the first is.
  chosen_is : (o : Option String) (p : String) → (o == some p) ≡ true → (o == some c) ≡ true → p ≡ c
  chosen_is none p e f = cc
  chosen_is (some m) p e f = sym ((eq_iff m p).0 e) ∙ (eq_iff m c).0 f

  pin_first : (p : String) → listed pin (c ∷ cs) ≡ some p → p ≡ c
  pin_first p h =
      let (here, is_pin) = listed-some pin (c ∷ cs) p h in
      chosen_is pin p is_pin (lt_flag_1 (pin == some p) (pin == some c) _ _ (behind p here) is_pin)

  same_pin :
      (p : String)
      → listed pin (c ∷ cs) ≡ none
      → contains (c ∷ cs) p ≡ true
      → (pin == some p) ≡ (pin == some c)
  same_pin p h here =
      listed-none pin (c ∷ cs) p h here ∙ sym (listed-none pin (c ∷ cs) c h (contains_head c cs))

  default_first :
      (p : String) → listed pin (c ∷ cs) ≡ none → listed default (c ∷ cs) ≡ some p → p ≡ c
  default_first p unpinned h =
      let (here, is_default) = listed-some default (c ∷ cs) p h in
      chosen_is default p is_default (
        lt_flag_2 (pin == some p) (default == some p) (pin == some c) (default == some c) _ _
          (behind p here) (same_pin p unpinned here) is_default)

  tagged_first :
      (p : String)
      → listed pin (c ∷ cs) ≡ none
      → listed default (c ∷ cs) ≡ none
      → contains (c ∷ cs) p ≡ true
      → tagged_with default_tag (tags_of r p) ≡ true
      → tagged_with default_tag (tags_of r c) ≡ true
  tagged_first p unpinned undefaulted here has =
      lt_flag_3 (pin == some p) (default == some p) (tagged_with default_tag (tags_of r p))
        (pin == some c) (default == some c) (tagged_with default_tag (tags_of r c)) _ _
        (behind p here) (same_pin p unpinned here)
        (listed-none default (c ∷ cs) p undefaulted here
          ∙ sym (listed-none default (c ∷ cs) c undefaulted (contains_head c cs)))
        has

  choose_default-first : listed pin (c ∷ cs) ≡ none → choose_default r default default_tag c cs ≡ c
  unfolding choose_default
  choose_default-first unpinned = elim (Option-cases (listed default (c ∷ cs))) [
    | inr (d, named) ↦ rw (named, choose_default) (default_first d unpinned named)
    | inl undefaulted ↦
        rw (undefaulted, choose_default)
          (elim (Option-cases default_tag) [
            | inl no_tag ↦ rw no_tag refl
            | inr (t, tag) ↦ rw tag (
                first_or-same (λ n. contains (tags_of r n) t) c cs
                  (λ n here has.
                    subst (λ o. tagged_with o (tags_of r c) ≡ true) tag
                      (tagged_first n unpinned undefaulted here
                        (subst (λ o. tagged_with o (tags_of r n) ≡ true) (sym tag) has))))
          ])
  ]

  pub choose-first : choose r pin none default default_tag c cs ≡ found c
  unfolding choose
  choose-first = elim (Option-cases (listed pin (c ∷ cs))) [
    | inr (p, pinned) ↦ rw (pinned, choose) (ap found (pin_first p pinned))
    | inl unpinned ↦ rw (unpinned, choose) (ap found (choose_default-first unpinned))
  ]
