-- ===== src/Registry/Aliases/Added.antt =====
-- One more alias in the table of `_build_aliases` (mm_gateway/registry.py).
use mm_gateway.Prelude.{
  String, ◌≡◌, ◌⊎◌, inl, inr, refl, sym, ◌∙◌, subst, ap, Bool, true, false, not, Option, none, some,
  List, ◌==◌, string_eq, contains, arith, Bool-cases, Option-cases,
}
use mm_gateway.Prelude.Dict
use mm_gateway.Prelude.Dict.{Dict, get-put}
use mm_gateway.Config.{BackendConfig}
use mm_gateway.Registry.{Backend}
use mm_gateway.Registry.Aliases.{
  Table, Built, built, refused, AliasError, add_alias, is_active, is_inactive,
}

module _ {V : Type 0} where
  put_self : (k : String) (v : V) (d : Dict String V) → Dict.get k (Dict.put k v d) ≡ some v
  put_self k v d = ground (arith, get-put k k v d, string_eq.beq_iff k k)

  put_other :
      (k j : String) (v : V) (d : Dict String V)
      → (k == j) ≡ false
      → Dict.get j (Dict.put k v d) ≡ Dict.get j d
  put_other k j v d h = get-put k j v d ∙ rw h refl

second_of :
    {A B : Type 0} {a c : A} {b d : B}
    → ◌≡◌ {A = Option (A × B)} (some (a, b)) (some (c, d))
    → b ≡ d
second_of e = cc

pub Built-cases :
    {A : Type 0} (b : Built A) → ((e : AliasError) × (b ≡ refused e)) ⊎ ((a : A) × (b ≡ built a))
Built-cases (built a) = inr (a, refl)
Built-cases (refused e) = inl (e, refl)

module _ {R : Type 0} (builtin : Dict String (String × String)) (custom raw_ids : List String)
    (backends : Dict String (Backend R)) where
  -- A configured alias is no model's id, its target is no alias, and the backend that it is tied to
  -- advertises the target, if it is active.
  pub record IsCustom (alias target : String) (tied : Dict String String) : Type 0 where
    pub declared : contains custom alias ≡ true
    pub fresh : contains raw_ids alias ≡ false
    pub upstream : Dict.get target builtin ≡ none
    pub direct : contains custom target ≡ false
    pub home :
        (name : String) × (Dict.get alias tied ≡ some name)
        × ((b : Backend R) → Dict.get name backends ≡ some b → is_active target b ≡ true)

  -- Every alias is a built-in one or a configured one, and the built-in ones stay.
  pub record AreSound (t : Table) : Type 0 where
    pub known :
        (alias type target : String)
        → Dict.get alias t.0 ≡ some (type, target)
        → (Dict.get alias builtin ≡ some (type, target)) ⊎ IsCustom alias target t.1
    pub kept :
        (alias : String) (entry : String × String)
        → Dict.get alias builtin ≡ some entry
        → Dict.get alias t.0 ≡ some entry

  active_target :
      (target : String) (o : Option (Backend R))
      → is_inactive target o ≡ false
      → (b : Backend R) → o ≡ some b
      → is_active target b ≡ true
  active_target target none h b e = cc
  active_target target (some c) h b e =
      let same : c ≡ b = cc in
      subst (λ (x : Backend R). is_active target x ≡ true) same (positive (is_active target c) h)
    where
      positive : (x : Bool) → not x ≡ false → x ≡ true
      positive true h = refl
      positive false h = cc

  -- Another alias is tied to the backend it was tied to.
  tied_before :
      (a g alias name : String) (tied : Dict String String)
      → (alias == a) ≡ false
      → IsCustom a g tied
      → IsCustom a g (Dict.put alias name tied)
  tied_before a g alias name tied other c =
      let (home, at, works) = c.home in
      record {
        declared = c.declared;
        fresh = c.fresh;
        upstream = c.upstream;
        direct = c.direct;
        home = (home, put_other alias a name tied other ∙ at, works);
      }

  added :
      (cfg : BackendConfig) (alias target : String) (t : Table)
      → contains custom alias ≡ true
      → Dict.get alias t.0 ≡ none
      → contains raw_ids alias ≡ false
      → Dict.get target builtin ≡ none
      → contains custom target ≡ false
      → is_inactive target (Dict.get cfg.name backends) ≡ false
      → AreSound t
      → AreSound (Dict.put alias (cfg.type, target) t.0, Dict.put alias cfg.name t.1)
  added cfg alias target t declared new fresh upstream direct active h = record {
    known = λ a ty g e. elim (Bool-cases (alias == a)) [
      | inl same ↦
          let is_a : alias ≡ a = (string_eq.beq_iff alias a).0 same in
          let is_g : target ≡ g = second_of (
            sym (put_self alias (cfg.type, target) t.0)
            ∙ (ap (λ k. Dict.get k (Dict.put alias (cfg.type, target) t.0)) is_a ∙ e)) in
          inr (
            subst (λ k. IsCustom k g (Dict.put alias cfg.name t.1)) is_a
              (subst (λ k. IsCustom alias k (Dict.put alias cfg.name t.1)) is_g
                (record {
                  declared = declared;
                  fresh = fresh;
                  upstream = upstream;
                  direct = direct;
                  home = (
                    cfg.name,
                    put_self alias cfg.name t.1,
                    active_target target (Dict.get cfg.name backends) active,
                  );
                })))
      | inr other ↦
          elim (h.known a ty g (sym (put_other alias a (cfg.type, target) t.0 other) ∙ e)) [
            | inl before ↦ inl before
            | inr before ↦ inr (tied_before a g alias cfg.name t.1 other before)
          ]
    ];
    kept = λ a entry e. elim (Bool-cases (alias == a)) [
      | inl same ↦ absurd (
          let is_a : alias ≡ a = (string_eq.beq_iff alias a).0 same in
          let gone : Dict.get a t.0 ≡ none = subst (λ k. Dict.get k t.0 ≡ none) is_a new in
          let there = h.kept a entry e in cc)
      | inr other ↦ put_other alias a (cfg.type, target) t.0 other ∙ h.kept a entry e
    ];
  }

  pub add_alias-AreSound :
      (cfg : BackendConfig) (alias target : String) (t u : Table)
      → contains custom alias ≡ true
      → AreSound t
      → add_alias builtin custom raw_ids backends cfg alias target t ≡ built u
      → AreSound u
  unfolding add_alias
  add_alias-AreSound cfg alias target t u declared h e = elim (Option-cases (Dict.get alias t.0)) [
    | inr (old, there) ↦ absurd (ground arith)
    | inl new ↦ elim (Bool-cases (contains raw_ids alias)) [
      | inl raw ↦ absurd (ground arith)
      | inr fresh ↦ elim (Option-cases (Dict.get target builtin)) [
        | inr (old, there) ↦ absurd (ground arith)
        | inl upstream ↦ elim (Bool-cases (contains custom target)) [
          | inl aliased ↦ absurd (ground arith)
          | inr direct ↦ elim (Bool-cases (is_inactive target (Dict.get cfg.name backends))) [
            | inl inactive ↦ absurd (ground arith)
            | inr active ↦
                let made : (Dict.put alias (cfg.type, target) t.0, Dict.put alias cfg.name t.1)
                    ≡ u =
                  ground arith in
                subst AreSound made
                  (added cfg alias target t declared new fresh upstream direct active h)
          ]
        ]
      ]
    ]
  ]
