-- ===== src/Registry/Resolve.antt =====
-- `resolve` against the preference order of `backends_serving`.
use mm_gateway.Prelude.{
  String, ◌≡◌, ◌⊎◌, inl, inr, refl, subst, true, Option, none, some, List, [], ◌∷◌, arith,
  string_eq, nat_eq, option_eq, contains, Option-cases,
}
use mm_gateway.Prelude.Dict
use mm_gateway.Prelude.Sort.{lt_key_irrefl, IsSorted, sort_by-IsSorted}
use mm_gateway.Config.{KeyConfig}
use mm_gateway.Registry.{
  RouteError, model_not_found, Registry, modalities, key_default_backend, key_default_tag, usable,
  resolve_model_id,
}
use mm_gateway.Registry.Serving.{
  Outcome, found, refused, rank, choose, resolve, resolve_default_backend, resolve_default_tag,
  backends_serving, in_order, serving,
}
use mm_gateway.Registry.Order.{All-contains, choose-first}

same_default_backend :
    (key : Option KeyConfig) (modality : String)
    → contains modalities modality ≡ true
    → resolve_default_backend key modality ≡ key_default_backend key modality
unfolding resolve_default_backend key_default_backend
same_default_backend none modality h = refl
same_default_backend (some key) modality h =
    All-contains (λ m. resolve_default_backend (some key) m ≡ key_default_backend (some key) m)
      modalities modality (refl, (refl, (refl, (refl, tt)))) h

same_default_tag :
    (key : Option KeyConfig) (modality : String)
    → contains modalities modality ≡ true
    → resolve_default_tag key modality ≡ key_default_tag key modality
unfolding resolve_default_tag key_default_tag
same_default_tag none modality h = refl
same_default_tag (some key) modality h =
    All-contains (λ m. resolve_default_tag (some key) m ≡ key_default_tag (some key) m) modalities
      modality (refl, (refl, (refl, (refl, tt)))) h

-- The first of the backends in their order of preference.
abbrev pub first_of : Outcome (String × List String) → Outcome (String × String)
first_of (refused e) = refused e
first_of (found (real, [])) = refused model_not_found
first_of (found (real, c ∷ cs)) = found (real, c)

Outcome-cases :
    (o : Outcome (String × List String))
    → ((e : RouteError) × (o ≡ refused e))
      ⊎ ((real : String) × (cs : List String) × (o ≡ found (real, cs)))
Outcome-cases (refused e) = inl (e, refl)
Outcome-cases (found (real, cs)) = inr (real, cs, refl)

module _ {R : Type 0} (r : Registry R) where
  resolved_first :
      (pin default default_tag : Option String) (all sorted : List String) (real : String)
      (d t : Option String)
      → d ≡ default
      → t ≡ default_tag
      → IsSorted (rank r pin default default_tag all) sorted
      → (elim sorted as (λ _. Outcome (String × String)) [
        | [] ↦ refused model_not_found
        | c ∷ cs ↦ elim (choose r pin none d t c cs) [
          | refused e ↦ refused e
          | found n ↦ found (real, n)
        ]
      ])
        ≡ first_of (found (real, sorted))
  resolved_first pin default default_tag all [] real d t same same' w = refl
  resolved_first pin default default_tag all (c ∷ cs) real d t same same' w =
      rw (same, same')
        (rw (choose-first r pin default default_tag all c cs (lt_key_irrefl _, w.0)) refl)

  backends_serving-IsSorted :
      (split : String → Option (String × String)) (model : String) (key : Option KeyConfig)
      (modality : String) (pin : Option String) (real : String) (cs : List String)
      → backends_serving split model key modality pin r ≡ found (real, cs)
      → (all : List String) × IsSorted
          (rank r pin (key_default_backend key modality) (key_default_tag key modality) all)
          cs
  unfolding backends_serving
  backends_serving-IsSorted split model key modality pin real cs h =
      elim (Option-cases (usable key r)) [
        | inl gone ↦ absurd (ground arith)
        | inr (us, e) ↦
            let id = resolve_model_id split model us r in
            let all = serving (Dict.get model r.alias_backends) id.0 id.1 modality pin us r in
            let same : in_order key modality pin r all ≡ cs = ground arith in
            (
              all,
              subst
                  (IsSorted (
                    rank r pin (key_default_backend key modality) (key_default_tag key modality)
                      all))
                  same
                  (sort_by-IsSorted
                    (rank r pin (key_default_backend key modality) (key_default_tag key modality)
                      all)
                    all),
            )
      ]

  -- Resolving an explicit model without a routing tag, in one of the four modalities, takes the
  -- first of the backends that the planner's ordered list gives, and fails when that list does: the
  -- two ways of choosing agree.
  pub resolve_first :
      (split : String → Option (String × String)) (model : String) (key : Option KeyConfig)
      (modality : String) (pin : Option String)
      → contains modalities modality ≡ true
      → resolve split model key modality none pin r
        ≡ first_of (backends_serving split model key modality pin r)
  unfolding resolve
  resolve_first split model key modality pin known =
      elim (Outcome-cases (backends_serving split model key modality pin r)) [
        | inl (e, refuses) ↦ rw (refuses, resolve) refl
        | inr (real, cs, finds) ↦
            let (all, sorted) =
              backends_serving-IsSorted split model key modality pin real cs finds in
            rw (finds, resolve)
              (resolved_first pin (key_default_backend key modality) (key_default_tag key modality)
                all cs real (resolve_default_backend key modality)
                (resolve_default_tag key modality) (same_default_backend key modality known)
                (same_default_tag key modality known) sorted)
      ]
