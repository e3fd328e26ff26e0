-- ===== src/Registry/Access.antt =====
-- What a key gives access to: its backends, the backends that serve a model for it, and its tasks
-- (`authorize_task_access` of mm_gateway/server/auth.py).
use mathlib.Core.List.{Mem, mem-cons, mem-cons_self, mem-cons_of_mem, not-mem-nil}
use mathlib.Core.List.Perm
use mathlib.Core.Logic.{∥∥₁_elim}
use mathlib.Core.Logic.Or
use mm_gateway.Prelude.{
  String, ◌≡◌, ◌↔◌, ◌⊎◌, inl, inr, refl, sym, subst, Bool, true, false, Option, some, List, [], ◌∷◌,
  arith, ◌==◌, string_eq, eq_iff, Bool-cases, mem-keep, contains, if◌then◌else◌,
}
use mm_gateway.Prelude.Dict
use mm_gateway.Prelude.Dict.{Dict}
use mm_gateway.Prelude.Sort.{sort_by-perm}
use mm_gateway.Config.{KeyConfig, BackendConfig}
use mm_gateway.Tasks.Store.{TaskRecord}
use mm_gateway.Registry.{
  Backend, Registry, no_texts, meet, may_use, allowed_in, usable_backends, usable, resolve_model_id,
  serves, on_backend, key_default_backend, key_default_tag,
}
use mm_gateway.Registry.Serving.{found, backends_serving, in_order, serving, rank}

-- `authorize_task_access`
unfoldable pub authorize_task_access : {R J : Type 0} → Registry R → KeyConfig → TaskRecord J → Bool
unfolding usable_backends
authorize_task_access r key record' =
    if record'.owner_key_id == key.id
    then contains (usable_backends key r) record'.provider
    else false

-- What lets a key use a backend: the key denies neither the backend's name nor its type, and one of the
-- backend's tags is allowed, or its name is, or the key allows nothing in particular. The backend's
-- tags are not compared with the denied ones.
abbrev pub IsAllowed : KeyConfig → String → BackendConfig → Type 0
IsAllowed key n cfg =
    (contains key.deny_tags n ≡ false)
    × (contains key.deny_tags cfg.type ≡ false)
    × ((meet cfg.tags key.allow_tags ≡ true)
        ⊎ ((contains key.allow_backends n ≡ true)
            ⊎ ((key.allow_tags ≡ []) × (key.allow_backends ≡ []))))

no_texts_lem : (ts : List String) → no_texts ts ≡ true → ts ≡ []
no_texts_lem [] h = refl
no_texts_lem (t ∷ ts) h = cc

may_use-IsAllowed :
    (key : KeyConfig) (n : String) (cfg : BackendConfig)
    → may_use key n cfg ≡ true
    → IsAllowed key n cfg
unfolding may_use
may_use-IsAllowed key n cfg h = (
  ground arith,
  ground arith,
  (elim (Bool-cases (meet cfg.tags key.allow_tags)) [
    | inl tagged ↦ inl tagged
    | inr untagged ↦ inr (elim (Bool-cases (contains key.allow_backends n)) [
      | inl named ↦ inl named
      | inr unnamed ↦ inr (
        no_texts_lem key.allow_tags (ground arith),
        no_texts_lem key.allow_backends (ground arith),
      )
    ])
  ]),
)

-- The key may use the named backend of the registry.
abbrev pub MayUse : {R : Type 0} → KeyConfig → String → Dict String (Backend R) → Type 0
MayUse {R} key n d = ∥ ((b : Backend R) × Mem (n, b) d × IsAllowed key n b.config) ∥₁

contains-Mem : (xs : List String) (x : String) → contains xs x ≡ true → Mem x xs
contains-Mem [] x h = cc
contains-Mem (y ∷ ys) x h = elim (Bool-cases (y == x)) [
  | inl same ↦ subst (λ z. Mem z (y ∷ ys)) ((eq_iff y x).0 same) mem-cons_self
  | inr other ↦ mem-cons_of_mem y (contains-Mem ys x (ground arith))
]

module _ {R : Type 0} (key : KeyConfig) where
  keep_place :
      (n m : String) (b : Backend R) (d : Dict String (Backend R))
      → MayUse key n d
      → MayUse key n ((m, b) ∷ d)
  keep_place n m b d h =
      ∥∥₁_elim h squash₁ (λ p. let (c, at, may) = p in ∣ (c, mem-cons_of_mem (m, b) at, may) ∣₁)

  allowed_in-MayUse :
      (n : String) (d : Dict String (Backend R)) → Mem n (allowed_in key d) → MayUse key n d
  allowed_in-MayUse n [] h = absurd (not-mem-nil h)
  allowed_in-MayUse n ((m, b) ∷ d) h = elim (Bool-cases (may_use key m b.config)) [
    | inl may ↦
        Or.elim squash₁ (mem-cons.0 (subst (Mem n) (allowed_yes may) h))
          (λ same. ∣ (
            b,
            subst (λ x. Mem (x, b) ((m, b) ∷ d)) (sym same) mem-cons_self,
            subst (λ x. IsAllowed key x b.config) (sym same) (may_use-IsAllowed key m b.config may),
          ) ∣₁)
          (λ later. keep_place n m b d (allowed_in-MayUse n d later))
    | inr may_not ↦
        keep_place n m b d (allowed_in-MayUse n d (subst (Mem n) (allowed_no may_not) h))
  ]
    where
      allowed_yes :
          may_use key m b.config ≡ true → allowed_in key ((m, b) ∷ d) ≡ m ∷ allowed_in key d
      allowed_yes e = ground arith

      allowed_no : may_use key m b.config ≡ false → allowed_in key ((m, b) ∷ d) ≡ allowed_in key d
      allowed_no e = ground arith

  -- A caller who is let through to a task owns it, and the task's backend is one of the registry
  -- that the key may use: the key denies neither the backend's name nor its type, and one of the
  -- backend's tags is allowed, or its name is, or the key allows nothing in particular.
  pub authorize_task_access-MayUse :
      {J : Type 0} (r : Registry R) (task : TaskRecord J)
      → authorize_task_access r key task ≡ true
      → (task.owner_key_id ≡ key.id) × MayUse key task.provider r.backends
  unfolding authorize_task_access usable_backends
  authorize_task_access-MayUse r task h = (
    ground (arith, eq_iff task.owner_key_id key.id),
    allowed_in-MayUse task.provider r.backends
        (contains-Mem (allowed_in key r.backends) task.provider (ground arith)),
  )

  -- The backends that serve a model for a key are exactly those that the key may use and that serve
  -- it.
  backends_serving_iff :
      (split : String → Option (String × String)) (model modality : String) (pin : Option String)
      (r : Registry R) (real : String) (cs : List String)
      → backends_serving split model (some key) modality pin r ≡ found (real, cs)
      → (n : String)
      → Mem n cs ↔ (
          Mem n (usable_backends key r)
          × (on_backend false
                (λ b.
                  serves
                    (Dict.get model r.alias_backends)
                    (resolve_model_id split model (usable_backends key r) r).0
                    real
                    modality
                    pin
                    n
                    b)
                n
                r
              ≡ true))
  unfolding backends_serving usable
  backends_serving_iff split model modality pin r real cs h n =
      let us = usable_backends key r in
      let id = resolve_model_id split model us r in
      let only = Dict.get model r.alias_backends in
      let all = serving only id.0 id.1 modality pin us r in
      let is_cs : in_order (some key) modality pin r all ≡ cs = ground arith in
      let is_real : id.1 ≡ real = ground arith in
      let order =
        sort_by-perm
          (rank r pin (key_default_backend (some key) modality)
            (key_default_tag (some key) modality) all)
          all in
      subst
        (λ xs. Mem n xs ↔ (
          Mem n us × (on_backend false (λ b. serves only id.0 real modality pin n b) n r ≡ true)))
        is_cs
        (subst
          (λ x.
            Mem n (in_order (some key) modality pin r all)
            ↔ (Mem n us × (on_backend false (λ b. serves only id.0 x modality pin n b) n r ≡ true)))
          is_real
          (
            (λ m.
                (mem-keep (λ k. on_backend false (λ b. serves only id.0 id.1 modality pin k b) k r)
                    n us).0
                  ((Perm.mem_iff order).0 m)),
            λ m. (Perm.mem_iff order).1 (
                (mem-keep (λ k. on_backend false (λ b. serves only id.0 id.1 modality pin k b) k r)
                    n us).1
                  m),
          ))
