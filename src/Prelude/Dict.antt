-- ===== src/Prelude/Dict.antt =====
-- Python's `dict`: entries in the order of insertion. Writing an existing key keeps its place.
-- The laws determine every later `get`; code that iterates goes through `values` and `items`.
pub mod Distinct
use mathlib.Core.Path.{◌≡◌, refl}
use mathlib.Core.Logic.{◌≢◌, ◌⊎◌, inl, inr}
use mathlib.Core.Option.{Option, none, some}
use mathlib.Core.List.{List, [], ◌∷◌}
use native.Mathlib.Omega.{arith}
use mm_gateway.Prelude.Tests.{if◌then◌else◌}
use mm_gateway.Prelude.Equality.{Eq, ◌==◌, ==_refl}

abbrev pub Dict : Type 0 → Type 0 → Type 0
Dict K V = List (K × V)

abbrev pub empty : {K V : Type 0} → Dict K V
empty = []

-- d.values()
abbrev pub values : {K V : Type 0} → Dict K V → List V
values [] = []
values ((k, v) ∷ d) = v ∷ values d

module _ {K V : Type 0} ⦃e : Eq K⦄ where
  -- d.get(k)
  unfoldable pub get : K → Dict K V → Option V
  get k [] = none
  get k ((j, v) ∷ d) = if j == k then some v else get k d

  -- d[k] = v
  unfoldable pub put : K → V → Dict K V → Dict K V
  put k v [] = (k, v) ∷ []
  put k v ((j, w) ∷ d) = if j == k then (k, v) ∷ d else (j, w) ∷ put k v d

  -- d.pop(k, None)
  unfoldable pub remove : K → Dict K V → Dict K V
  remove k [] = []
  remove k ((j, v) ∷ d) = let rest = remove k d in if j == k then rest else (j, v) ∷ rest

  pub get-put :
      (k j : K) (v : V) (d : Dict K V) → get j (put k v d) ≡ (if k == j then some v else get j d)
  unfolding get put
  get-put k j v [] = refl
  get-put k j v ((i, w) ∷ d) =
      ground (arith, e.beq_iff k j, e.beq_iff i k, e.beq_iff i j, get-put k j v d)

  pub get-remove :
      (k j : K) (d : Dict K V) → get j (remove k d) ≡ (if k == j then none else get j d)
  unfolding get remove
  get-remove k j [] = ground arith
  get-remove k j ((i, w) ∷ d) =
      ground (arith, e.beq_iff k j, e.beq_iff i k, e.beq_iff i j, get-remove k j d)

  -- d.get(k, default)
  abbrev pub get_or : K → V → Dict K V → V
  get_or k v d = elim (get k d) [ none ↦ v | some w ↦ w ]

  -- The removal and the write of a key that may be missing.
  abbrev pub discard : Option K → Dict K V → Dict K V
  discard none d = d
  discard (some k) d = remove k d

  abbrev pub put_if : Option K → V → Dict K V → Dict K V
  put_if none v d = d
  put_if (some k) v d = put k v d

  pub get-discard-some :
      (o : Option K) (u : K) (d : Dict K V) {v : V}
      → get u (discard o d) ≡ some v
      → (get u d ≡ some v) × (o ≢ some u)
  get-discard-some none u d f = (f, λ e. cc)
  get-discard-some (some t) u d f =
      (ground (arith, get-remove t u d), λ q. ground (arith, get-remove t u d, e.beq_iff t u))

  pub get-discard_ne :
      (o : Option K) (u : K) (d : Dict K V) → o ≢ some u → get u (discard o d) ≡ get u d
  get-discard_ne none u d f = refl
  get-discard_ne (some t) u d f = ground (arith, get-remove t u d, e.beq_iff t u)

  pub get-put_if :
      (o : Option K) (u : K) (v w : V) (d : Dict K V)
      → get u (put_if o v d) ≡ some w
      → ((o ≡ some u) × (w ≡ v)) ⊎ (get u d ≡ some w)
  get-put_if none u v w d f = inr f
  get-put_if (some t) u v w d f = ground (arith, get-put t u v d, e.beq_iff t u)

pub ruleset dict_laws = (get-put, get-remove, ==_refl)
