-- ===== src/Config/Keys.antt =====
-- Who is admitted: mm_gateway/server/auth.py's `resolve_key`.
use mathlib.Core.List.{Mem, mem-cons_self, mem-cons_of_mem}
use mm_gateway.Prelude.{
  String, ◌≡◌, ◌⊎◌, inl, inr, subst, true, ◌&&◌, Option, none, some, List, [], ◌∷◌, arith, ◌==◌,
  string_eq, eq_iff, ap, sym, Option-cases, Bool-cases,
}
use mm_gateway.Config.{
  KeyConfig, key_for, open_key, open_or, resolve_key, admitted, Unauthorized, missing_key,
  unknown_key,
}

key_for_lem :
    (token : String) (keys : List KeyConfig) (k : KeyConfig)
    → key_for keys token ≡ some k
    → Mem k keys × (k.enabled ≡ true) × (k.key ≡ token)
unfolding key_for
key_for_lem token [] k h = cc
key_for_lem token (c ∷ cs) k h = elim (Bool-cases (c.enabled && c.key == token)) [
  | inl e ↦
      let same : c ≡ k = ground arith in
      subst (λ x. Mem x (c ∷ cs) × (x.enabled ≡ true) × (x.key ≡ token)) same
        (mem-cons_self, ground arith, ground (arith, eq_iff c.key token))
  | inr e ↦
      let (at, on, own) = key_for_lem token cs k (ground arith) in (mem-cons_of_mem c at, on, own)
]

open_key_lem :
    (keys : List KeyConfig) (k : KeyConfig)
    → open_key keys ≡ some k
    → Mem k keys × (k.enabled ≡ true) × (k.key ≡ "")
unfolding open_key
open_key_lem [] k h = cc
open_key_lem (c ∷ cs) k h = elim (Bool-cases (c.enabled && c.key == "")) [
  | inl e ↦
      let same : c ≡ k = ground arith in
      subst (λ x. Mem x (c ∷ cs) × (x.enabled ≡ true) × (x.key ≡ "")) same
        (mem-cons_self, ground arith, ground (arith, eq_iff c.key ""))
  | inr e ↦ let (at, on, own) = open_key_lem cs k (ground arith) in (mem-cons_of_mem c at, on, own)
]

open_or_lem :
    (keys : List KeyConfig) (why : Unauthorized) (k : KeyConfig)
    → open_or keys why ≡ admitted k
    → Mem k keys × (k.enabled ≡ true) × (k.key ≡ "")
unfolding open_or
open_or_lem keys why k h = elim (Option-cases (open_key keys)) [
  | inl gone ↦ absurd (ground arith)
  | inr (c, found) ↦
      let same : c ≡ k = ground arith in
      open_key_lem keys k (subst (λ x. open_key keys ≡ some x) same found)
]

-- An admitted caller gets a key that is configured and enabled, and that either is the token's own
-- or asks for no token.
pub resolve_key_sound :
    (keys : List KeyConfig) (token : Option String) (k : KeyConfig)
    → resolve_key keys token ≡ admitted k
    → Mem k keys × (k.enabled ≡ true) × ((token ≡ some k.key) ⊎ (k.key ≡ ""))
unfolding resolve_key
resolve_key_sound keys none k h =
    let (at, on, open_to_all) = open_or_lem keys missing_key k h in (at, on, inr open_to_all)
resolve_key_sound keys (some token) k h = elim (Bool-cases (token == "")) [
  | inl e ↦
      let (at, on, open_to_all) = open_or_lem keys missing_key k (ground arith) in
      (at, on, inr open_to_all)
  | inr e ↦ elim (Option-cases (key_for keys token)) [
    | inl gone ↦
        let (at, on, open_to_all) = open_or_lem keys unknown_key k (ground arith) in
        (at, on, inr open_to_all)
    | inr (c, found) ↦
        let same : c ≡ k = ground arith in
        let (at, on, own) =
          key_for_lem token keys k (subst (λ x. key_for keys token ≡ some x) same found) in
        (at, on, inl (ap some (sym own)))
  ]
]
