-- ===== src/Schemas.antt =====
-- mm_gateway/schemas: the requests inside the gateway, with the fields that routing reads, and the public
-- requests they are translated from. A text is the list of its character codes, so that it can be joined
-- and measured; a URL is a text. The settings that are only handed on to a provider are left out.
pub mod Image
pub mod Video
pub mod Music
pub mod Audio
pub mod Rest
use mm_gateway.Prelude.{
  ℕ, ◌≡◌, refl, arith, any, Bool, true, false, not, Option, none, some, List, [], ◌∷◌, ◌++◌,
}

abbrev pub Text : Type 0
Text = List ℕ

-- "\n".join(lines)
abbrev pub join_lines : List Text → Text
join_lines [] = []
join_lines (t ∷ []) = t
join_lines (t ∷ u ∷ ts) = t ++ (b'\n' ∷ join_lines (u ∷ ts))

-- "\n".join(lines) if lines else None
abbrev pub joined : List Text → Option Text
joined [] = none
joined (t ∷ ts) = some (join_lines (t ∷ ts))

-- text or None
abbrev pub or_none : Text → Option Text
or_none [] = none
or_none (c ∷ cs) = some (c ∷ cs)

-- text or ""
abbrev pub or_empty : Option Text → Text
or_empty none = []
or_empty (some t) = t

abbrev pub empty? {ℓ} : {A : Type ℓ} → List A → Bool
empty? [] = true
empty? (x ∷ xs) = false

abbrev pub has_text : Text → Bool
has_text t = not (empty? t)

abbrev pub given : Option Text → Bool
given o = has_text (or_empty o)

pub given-joined : (ts : List Text) → any has_text ts ≡ true → given (joined ts) ≡ true
given-joined [] h = cc
given-joined (t ∷ []) h = ground arith
given-joined ([] ∷ u ∷ ts) h = refl
given-joined ((c ∷ cs) ∷ u ∷ ts) h = refl
