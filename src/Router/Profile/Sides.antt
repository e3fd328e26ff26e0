-- ===== src/Router/Profile/Sides.antt =====
-- mm_gateway/router.py: `_parse_size`, and the sides that a profile takes from it.
use mm_gateway.Prelude.{
  ℕ, zero, suc, ◌+◌, ◌*◌, ◌-◌, Bool, true, false, ◌&&◌, ◌||◌, Option, none, some, [], ◌∷◌, leb,
  ◌==◌, nat_eq, if◌then◌else◌,
}
use mm_gateway.Prelude.Int.{ℤ, pos, neg, pos_part}
use mm_gateway.Schemas.{Text}

abbrev pub is_digit : ℕ → Bool
is_digit c = leb b'0' c && leb c b'9'

-- The digits that are left, after a digit (`true`: an underscore may follow) or not.
unfoldable pub read_digits : ℕ → Bool → Text → Option ℕ
read_digits n after [] = if after then some n else none
read_digits n after (c ∷ cs) =
    let digit = read_digits (n * 10 + (c - b'0')) true cs in
    let underscore = read_digits n false cs in
    if is_digit c then digit else if c == b'_' && after then underscore else none

abbrev pub is_space : ℕ → Bool
is_space c = c == b' ' || (leb 9 c && leb c 13)

unfoldable pub skip_spaces : Text → Text
skip_spaces [] = []
skip_spaces (c ∷ cs) = let rest = skip_spaces cs in if is_space c then rest else c ∷ cs

-- text.strip(): what is left of a text of spaces alone is nothing
unfoldable pub drop_spaces : Text → Text
drop_spaces [] = []
drop_spaces (c ∷ cs) = elim (drop_spaces cs) [
  | [] ↦ if is_space c then [] else c ∷ []
  | d ∷ ds ↦ c ∷ d ∷ ds
]

abbrev pub negated : Option ℕ → Option ℤ
negated none = none
negated (some n) = some (neg n)

abbrev pub positive : Option ℕ → Option ℤ
positive none = none
positive (some n) = some (pos n)

unfoldable pub read_signed : Text → Option ℤ
unfolding read_digits
read_signed [] = none
read_signed (c ∷ cs) =
    if c == b'-'
    then negated (read_digits 0 false cs)
    else if c == b'+'
    then positive (read_digits 0 false cs)
    else positive (read_digits 0 false (c ∷ cs))

-- int(text)
unfoldable pub to_int : Text → Option ℤ
unfolding read_signed skip_spaces drop_spaces
to_int t = read_signed (skip_spaces (drop_spaces t))

-- size.replace("*", "x").lower(), as far as the mark between the sides goes
abbrev pub is_times : ℕ → Bool
is_times c = c == b'x' || (c == b'X' || c == b'*')

-- The text before the first mark, and the one after it, if there is a mark.
unfoldable pub split_size : Text → Option (Text × Text)
split_size [] = none
split_size (c ∷ cs) =
    let rest = split_size cs in
    if is_times c
    then some ([], cs)
    else (elim rest [ none ↦ none | some (left, right) ↦ some (c ∷ left, right) ])

abbrev pub both_sides : Option ℤ → Option ℤ → Option ℤ × Option ℤ
both_sides (some w) (some h) = (some w, some h)
both_sides _ _ = (none, none)

unfoldable pub parse_size : Text → Option ℤ × Option ℤ
unfolding split_size to_int
parse_size t = elim (split_size t) [
  | none ↦ (none, none)
  | some (left, right) ↦ both_sides (to_int left) (to_int right)
]

abbrev pub side_of : Option ℤ → Option ℕ
side_of none = none
side_of (some w) = some (pos_part w)

-- width or w
abbrev pub or_side : Option ℕ → Option ℤ → Option ℕ
or_side none w = side_of w
or_side (some zero) w = side_of w
or_side (some (suc n)) w = some (suc n)

unfoldable pub with_size : Option Text → Option ℕ → Option ℕ → Option ℕ × Option ℕ
unfolding parse_size
with_size none width height = (width, height)
with_size (some []) width height = (width, height)
with_size (some (c ∷ cs)) width height =
    let (w, h) = parse_size (c ∷ cs) in (or_side width w, or_side height h)
