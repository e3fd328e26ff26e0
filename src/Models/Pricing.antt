-- ===== src/Models/Pricing.antt =====
-- mm_gateway/models/pricing.py: prices and the estimate of a task's cost.
-- Prices are whole multiples of 1e-9 USD and durations whole milliseconds, so a product of the two is
-- exact in 1e-12 USD, the unit of `total`; `round(total, 6)` is exact too, ties to even.
pub mod Rounding
pub mod Estimate
pub mod Tiers
use mm_gateway.Prelude.{
  ℕ, ◌+◌, ◌*◌, ◌/◌, ◌%◌, ◌≤◌, max, String, ◌≡◌, ◌≢◌, refl, Bool, true, false, ◌&&◌, ◌||◌, Option,
  none, some, List, [], ◌∷◌, arith, ltb, leb, ◌==◌, nat_eq, string_eq, is_some, if◌then◌else◌,
}
use mm_gateway.Prelude.Int.{pos}
use mm_gateway.Prelude.Sort.{sort_by, Key}
use mm_gateway.Models.Limits.{ModelLimits}

pub record PriceTier : Type 0 where
  pub max_longest_side : ℕ
  pub per_second : ℕ

pub record ModelPrice : Type 0 where
  pub per_second : Option ℕ
  pub per_second_tiers : List PriceTier
  pub per_image : Option ℕ
  pub per_request : Option ℕ
  pub per_character : Option ℕ
  pub per_clone : Option ℕ

abbrev pub default_video_ms : ℕ
default_video_ms = 5000

abbrev pub default_music_ms : ℕ
default_music_ms = 30000

abbrev is_empty {ℓ} : {A : Type ℓ} → List A → Bool
is_empty [] = true
is_empty (x ∷ xs) = false

unfoldable pub priced : ModelPrice → Bool
priced p =
    is_some p.per_second
    || (is_some p.per_image
        || (is_some p.per_request
            || (is_some p.per_character
                || (is_some p.per_clone || (if is_empty p.per_second_tiers then false else true)))))

abbrev pub tier_key : PriceTier → Key
tier_key t = pos t.max_longest_side ∷ []

-- The first tier that covers the side, else the last one; `t` is the tier before the rest.
unfoldable pub covering : ℕ → PriceTier → List PriceTier → ℕ
covering side t [] = t.per_second
covering side t (u ∷ rest) =
    let later = covering side u rest in if leb side t.max_longest_side then t.per_second else later

tier_rate : Option ℕ → Option ℕ → List PriceTier → Option ℕ
tier_rate flat side [] = flat
tier_rate flat none (t ∷ rest) = some t.per_second
tier_rate flat (some side) (t ∷ rest) = some (covering side t rest)

-- The per-second rate for an output whose longest side is given.
unfoldable pub rate_for : ModelPrice → Option ℕ → Option ℕ
unfolding tier_rate covering
rate_for p side = tier_rate p.per_second side (sort_by tier_key p.per_second_tiers)

-- round(x, 6) of an amount in 1e-12 USD, as an amount in 1e-9 USD
unfoldable pub round_usd : ℕ → ℕ
round_usd x =
    let q = x / 1000000 in
    let r = x % 1000000 in
    if ltb r 500000
    then q * 1000
    else if ltb 500000 r
    then (q + 1) * 1000
    else if q % 2 == 0
    then q * 1000
    else (q + 1) * 1000

-- x or y
abbrev pub or_default : Option ℕ → ℕ → ℕ
or_default none d = d
or_default (some n) d = if n == 0 then d else n

-- max(1, output_count or 1)
abbrev pub outputs : Option ℕ → ℕ
outputs n = max 1 (or_default n 1)

-- In 1e-12 USD: a price per piece, and a price per second over milliseconds.
abbrev pub pieces : Option ℕ → ℕ → ℕ
pieces none n = 0
pieces (some price) n = price * n * 1000

abbrev pub seconds : Option ℕ → ℕ → ℕ → ℕ
seconds none ms n = 0
seconds (some rate) ms n = rate * ms * n

pub record Quantity : Type 0 where
  pub modality : String
  pub duration_ms : Option ℕ
  pub output_count : Option ℕ
  pub longest_side : Option ℕ
  pub input_characters : Option ℕ
  pub voice_clone : Bool

unfoldable pub speech_cost : ModelPrice → Quantity → ℕ → Option ℕ
speech_cost p q total =
    if q.voice_clone
    then elim p.per_clone [ none ↦ none | some price ↦ some (round_usd (price * 1000)) ]
    else elim p.per_character [
      | none ↦ if is_some p.per_request then some (round_usd total) else none
      | some price ↦ elim q.input_characters [
        | none ↦ none
        | some n ↦ some (round_usd (total + price * n * 1000))
      ]
    ]

-- The part of the cost that depends on the size of the output.
unfoldable pub output_cost : ModelPrice → ModelLimits → Quantity → ℕ
output_cost p limits q =
    if q.modality == "image"
    then pieces p.per_image (outputs q.output_count)
    else if q.modality == "video"
    then seconds (rate_for p q.longest_side)
        (or_default q.duration_ms (or_default limits.min_duration_ms default_video_ms))
        (outputs q.output_count)
    else seconds p.per_second (or_default q.duration_ms default_music_ms) (outputs q.output_count)

unfoldable pub estimate_cost : Option ModelPrice → ModelLimits → Quantity → Option ℕ
unfolding speech_cost output_cost
estimate_cost none limits q = none
estimate_cost (some p) limits q =
    let total = pieces p.per_request 1 in
    if priced p
    then if q.modality == "audio"
      then speech_cost p q total
      else some (round_usd (total + output_cost p limits q))
    else none
