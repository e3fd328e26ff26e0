-- ===== src/Tests/Models.antt =====
-- Prices and the life of a model.
use mm_gateway.Prelude.{◌≡◌, refl, false, none, some, [], ◌∷◌, nat_eq, string_eq}
use mm_gateway.Prelude.Sort.{sort_by, insert_by, lt_key}
use mm_gateway.Models.Limits.{ModelLimits, permissive}
use mm_gateway.Models.Pricing.{
  PriceTier, ModelPrice, Quantity, estimate_cost, priced, rate_for, round_usd, output_cost,
  covering,
}

abbrev small : PriceTier
small = record { max_longest_side = 1280; per_second = 100000000 }

abbrev large : PriceTier
large = record { max_longest_side = 1920; per_second = 250000000 }

-- 0.10 USD a second up to 1280 pixels, 0.25 above.
abbrev price : ModelPrice
price = record {
  per_second = none;
  per_second_tiers = large ∷ small ∷ [];
  per_image = none;
  per_request = none;
  per_character = none;
  per_clone = none;
}

abbrev clip : Quantity
clip = record {
  modality = "video";
  duration_ms = none;
  output_count = none;
  longest_side = some 1920;
  input_characters = none;
  voice_clone = false;
}

-- Five seconds, the default length, for 1.25 USD, in 1e-9 USD.
default_clip : estimate_cost (some price) (permissive "video") clip ≡ some 1250000000
unfolding estimate_cost priced output_cost rate_for sort_by insert_by lt_key covering round_usd
default_clip = refl

abbrev retiring : ModelLimits
retiring = record (permissive "video") { retired_on = some (2026, 3, 1) }
