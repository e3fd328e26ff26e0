-- ===== src/Models/Pricing/Rounding.antt =====
-- The rounding of estimates to six decimals.
use mm_gateway.Prelude.{ℕ, ◌+◌, ◌*◌, ◌≤◌, arith}
use mm_gateway.Models.Pricing.{round_usd}

-- A rounded amount is within half a micro-dollar of the exact one.
pub round_usd-error :
    (x : ℕ) → (round_usd x * 1000 ≤ x + 500000) × (x ≤ round_usd x * 1000 + 500000)
unfolding round_usd
round_usd-error x = ground arith

pub round_usd_mono : (x y : ℕ) → x ≤ y → round_usd x ≤ round_usd y
unfolding round_usd
round_usd_mono x y h = ground arith
