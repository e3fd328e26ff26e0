-- ===== src/Models/Pricing/Estimate.antt =====
-- When an estimate exists, and how it moves with the length of the output.
use native.Mathlib.Nat.{mul-le-mul, le_refl, le_of_eq}
use mm_gateway.Prelude.{
  ℕ, ◌+◌, ◌*◌, ◌≤◌, ◌<◌, ◌≡◌, ◌↔◌, true, false, Option, none, some, arith, ◌==◌, nat_eq, string_eq,
  eq_iff, refl, Bool-cases, inl, inr,
}
use mm_gateway.Models.Limits.{ModelLimits}
use mm_gateway.Models.Pricing.{
  ModelPrice, Quantity, priced, rate_for, estimate_cost, round_usd, seconds, outputs, pieces,
  output_cost,
}
use mm_gateway.Models.Pricing.Rounding.{round_usd_mono}

-- Outside audio, a model has an estimate exactly when it is priced at all.
estimate_exists :
    (p : ModelPrice) (limits : ModelLimits) (q : Quantity)
    → (q.modality == "audio") ≡ false
    → (estimate_cost (some p) limits q ≡ none) ↔ (priced p ≡ false)
unfolding estimate_cost
estimate_exists p limits q other = ground arith

-- A voice clone is priced by the clone price alone: no other rate of the model enters.
pub estimate_clone :
    (p : ModelPrice) (limits : ModelLimits) (q : Quantity)
    → q.modality ≡ "audio"
    → q.voice_clone ≡ true
    → estimate_cost (some p) limits q
      ≡ (elim p.per_clone [ none ↦ none | some price ↦ some (round_usd (price * 1000)) ])
unfolding estimate_cost priced
estimate_clone p limits q audio clone = ground (arith, eq_iff q.modality "audio")

seconds_mono : (rate : Option ℕ) (n ms ms' : ℕ) → ms ≤ ms' → seconds rate ms n ≤ seconds rate ms' n
seconds_mono none n ms ms' h = omega arith
seconds_mono (some r) n ms ms' h = mul-le-mul (mul-le-mul (le_refl r) h) (le_refl n)

output_cost_mono :
    (p : ModelPrice) (limits : ModelLimits) (q : Quantity) (ms ms' : ℕ)
    → 0 < ms
    → ms ≤ ms'
    → output_cost p limits (record q { duration_ms = some ms })
      ≤ output_cost p limits (record q { duration_ms = some ms' })
unfolding output_cost
output_cost_mono p limits q ms ms' positive h = ground (
  arith,
  seconds_mono (rate_for p q.longest_side) (outputs q.output_count) ms ms' h,
  seconds_mono p.per_second (outputs q.output_count) ms ms' h,
)

media_estimate :
    (p : ModelPrice) (limits : ModelLimits) (q : Quantity)
    → (q.modality == "audio") ≡ false
    → priced p ≡ true
    → estimate_cost (some p) limits q
      ≡ some (round_usd (pieces p.per_request 1 + output_cost p limits q))
unfolding estimate_cost
media_estimate p limits q other has = rw (has, other) refl

unpriced_estimate :
    (p : ModelPrice) (limits : ModelLimits) (q : Quantity)
    → priced p ≡ false
    → estimate_cost (some p) limits q ≡ none
unfolding estimate_cost
unpriced_estimate p limits q bare = rw bare refl

speech_estimate :
    (p : ModelPrice) (limits : ModelLimits) (q : Quantity) (d d' : Option ℕ)
    → (q.modality == "audio") ≡ true
    → estimate_cost (some p) limits (record q { duration_ms = d })
      ≡ estimate_cost (some p) limits (record q { duration_ms = d' })
unfolding estimate_cost
speech_estimate p limits q d d' audio = rw audio refl

-- Of two requests that differ in their stated length alone, neither of them empty, the longer is
-- not cheaper.
pub longer_costs_more :
    (price : Option ModelPrice) (limits : ModelLimits) (q : Quantity) (ms ms' : ℕ) {e e' : ℕ}
    → 0 < ms
    → ms ≤ ms'
    → estimate_cost price limits (record q { duration_ms = some ms }) ≡ some e
    → estimate_cost price limits (record q { duration_ms = some ms' }) ≡ some e'
    → e ≤ e'
longer_costs_more none limits q ms ms' positive h p p' = absurd (unfold estimate_cost in cc p)
longer_costs_more (some price) limits q ms ms' {e} {e'} positive h p p' =
    elim (Bool-cases (q.modality == "audio")) [
      | inl audio ↦
          let same = speech_estimate price limits q (some ms) (some ms') audio in
          let equal : e ≡ e' = cc same in le_of_eq equal
      | inr other ↦ elim (Bool-cases (priced price)) [
        | inl has ↦
            let base = pieces price.per_request 1 in
            let short = record q { duration_ms = some ms } in
            let long = record q { duration_ms = some ms' } in
            ground (
              arith,
              media_estimate price limits short other has,
              media_estimate price limits long other has,
              round_usd_mono (base + output_cost price limits short)
                  (base + output_cost price limits long),
              output_cost_mono price limits q ms ms' positive h,
            )
        | inr bare ↦
            absurd (cc (unpriced_estimate price limits (record q { duration_ms = some ms }) bare))
      ]
    ]
