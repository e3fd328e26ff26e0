-- ===== src/Selection/Health.antt =====
-- `health`, `score`, `snapshot` and `clear` of mm_gateway/observability/selection.py. A rate is a whole number
-- of millionths, rounded down, a score of ten-millionths, a latency of milliseconds. What a mass amounts to,
-- in millionths of an attempt, is given by a parameter, as the masses themselves are. Subtraction that
-- stops at 0 is the code's `max(0.0, …)`.
use mm_gateway.Prelude.{
  ℕ, ◌+◌, ◌-◌, ◌*◌, ◌/◌, ◌==◌, ◌≤◌, ◌<◌, min, ◌≡◌, ◌∙◌, ap, Bool, true, false, Option, none, some,
  List, [], ◌∷◌, ltb, arith, nat_eq, string_eq, quadruple_eq, if◌then◌else◌,
}
use native.Mathlib.Nat.{div-mul-le_self, lt-div-mul-add, div-lt_iff_lt-mul, mul-le-mul_right}
use mm_gateway.Prelude.Dict
use mm_gateway.Models.Pricing.{round_usd}
use mm_gateway.Prelude.Dict.{Dict}
use mm_gateway.Selection.{
  HealthKey, Outcome, SelectionStore, Observation, Event, decay_into, is_rate_limited, observe, run,
  window_or,
}
use mm_gateway.Selection.Cooldown.{limited_until}

pub record HealthReport : Type 0 where
  pub success_rate : Option ℕ
  pub latency_ms : Option ℕ
  pub rate_limited : Bool
  pub attempts : ℕ

abbrev pub untried : HealthReport
untried = record { success_rate = none; latency_ms = none; rate_limited = false; attempts = 0 }

-- max(0.0, 1.0 - min(1.0, latency / 10.0))
abbrev pub latency_share : Option ℕ → ℕ
latency_share none = 1000000
latency_share (some ms) = 1000000 - min 1000000 (ms * 100)

-- 0.7 * success_rate + 0.3 * latency_share
unfoldable pub score_of : HealthReport → ℕ
score_of h = if h.rate_limited then 0 else (elim h.success_rate [
  | none ↦ 5000000
  | some rate ↦ 7 * rate + 3 * latency_share h.latency_ms
])

-- success_mass / total, None without any mass
abbrev pub success_share : ℕ → ℕ → Option ℕ
success_share good bad = if good + bad == 0 then none else some ((good * 1000000) / (good + bad))

-- int(round(x)) of millionths, ties to even
abbrev pub whole : ℕ → ℕ
whole x = round_usd x / 1000

-- A score keeps to a share of successes: it is at least seven tenths of the share, up to a millionth, and at
-- most three tenths more, and never above 1.
abbrev pub IsNearShare : ℕ → ℕ → ℕ → Type 0
IsNearShare good bad score =
    (7000000 * good ≤ (score + 7) * (good + bad))
    × (score * (good + bad) ≤ 10000000 * good + 3000000 * bad)
    × (score ≤ 10000000)

latency_share-le : (latency : Option ℕ) → latency_share latency ≤ 1000000
latency_share-le none = omega arith
latency_share-le (some ms) = omega arith

near_share :
    (good bad lat : ℕ)
    → 0 < good + bad
    → lat ≤ 1000000
    → IsNearShare good bad (7 * ((good * 1000000) / (good + bad)) + 3 * lat)
near_share good bad lat some_mass short =
    let share = (good * 1000000) / (good + bad) in
    let low : share * (good + bad) ≤ good * 1000000 =
      div-mul-le_self (good * 1000000) (good + bad) in
    let high : good * 1000000 < share * (good + bad) + (good + bad) = lt-div-mul-add some_mass in
    let timed : lat * (good + bad) ≤ 1000000 * (good + bad) = mul-le-mul_right (good + bad) short in
    let at_most_one : share < 1000001 =
      (div-lt_iff_lt-mul {y = 1000001} some_mass).1 (omega (arith, some_mass)) in
    (omega (arith, low, high, timed), omega (arith, low, timed), omega (arith, at_most_one, short))

module _ {M : Type 0} (no_mass : M) (one_more : M → M) (decayed : ℕ → M → M) (blend : ℕ → ℕ → ℕ)
    (amount : M → ℕ) where
  -- The report of a record whose masses have been folded forward.
  unfoldable pub report : Outcome M → ℕ → HealthReport
  report r now = record {
    success_rate =
        if ltb now r.cooldown_until
        then some 0
        else success_share (amount r.success_mass) (amount r.failure_mass);
    latency_ms = r.latency_ewma;
    rate_limited = ltb now r.cooldown_until;
    attempts = whole (amount r.success_mass + amount r.failure_mass);
  }

  unfoldable pub health : HealthKey → ℕ → SelectionStore M → SelectionStore M × HealthReport
  unfolding decay_into report
  health c now s = elim (Dict.get c s.records) [
    | none ↦ (s, untried)
    | some r ↦
        let folded = decay_into no_mass one_more decayed blend r now in
        (record s { records = Dict.put c folded s.records }, report folded now)
  ]

  unfoldable pub health_score : HealthKey → ℕ → SelectionStore M → SelectionStore M × ℕ
  unfolding health score_of
  health_score c now s = let (s', h) = health c now s in (s', score_of h)

  -- Every record is folded forward and reported, with what is left of its cooldown.
  unfoldable pub snapshot_of :
      ℕ
      → Dict HealthKey (Outcome M)
      → Dict HealthKey (Outcome M) × List (HealthKey × HealthReport × ℕ)
  unfolding decay_into report
  snapshot_of now [] = ([], [])
  snapshot_of now ((c, r) ∷ d) =
      let folded = decay_into no_mass one_more decayed blend r now in
      let (d', reports) = snapshot_of now d in
      ((c, folded) ∷ d', (c, report folded now, r.cooldown_until - now) ∷ reports)

  unfoldable pub snapshot :
      ℕ → SelectionStore M → SelectionStore M × List (HealthKey × HealthReport × ℕ)
  unfolding snapshot_of
  snapshot now s =
      let (records, reports) = snapshot_of now s.records in
      (record s { records = records }, reports)

  unfoldable pub clear : SelectionStore M → SelectionStore M
  clear s = record s { records = [] }

  -- Asking for the health asks for the cooldown: the same answer and the same effect on the store.
  pub health-is_rate_limited :
      (c : HealthKey) (now : ℕ) (s : SelectionStore M)
      → ((health c now s).0, (health c now s).1.rate_limited)
        ≡ is_rate_limited no_mass one_more decayed blend c now s
  unfolding health is_rate_limited report decay_into
  health-is_rate_limited c now s = ground arith

  score_of_limited : (h : HealthReport) → h.rate_limited ≡ true → score_of h ≡ 0
  unfolding score_of
  score_of_limited h limited = ground arith

  -- After a rate-limited attempt, its candidate has the health score 0 until the window of its
  -- cooldown is over, whatever is observed, cooled down, asked or configured meanwhile.
  pub score_limited :
      (c : HealthKey) (o : Observation) (now later : ℕ) (es : List (Event × ℕ))
      (s : SelectionStore M)
      → o.rate_limited ≡ true
      → later < now + window_or no_mass one_more decayed blend o.cooldown s.rate_limit_cooldown
      → (health_score c later (
          run no_mass one_more decayed blend es
            (observe no_mass one_more decayed blend c o now s))).1
        ≡ 0
  unfolding health_score
  score_limited c o now later es s limited soon =
      let s' =
        run no_mass one_more decayed blend es (observe no_mass one_more decayed blend c o now s) in
      score_of_limited (health c later s').1 (
        ap (λ (r : SelectionStore M × Bool). r.1) (health-is_rate_limited c later s')
        ∙ limited_until no_mass one_more decayed blend c o now later es s limited soon)

  -- The health score of a candidate that was tried and is not cooling down keeps to its share of
  -- successes: it is at least seven tenths of the share (up to a millionth of the share, for
  -- rounding), at most seven tenths of it and three tenths more, and never above 1.
  pub score_bounded :
      (c : HealthKey) (now : ℕ) (s : SelectionStore M) (r : Outcome M)
      → Dict.get c s.records ≡ some r
      → r.cooldown_until ≤ now
      → 0
        < amount (decay_into no_mass one_more decayed blend r now).success_mass
          + amount (decay_into no_mass one_more decayed blend r now).failure_mass
      → IsNearShare
          (amount (decay_into no_mass one_more decayed blend r now).success_mass)
          (amount (decay_into no_mass one_more decayed blend r now).failure_mass)
          (health_score c now s).1
  unfolding health_score health report score_of
  score_bounded c now s r found free tried =
      let folded = decay_into no_mass one_more decayed blend r now in
      let near =
        near_share (amount folded.success_mass) (amount folded.failure_mass)
          (latency_share folded.latency_ewma) tried (latency_share-le folded.latency_ewma) in
      ground arith
