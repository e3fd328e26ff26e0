-- ===== src/Ledger/Period.antt =====
-- The budget periods of mm_gateway/billing.py (`period_window`): UTC calendar days and months, and
-- the lifetime. A period's identifier is kept as the fields that `strftime` prints.
use mm_gateway.Prelude.{
  ℕ, ◌+◌, ◌%◌, String, ◌≡◌, ◌↔◌, Bool, true, false, ◌&&◌, ◌||◌, not, Option, none, some, arith, leb,
  Eq, ◌==◌, nat_eq, string_eq, nat_beq, if◌then◌else◌,
}

-- datetime, in UTC
pub record DateTime : Type 0 where
  pub year : ℕ
  pub month : ℕ
  pub day : ℕ
  pub hour : ℕ
  pub minute : ℕ
  pub second : ℕ
  pub microsecond : ℕ

-- "%Y-%m-%d", "%Y-%m", "total"
pub data PeriodId : Type 0 where
  daily : ℕ → ℕ → ℕ → PeriodId
  monthly : ℕ → ℕ → PeriodId
  total : PeriodId

abbrev pub period_beq : PeriodId → PeriodId → Bool
period_beq (daily y m d) (daily y' m' d') = nat_beq y y' && (nat_beq m m' && nat_beq d d')
period_beq (monthly y m) (monthly y' m') = nat_beq y y' && nat_beq m m'
period_beq total total = true
period_beq _ _ = false

pub period_beq_iff : (p q : PeriodId) → (period_beq p q ≡ true) ↔ (p ≡ q)
period_beq_iff (daily y m d) (daily y' m' d') = ground arith
period_beq_iff (monthly y m) (monthly y' m') = ground arith
period_beq_iff total total = ground arith
period_beq_iff _ _ = ground arith

instance abbrev pub period_eq : Eq PeriodId
period_eq = record { beq = period_beq; beq_iff = period_beq_iff }

-- The calendar of `datetime + timedelta(days=1)`.
is_leap : ℕ → Bool
is_leap y = y % 4 == 0 && (not (y % 100 == 0) || y % 400 == 0)

days_in_month : ℕ → ℕ → ℕ
unfolding is_leap
days_in_month y m =
    if m == 2
    then (if is_leap y then 29 else 28)
    else if m == 4 || (m == 6 || (m == 9 || m == 11))
    then 30
    else 31

midnight : DateTime → DateTime
midnight t = record t { hour = 0; minute = 0; second = 0; microsecond = 0 }

first_of_month : DateTime → DateTime
unfolding midnight
first_of_month t = record (midnight t) { day = 1 }

next_month : DateTime → DateTime
next_month t =
    if t.month == 12
    then record t { year = t.year + 1; month = 1 }
    else record t { month = t.month + 1 }

next_day : DateTime → DateTime
unfolding next_month days_in_month
next_day t =
    if leb (days_in_month t.year t.month) t.day
    then next_month (record t { day = 1 })
    else record t { day = t.day + 1 }

-- The period's identifier, its start and its end (exclusive).
unfoldable pub period_window : String → DateTime → PeriodId × Option DateTime × Option DateTime
unfolding midnight first_of_month next_month next_day
period_window kind now =
    if kind == "day"
    then (daily now.year now.month now.day, some (midnight now), some (next_day (midnight now)))
    else if kind == "month"
    then (
      monthly now.year now.month,
      some (first_of_month now),
      some (next_month (first_of_month now)),
    )
    else (total, none, none)
