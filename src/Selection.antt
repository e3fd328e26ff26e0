-- ===== src/Selection.antt =====
-- mm_gateway/observability/selection.py: outcomes of attempts and the cooldown that keeps a rate-limited
-- candidate out. Times are whole milliseconds of the monotonic clock. The arithmetic of decayed counts
-- (`0.5 ** x`) and of the latency average is floating point, so it is given by parameters; the ring of
-- events is left out, nothing reads it.
pub mod Cooldown
pub mod Health
use mm_gateway.Prelude.{
  ℕ, ◌+◌, ◌-◌, max, zero, String, ◌==◌, Bool, true, false, Option, none, some, List, [], ◌∷◌, ltb,
  nat_eq, string_eq, quadruple_eq, if◌then◌else◌,
}
use mm_gateway.Prelude.Int.{ℤ, pos_part}
use mm_gateway.Prelude.Dict
use mm_gateway.Prelude.Dict.{Dict}

-- (backend, account, model or "", modality)
abbrev pub HealthKey : Type 0
HealthKey = String × String × String × String

pub record Outcome (M : Type 0) : Type 0 where
  pub success_mass : M
  pub failure_mass : M
  pub rate_limited_mass : M
  pub latency_ewma : Option ℕ
  pub cooldown_until : ℕ
  pub last : ℕ

pub record SelectionStore (M : Type 0) : Type 0 where
  pub records : Dict HealthKey (Outcome M)
  pub rate_limit_cooldown : ℕ

pub record Observation : Type 0 where
  pub success : Bool
  pub latency : Option ℕ
  pub rate_limited : Bool
  pub cooldown : Option ℤ

pub data Event : Type 0 where
  observing : HealthKey → Observation → Event
  cooling : HealthKey → Option ℤ → Event
  asking : HealthKey → Event
  configuring : ℤ → Event

module _ {M : Type 0} (no_mass : M) (one_more : M → M) (decayed : ℕ → M → M)
    (blend : ℕ → ℕ → ℕ) where
  abbrev pub new_outcome : ℕ → Outcome M
  new_outcome now = record {
    success_mass = no_mass;
    failure_mass = no_mass;
    rate_limited_mass = no_mass;
    latency_ewma = none;
    cooldown_until = 0;
    last = now;
  }

  -- `_record`
  unfoldable pub record_of : HealthKey → ℕ → SelectionStore M → Outcome M
  record_of c now s = elim (Dict.get c s.records) [ none ↦ new_outcome now | some r ↦ r ]

  -- rec._last or now
  abbrev pub last_or : ℕ → ℕ → ℕ
  last_or zero now = now
  last_or last now = last

  unfoldable pub decay_into : Outcome M → ℕ → Outcome M
  decay_into r now =
      let delta = now - last_or r.last now in
      if ltb 0 delta
      then record r {
        success_mass = decayed delta r.success_mass;
        failure_mass = decayed delta r.failure_mass;
        rate_limited_mass = decayed delta r.rate_limited_mass;
        last = now;
      }
      else record r { last = now }

  abbrev pub window_or : Option ℤ → ℕ → ℕ
  window_or none default = default
  window_or (some w) default = pos_part w

  unfoldable pub arm : Outcome M → ℕ → ℕ → Outcome M
  arm r now window = record r {
    rate_limited_mass = one_more r.rate_limited_mass;
    cooldown_until = max r.cooldown_until (now + window);
  }

  unfoldable pub fold_latency : Outcome M → Option ℕ → Outcome M
  fold_latency r none = r
  fold_latency r (some sample) = record r {
    latency_ewma = elim r.latency_ewma [ none ↦ some sample | some old ↦ some (blend old sample) ];
  }

  unfoldable pub count_outcome : Outcome M → Bool → Outcome M
  count_outcome r true = record r { success_mass = one_more r.success_mass }
  count_outcome r false = record r { failure_mass = one_more r.failure_mass }

  unfoldable pub observed : Outcome M → Observation → ℕ → ℕ → Outcome M
  unfolding arm fold_latency count_outcome
  observed r o now default =
      let counted = count_outcome r o.success in
      fold_latency
        (if o.rate_limited then arm counted now (window_or o.cooldown default) else counted)
        o.latency

  unfoldable pub observe : HealthKey → Observation → ℕ → SelectionStore M → SelectionStore M
  unfolding observed decay_into record_of
  observe c o now s = record s {
    records =
        Dict.put c (observed (decay_into (record_of c now s) now) o now s.rate_limit_cooldown)
          s.records;
  }

  unfoldable pub cooldown : HealthKey → Option ℤ → ℕ → SelectionStore M → SelectionStore M
  unfolding arm decay_into record_of
  cooldown c window now s = record s {
    records =
        Dict.put c
          (arm (decay_into (record_of c now s) now) now (window_or window s.rate_limit_cooldown))
          s.records;
  }

  unfoldable pub is_rate_limited : HealthKey → ℕ → SelectionStore M → SelectionStore M × Bool
  unfolding decay_into
  is_rate_limited c now s = elim (Dict.get c s.records) [
    | none ↦ (s, false)
    | some r ↦
        (record s { records = Dict.put c (decay_into r now) s.records }, ltb now r.cooldown_until)
  ]

  unfoldable pub configure : ℤ → SelectionStore M → SelectionStore M
  configure window s = record s { rate_limit_cooldown = pos_part window }

  unfoldable pub step : Event × ℕ → SelectionStore M → SelectionStore M
  unfolding observe cooldown is_rate_limited configure
  step (observing c o, now) s = observe c o now s
  step (cooling c window, now) s = cooldown c window now s
  step (asking c, now) s = (is_rate_limited c now s).0
  step (configuring window, now) s = configure window s

  unfoldable pub run : List (Event × ℕ) → SelectionStore M → SelectionStore M
  unfolding step
  run [] s = s
  run (e ∷ es) s = run es (step e s)
