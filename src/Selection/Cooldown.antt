-- ===== src/Selection/Cooldown.antt =====
-- How long the cooldown of mm_gateway/observability/selection.py keeps a candidate out.
use mm_gateway.Prelude.{
  ℕ, ◌+◌, ◌≤◌, ◌<◌, max, ◌≡◌, refl, true, false, none, some, List, [], ◌∷◌, arith, ltb, nat_eq,
  string_eq, quadruple_eq, Option-cases, inl, inr, ==_refl, ==_iff, if◌then◌else◌, sym, ◌∙◌, ◌≢◌,
  ◌==◌,
}
use native.Mathlib.Nat.{le_refl, le_trans, le_of_eq}
use mm_gateway.Prelude.Dict.{get, put, get-put}
use mm_gateway.Selection.{
  HealthKey, Outcome, SelectionStore, Observation, Event, observing, cooling, asking, configuring,
  record_of, decay_into, window_or, arm, observed, observe, cooldown, is_rate_limited, configure,
  step, run, fold_latency, count_outcome,
}

module _ {M : Type 0} (no_mass : M) (one_more : M → M) (decayed : ℕ → M → M)
    (blend : ℕ → ℕ → ℕ) where
  -- Until when a candidate is kept out.
  unfoldable pub until : HealthKey → SelectionStore M → ℕ
  until c s = elim (get c s.records) [ none ↦ 0 | some r ↦ r.cooldown_until ]

  decay_into-until :
      (r : Outcome M) (now : ℕ)
      → (decay_into no_mass one_more decayed blend r now).cooldown_until ≡ r.cooldown_until
  unfolding decay_into
  decay_into-until r now = ground arith

  found-until :
      (c : HealthKey) (r : Outcome M) (s : SelectionStore M)
      → get c s.records ≡ some r
      → until c s ≡ r.cooldown_until
  unfolding until
  found-until c r s found = ground arith

  absent-until : (c : HealthKey) (s : SelectionStore M) → get c s.records ≡ none → until c s ≡ 0
  unfolding until
  absent-until c s gone = ground arith

  put-until :
      (c d : HealthKey) (r : Outcome M) (s : SelectionStore M)
      → until c (record s { records = put d r s.records })
        ≡ (if d == c then r.cooldown_until else until c s)
  unfolding until
  put-until c d r s = ground (arith, get-put d c r s.records)

  record_of-until :
      (d : HealthKey) (now : ℕ) (s : SelectionStore M)
      → (record_of no_mass one_more decayed blend d now s).cooldown_until ≡ until d s
  unfolding record_of until
  record_of-until d now s = ground arith

  observed-until :
      (r : Outcome M) (o : Observation) (now w : ℕ)
      → (observed no_mass one_more decayed blend r o now w).cooldown_until ≡ (
          if o.rate_limited
          then max r.cooldown_until (now + window_or no_mass one_more decayed blend o.cooldown w)
          else r.cooldown_until)
  unfolding observed arm fold_latency count_outcome
  observed-until r o now w = ground arith

  arm-until :
      (r : Outcome M) (now w : ℕ)
      → (arm no_mass one_more decayed blend r now w).cooldown_until ≡ max r.cooldown_until (now + w)
  unfolding arm
  arm-until r now w = refl

  asked :
      (c d : HealthKey) (now : ℕ) (s : SelectionStore M)
      → until c (is_rate_limited no_mass one_more decayed blend d now s).0 ≡ until c s
  unfolding is_rate_limited
  asked c d now s = elim (Option-cases (get d s.records)) [
    | inl gone ↦ ground arith
    | inr (r, found) ↦ ground (
      arith,
      put-until c d (decay_into no_mass one_more decayed blend r now) s,
      decay_into-until r now,
      found-until d r s found,
      ==_iff d c,
    )
  ]

  until-step :
      (c : HealthKey) (e : Event × ℕ) (s : SelectionStore M)
      → until c s ≤ until c (step no_mass one_more decayed blend e s)
  unfolding step observe cooldown is_rate_limited configure
  until-step c (observing d o, now) s =
      let r = record_of no_mass one_more decayed blend d now s in
      let r' = decay_into no_mass one_more decayed blend r now in
      ground (
        arith,
        put-until c d (observed no_mass one_more decayed blend r' o now s.rate_limit_cooldown) s,
        observed-until r' o now s.rate_limit_cooldown,
        decay_into-until r now,
        record_of-until d now s,
        ==_iff d c,
      )
  until-step c (cooling d w, now) s =
      let r = record_of no_mass one_more decayed blend d now s in
      let r' = decay_into no_mass one_more decayed blend r now in
      let window = window_or no_mass one_more decayed blend w s.rate_limit_cooldown in
      ground (
        arith,
        put-until c d (arm no_mass one_more decayed blend r' now window) s,
        arm-until r' now window,
        decay_into-until r now,
        record_of-until d now s,
        ==_iff d c,
      )
  until-step c (asking d, now) s = le_of_eq (sym (asked c d now s))
  until-step c (configuring w, now) s = unfold until in le_refl _

  until-run :
      (c : HealthKey) (es : List (Event × ℕ)) (s : SelectionStore M)
      → until c s ≤ until c (run no_mass one_more decayed blend es s)
  unfolding run
  until-run c [] s = le_refl _
  until-run c (e ∷ es) s =
      le_trans (until-step c e s) (until-run c es (step no_mass one_more decayed blend e s))

  gate :
      (c : HealthKey) (now : ℕ) (s : SelectionStore M)
      → (is_rate_limited no_mass one_more decayed blend c now s).1 ≡ ltb now (until c s)
  unfolding is_rate_limited until
  gate c now s = ground arith

  -- After a rate-limited attempt, its candidate is reported as rate-limited until the window of its
  -- cooldown is over, whatever is observed, cooled down, asked or configured meanwhile.
  pub limited_until :
      (c : HealthKey) (o : Observation) (now later : ℕ) (es : List (Event × ℕ))
      (s : SelectionStore M)
      → o.rate_limited ≡ true
      → later < now + window_or no_mass one_more decayed blend o.cooldown s.rate_limit_cooldown
      → (is_rate_limited no_mass one_more decayed blend c later (
          run no_mass one_more decayed blend es
            (observe no_mass one_more decayed blend c o now s))).1
        ≡ true
  unfolding observe
  limited_until c o now later es s limited soon =
      let r = record_of no_mass one_more decayed blend c now s in
      let r' = decay_into no_mass one_more decayed blend r now in
      let s' = observe no_mass one_more decayed blend c o now s in
      ground (
        arith,
        gate c later (run no_mass one_more decayed blend es s'),
        until-run c es s',
        put-until c c (observed no_mass one_more decayed blend r' o now s.rate_limit_cooldown) s,
        observed-until r' o now s.rate_limit_cooldown,
        ==_refl c,
      )

  -- The events that can start a cooldown for a candidate.
  abbrev pub NeverLimits : HealthKey → List (Event × ℕ) → Type 0
  NeverLimits c [] = Unit
  NeverLimits c ((observing d o, now) ∷ es) = (d ≡ c → o.rate_limited ≡ false) × NeverLimits c es
  NeverLimits c ((cooling d w, now) ∷ es) = (d ≢ c) × NeverLimits c es
  NeverLimits c ((asking d, now) ∷ es) = NeverLimits c es
  NeverLimits c ((configuring w, now) ∷ es) = NeverLimits c es

  stays :
      (c : HealthKey) (es : List (Event × ℕ)) (s : SelectionStore M)
      → NeverLimits c es
      → until c (run no_mass one_more decayed blend es s) ≡ until c s
  unfolding run step observe cooldown is_rate_limited configure
  stays c [] s h = refl
  stays c ((observing d o, now) ∷ es) s (h, hs) =
      let r = record_of no_mass one_more decayed blend d now s in
      let r' = decay_into no_mass one_more decayed blend r now in
      stays c es (observe no_mass one_more decayed blend d o now s) hs
      ∙ ground (
        arith,
        put-until c d (observed no_mass one_more decayed blend r' o now s.rate_limit_cooldown) s,
        observed-until r' o now s.rate_limit_cooldown,
        decay_into-until r now,
        record_of-until d now s,
        ==_iff d c,
      )
  stays c ((cooling d w, now) ∷ es) s (h, hs) =
      let r = record_of no_mass one_more decayed blend d now s in
      let r' = decay_into no_mass one_more decayed blend r now in
      let window = window_or no_mass one_more decayed blend w s.rate_limit_cooldown in
      stays c es (cooldown no_mass one_more decayed blend d w now s) hs
      ∙ ground
          (arith, put-until c d (arm no_mass one_more decayed blend r' now window) s, ==_iff d c)
  stays c ((asking d, now) ∷ es) s hs =
      stays c es (is_rate_limited no_mass one_more decayed blend d now s).0 hs ∙ asked c d now s
  stays c ((configuring w, now) ∷ es) s hs =
      stays c es (configure no_mass one_more decayed blend w s) hs ∙ (unfold until in refl)

  -- A candidate without a record, for which no rate limit is observed and no cooldown is asked, is
  -- never reported as rate-limited, whatever happens to the others.
  pub never_limited :
      (c : HealthKey) (es : List (Event × ℕ)) (s : SelectionStore M) (now : ℕ)
      → get c s.records ≡ none
      → NeverLimits c es
      → (is_rate_limited no_mass one_more decayed blend c now
          (run no_mass one_more decayed blend es s)).1
        ≡ false
  never_limited c es s now fresh h = ground (
    arith,
    gate c now (run no_mass one_more decayed blend es s),
    stays c es s h,
    absent-until c s fresh,
  )
