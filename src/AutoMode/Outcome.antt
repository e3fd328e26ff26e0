-- ===== src/AutoMode/Outcome.antt =====
-- One candidate of `execute_plan`: what its attempt leaves in the ledger.
use mm_gateway.Prelude.{
  ℕ, ◌+◌, String, ◌≡◌, refl, Option, none, some, arith, nat_eq, string_eq, triple_eq, inl, inr,
  is_some, ◌∙◌, ◌⊎◌, subst, Bool,
}
use mm_gateway.Prelude.Dict.{get}
use mm_gateway.Ledger.{
  Hold, Token, DateTime, CostLedger, KeyConfig, bind, Order, HoldResult, held, rejected, hold,
  reservation, new_hold, held_value, period_of, BudgetRejection,
}
use mm_gateway.Ledger.WellFormed.{IsWellFormed, hold-IsWellFormed, check-SameTables}
use mm_gateway.Ledger.Committed.{
  Account, committed, share_of, checks, committed-hold_refused, committed-bind,
}
use mm_gateway.AutoMode.{
  Candidate, RoutePlan, Attempted, Answer, returned, raised, cancelled, aborted, Ending,
  on_terminal, accept, end_task, Tried, refused, failed, created, order_of, token_of, accepted_or,
  under_hold, try_candidate,
}
use mm_gateway.AutoMode.Errors.{Failure}
use mm_gateway.AutoMode.Attempt.{
  Granted, hold-Granted, hold-refused, Unchanged, release-Granted, release_bound, reservation_bound,
  share_of-task, bind-found, entry_bound, Granted-bind-IsWellFormed,
}
use mm_gateway.AutoMode.Settlement.{charged, committed-on_terminal}
use mm_gateway.Prelude.Int.{ℤ}

pub Unchanged-trans : {l m n : CostLedger} → Unchanged l m → Unchanged m n → Unchanged l n
Unchanged-trans f g = record {
  well_formed = g.well_formed;
  committed = λ id a. g.committed id a ∙ f.committed id a;
  unused = λ t h. g.unused t (f.unused t h);
}

pub Unchanged-refl : {l : CostLedger} → IsWellFormed l → Unchanged l l
Unchanged-refl w = record { well_formed = w; committed = λ id a. refl; unused = λ t h. h }

pub data TriedCase (t : Tried) : Type 0 where
  refusing : (r : BudgetRejection) → t ≡ refused r → TriedCase t
  failing : (x : Failure) → t ≡ failed x → TriedCase t
  creating : (task : String) → t ≡ created task → TriedCase t
  aborting : t ≡ aborted → TriedCase t

pub Tried-cases : (t : Tried) → TriedCase t
Tried-cases (refused r) = refusing r refl
Tried-cases (failed x) = failing x refl
Tried-cases (created task) = creating task refl
Tried-cases aborted = aborting refl

HoldResult-cases :
    (x : HoldResult) → ((r : BudgetRejection) × (x ≡ rejected r)) ⊎ ((h : ℕ) × (x ≡ held h))
HoldResult-cases (rejected r) = inl (r, refl)
HoldResult-cases (held h) = inr (h, refl)

hold-by_task :
    (o : Order) (checked held_at : DateTime) (l : CostLedger)
    → (hold o checked held_at l).0.by_task ≡ (checks o checked l).0.by_task
unfolding hold
hold-by_task o checked held_at l = ground arith

hold_refused-unused :
    (o : Order) (checked held_at : DateTime) (l : CostLedger) (r : BudgetRejection)
    → (hold o checked held_at l).1 ≡ rejected r
    → (t : Token) → get t l.by_task ≡ none
    → get t (hold o checked held_at l).0.by_task ≡ none
hold_refused-unused o checked held_at l r e t h =
    let same = check-SameTables o.key o.scope o.client_limit (held_value o.amount) checked l in
    rw (hold-by_task o checked held_at l) (rw same.by_task h)

module _ (attempt : Candidate → ℕ → Attempted) (checked_at held_at : ℕ → DateTime)
    (plan : RoutePlan) (key : Option KeyConfig) where
  -- What an attempt keeps to: the task that it hands to `accept` is new to the ledger, and a task that
  -- has ended by the time it is returned was handed over first.
  abbrev pub IsFresh : Candidate → ℕ → CostLedger → Type 0
  IsFresh c i l =
      ((task : String)
        → (attempt c i).accepts ≡ some task
        → get (token_of plan c task) l.by_task ≡ none)
      × ((task : String) (how : Bool × Option ℤ)
          → (attempt c i).answer ≡ returned task (some how)
          → (attempt c i).accepts ≡ some task)

  abbrev pub hold_of : Candidate → ℕ → Hold
  hold_of c i = new_hold (order_of plan key c) (period_of key (held_at i))

  -- The ledger is as before, but for an amount more in every budget that the attempt's hold belongs to.
  abbrev pub Adds : Candidate → ℕ → ℕ → CostLedger → CostLedger → Type 0
  Adds c i amount l m =
      (id : String) (a : Account)
      → committed id a m
        ≡ committed id a l + share_of id a (record (hold_of c i) { amount = amount })

  -- What the task of a served request leaves: if it goes on, its estimate, which is its reservation; if it
  -- has ended, what it is charged.
  abbrev pub AfterTask : Candidate → ℕ → String → Ending → CostLedger → CostLedger → Type 0
  AfterTask c i task none l m =
      Adds c i (held_value (order_of plan key c).amount) l m
      × (reservation (token_of plan c (accepted_or (attempt c i).accepts task)) m
          ≡ some (held_value (order_of plan key c).amount, is_some (order_of plan key c).amount))
  AfterTask c i task (some (succeeded, cost)) l m =
      Adds c i (charged (hold_of c i) succeeded cost) l m

  pub record Served (c : Candidate) (task : String) (l m : CostLedger) : Type 0 where
    pub index : ℕ
    pub ending : Ending
    pub answered : (attempt c index).answer ≡ returned task ending
    pub after : AfterTask c index task ending l m

  -- What a cancelled request leaves: the estimate of the candidate that it was trying.
  pub record Leaked (c : Candidate) (l m : CostLedger) : Type 0 where
    pub index : ℕ
    pub was_cancelled : (attempt c index).answer ≡ cancelled
    pub committed : Adds c index (held_value (order_of plan key c).amount) l m

  -- The ledger after one candidate.
  abbrev pub AfterTry : Candidate → Tried → CostLedger → CostLedger → Type 0
  AfterTry c (created task) l m = Served c task l m
  AfterTry c aborted l m = Leaked c l m
  AfterTry c _ l m = Unchanged l m

  ended_inside :
      (c : Candidate) (i h : ℕ) (task : String) (succeeded : Bool) (cost : Option ℤ)
      {l m : CostLedger}
      → Granted (order_of plan key c) (held_at i) h l m
      → get (token_of plan c task) l.by_task ≡ none
      → Adds c i
          (charged (hold_of c i) succeeded cost)
          l
          (on_terminal (token_of plan c task) succeeded cost (bind h (token_of plan c task) m))
  ended_inside c i h task succeeded cost {l} {m} g fresh id a =
      let o = order_of plan key c in
      let t = token_of plan c task in
      let bound : Hold = record (hold_of c i) { task = some t } in
      let settled =
        committed-on_terminal t (bind h t m) h bound succeeded cost
          (Granted-bind-IsWellFormed o (held_at i) h t g fresh) (entry_bound o (held_at i) h t g)
          (bind-found h t (hold_of c i) m g.found) id a in
      omega (
        arith,
        settled,
        committed-bind id a h t m,
        g.committed id a,
        share_of-task id a (hold_of c i) (some t),
        share_of-task id a (record (hold_of c i) { amount = charged (hold_of c i) succeeded cost })
            (some t),
      )

  goes_on :
      (c : Candidate) (i h : ℕ) (o : Option String) (task : String) {l m : CostLedger}
      → Granted (order_of plan key c) (held_at i) h l m
      → (attempt c i).accepts ≡ o
      → (attempt c i).answer ≡ returned task none
      → Served c task l (bind h (token_of plan c (accepted_or o task)) m)
  goes_on c i h o task {l} {m} g accepts answers = record {
    index = i;
    ending = none;
    answered = answers;
    after = (
      (λ id a. committed-bind id a h (token_of plan c (accepted_or o task)) m ∙ g.committed id a),
      rw accepts (
          reservation_bound (order_of plan key c) (held_at i) h
            (token_of plan c (accepted_or o task)) g),
    );
  }

  has_ended :
      (c : Candidate) (i h : ℕ) (task : String) (succeeded : Bool) (cost : Option ℤ)
      {l m : CostLedger}
      → Granted (order_of plan key c) (held_at i) h l m
      → IsFresh c i l
      → (attempt c i).accepts ≡ some task
      → (attempt c i).answer ≡ returned task (some (succeeded, cost))
      → Served c task l
          (on_terminal (token_of plan c task) succeeded cost (bind h (token_of plan c task) m))
  has_ended c i h task succeeded cost g fresh accepts answers = record {
    index = i;
    ending = some (succeeded, cost);
    answered = answers;
    after = ended_inside c i h task succeeded cost g (fresh.0 task accepts);
  }

  under_hold-AfterTry :
      (c : Candidate) (i h : ℕ) {l m : CostLedger}
      → Granted (order_of plan key c) (held_at i) h l m
      → IsFresh c i l
      → AfterTry c (under_hold plan c h (attempt c i) m).1 l (under_hold plan c h (attempt c i) m).0
  unfolding under_hold accept end_task
  under_hold-AfterTry c i h {l} {m} g fresh =
      go (attempt c i).accepts (attempt c i).answer refl refl
    where
      go :
          (o : Option String) (x : Answer)
          → (attempt c i).accepts ≡ o
          → (attempt c i).answer ≡ x
          → AfterTry c
              (under_hold plan c h (record { accepts = o; answer = x }) m).1
              l
              (under_hold plan c h (record { accepts = o; answer = x }) m).0
      go none (raised e) no_accept answers = release-Granted (order_of plan key c) (held_at i) h g
      go (some t) (raised e) accepts answers =
          release_bound (order_of plan key c) (held_at i) h (token_of plan c t) g
            (fresh.0 t accepts)
      go none cancelled no_accept answers = record {
        index = i;
        was_cancelled = answers;
        committed = g.committed;
      }
      go (some t) cancelled accepts answers = record {
        index = i;
        was_cancelled = answers;
        committed = λ id a. committed-bind id a h (token_of plan c t) m ∙ g.committed id a;
      }
      go none (returned task none) accepts answers = goes_on c i h none task g accepts answers
      go (some t) (returned task none) accepts answers =
          goes_on c i h (some t) task g accepts answers
      go none (returned task (some how)) accepts answers =
          let early = fresh.1 task how answers in cc
      go (some t) (returned task (some (succeeded, cost))) accepts answers =
          let early = fresh.1 task (succeeded, cost) answers in
          let same : task ≡ t = cc in
          subst
            (λ u.
              Served c task l
                (on_terminal (token_of plan c task) succeeded cost (bind h (token_of plan c u) m)))
            same (has_ended c i h task succeeded cost g fresh early answers)

  pub try_candidate-AfterTry :
      (c : Candidate) (i : ℕ) {l : CostLedger}
      → IsWellFormed l
      → IsFresh c i l
      → AfterTry c
          (try_candidate attempt checked_at held_at plan key c i l).1
          l
          (try_candidate attempt checked_at held_at plan key c i l).0
  unfolding try_candidate
  try_candidate-AfterTry c i {l} w fresh =
      let o = order_of plan key c in
      elim (HoldResult-cases (hold o (checked_at i) (held_at i) l).1) [
        | inl (r, e) ↦
            rw (e, try_candidate)
              (record {
                well_formed = hold-IsWellFormed o (checked_at i) (held_at i) w;
                committed = λ id a.
                    committed-hold_refused id a o (checked_at i) (held_at i) l r
                      (hold-refused o (checked_at i) (held_at i) l r e);
                unused = λ t h. hold_refused-unused o (checked_at i) (held_at i) l r e t h;
              })
        | inr (h, e) ↦
            rw (e, try_candidate)
              (under_hold-AfterTry c i h (hold-Granted o (checked_at i) (held_at i) l h w e) fresh)
      ]
