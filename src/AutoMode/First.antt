-- ===== src/AutoMode/First.antt =====
-- Which candidate of `execute_plan` answers.
use mm_gateway.Prelude.{
  ℕ, ◌+◌, ◌∷◌, ◌++◌, String, ◌≡◌, refl, Option, none, some, List, [], arith, true, false, inl, inr,
  Option-cases, Bool-cases, subst, length, ap, sym, if◌then◌else◌, ◌∙◌,
}
use mm_gateway.Ledger.{DateTime, CostLedger, KeyConfig, BudgetRejection, hold, check}
use mm_gateway.AutoMode.{
  Candidate, RoutePlan, Attempted, Tried, refused, failed, created, aborted, Verdict, served,
  raises, interrupted, Progress, try_candidate, try_all, run_candidates, execute_plan, stops,
  start_progress, is_fallback, reason_or_default,
}
use mm_gateway.AutoMode.Errors.{Failure, Reason, over_budget, failure_reason}
use mm_gateway.AutoMode.Outcome.{refusing, failing, creating, aborting, Tried-cases}

module _ (attempt : Candidate → ℕ → Attempted) (checked_at held_at : ℕ → DateTime)
    (plan : RoutePlan) (key : Option KeyConfig) where
  abbrev tries : Candidate → ℕ → CostLedger → CostLedger × Tried
  tries = try_candidate attempt checked_at held_at plan key

  -- Candidates, from index `i` and ledger `l`, that are all passed over, `n` of them after an attempt:
  -- each is refused by the ledger, or its attempt fails in a way that does not end the request. The
  -- ledger afterwards is `m`.
  pub data PassedOver : List Candidate → ℕ → ℕ → CostLedger → CostLedger → Type 0 where
    nobody : {i : ℕ} {l : CostLedger} → PassedOver [] i 0 l l
    no_budget :
        {c : Candidate} {cs : List Candidate} {i n : ℕ} {l m : CostLedger} (r : BudgetRejection)
        → (tries c i l).1 ≡ refused r
        → PassedOver cs (i + 1) n (tries c i l).0 m
        → PassedOver (c ∷ cs) i n l m
    no_luck :
        {c : Candidate} {cs : List Candidate} {i n : ℕ} {l m : CostLedger} (e : Failure)
        → (tries c i l).1 ≡ failed e
        → stops plan e ≡ false
        → PassedOver cs (i + 1) n (tries c i l).0 m
        → PassedOver (c ∷ cs) i (n + 1) l m

  pub record FirstSuccess (cs : List Candidate) (i : ℕ) (l : CostLedger) (task : String)
      (c : Candidate) (n : ℕ) : Type 0 where
    pub before : List Candidate
    pub after : List Candidate
    pub ledger : CostLedger
    pub index : ℕ
    pub split : cs ≡ before ++ (c ∷ after)
    pub at : index ≡ i + length before
    pub passed : PassedOver before i n l ledger
    pub success : (tries c index ledger).1 ≡ created task

  abbrev verdict : List Candidate → ℕ → Progress → CostLedger → Verdict
  verdict cs i p l = (try_all attempt checked_at held_at plan key cs i p l).1

  verdict-refused :
      (c : Candidate) (cs : List Candidate) (i : ℕ) (p : Progress) (l : CostLedger)
      (r : BudgetRejection)
      → (tries c i l).1 ≡ refused r
      → verdict (c ∷ cs) i p l
        ≡ verdict cs
            (i + 1)
            (record p { reason = some over_budget; rejection = some r })
            (tries c i l).0
  unfolding try_all try_candidate hold check
  verdict-refused c cs i p l r e = rw e refl

  verdict-failed :
      (c : Candidate) (cs : List Candidate) (i : ℕ) (p : Progress) (l : CostLedger) (x : Failure)
      → (tries c i l).1 ≡ failed x
      → stops plan x ≡ false
      → verdict (c ∷ cs) i p l
        ≡ verdict cs
            (i + 1)
            (record p {
              attempts = p.attempts + 1;
              reason = some (failure_reason x);
              last = some x;
            })
            (tries c i l).0
  unfolding try_all try_candidate hold check
  verdict-failed c cs i p l x e go_on = rw e (rw go_on refl)

  verdict-stopped :
      (c : Candidate) (cs : List Candidate) (i : ℕ) (p : Progress) (l : CostLedger) (x : Failure)
      → (tries c i l).1 ≡ failed x
      → stops plan x ≡ true
      → verdict (c ∷ cs) i p l ≡ raises x
  unfolding try_all try_candidate hold check
  verdict-stopped c cs i p l x e stop = rw e (rw stop refl)

  verdict-created :
      (c : Candidate) (cs : List Candidate) (i : ℕ) (p : Progress) (l : CostLedger) (task : String)
      → (tries c i l).1 ≡ created task
      → (r : Option Reason) × (verdict (c ∷ cs) i p l ≡ served task c (p.attempts + 1) r)
  unfolding try_all try_candidate hold check
  verdict-created c cs i p l task e =
      (if is_fallback plan c i then some (reason_or_default p.reason) else none, rw e refl)

  verdict-aborted :
      (c : Candidate) (cs : List Candidate) (i : ℕ) (p : Progress) (l : CostLedger)
      → (tries c i l).1 ≡ aborted
      → verdict (c ∷ cs) i p l ≡ interrupted
  unfolding try_all try_candidate hold check
  verdict-aborted c cs i p l e = rw e refl

  FirstSuccess-refused :
      {c d : Candidate} {cs : List Candidate} {i n : ℕ} {l : CostLedger} {task : String}
      (r : BudgetRejection)
      → (tries c i l).1 ≡ refused r
      → FirstSuccess cs (i + 1) (tries c i l).0 task d n
      → FirstSuccess (c ∷ cs) i l task d n
  FirstSuccess-refused {c = c} r e s = record {
    before = c ∷ s.before;
    after = s.after;
    ledger = s.ledger;
    index = s.index;
    split = ap (λ ds. c ∷ ds) s.split;
    at = omega (arith, s.at);
    passed = no_budget r e s.passed;
    success = s.success;
  }

  FirstSuccess-failed :
      {c d : Candidate} {cs : List Candidate} {i n : ℕ} {l : CostLedger} {task : String}
      (x : Failure)
      → (tries c i l).1 ≡ failed x
      → stops plan x ≡ false
      → FirstSuccess cs (i + 1) (tries c i l).0 task d n
      → FirstSuccess (c ∷ cs) i l task d (n + 1)
  FirstSuccess-failed {c = c} x e go_on s = record {
    before = c ∷ s.before;
    after = s.after;
    ledger = s.ledger;
    index = s.index;
    split = ap (λ ds. c ∷ ds) s.split;
    at = omega (arith, s.at);
    passed = no_luck x e go_on s.passed;
    success = s.success;
  }

  served_at_once :
      (d : Candidate) (ds : List Candidate) (i k : ℕ) (l : CostLedger) (t : String) {task : String}
      {c : Candidate} {n : ℕ} {q r : Option Reason}
      → (tries d i l).1 ≡ created t
      → served t d (k + 1) q ≡ served task c n r
      → (j : ℕ) × (n ≡ k + j + 1) × FirstSuccess (d ∷ ds) i l task c j
  served_at_once d ds i k l t {task = task} {c = c} {n = n} e h =
      let same_task : t ≡ task = cc in
      let same_candidate : d ≡ c = cc in
      let same_count : k + 1 ≡ n = cc in
      (
        0,
        omega (arith, same_count),
        subst (λ d'. FirstSuccess (d ∷ ds) i l task d' 0) same_candidate
            (record {
              before = [];
              after = ds;
              ledger = l;
              index = i;
              split = refl;
              at = omega arith;
              passed = nobody;
              success = subst (λ t'. (tries d i l).1 ≡ created t') same_task e;
            }),
      )

  pub try_all-FirstSuccess :
      (cs : List Candidate) (i : ℕ) (p : Progress) (l : CostLedger) (task : String) (c : Candidate)
      (n : ℕ) {r : Option Reason}
      → (try_all attempt checked_at held_at plan key cs i p l).1 ≡ served task c n r
      → (k : ℕ) × (n ≡ p.attempts + k + 1) × FirstSuccess cs i l task c k
  unfolding try_all
  try_all-FirstSuccess [] i p l task c n h = elim (Option-cases p.last) [
    | inl e ↦ ground arith
    | inr (x, e) ↦ ground arith
  ]
  try_all-FirstSuccess (d ∷ ds) i p l task c n h = elim (Tried-cases (tries d i l).1) [
    | refusing r e ↦
        let (k, count, s) =
          try_all-FirstSuccess ds (i + 1) _ (tries d i l).0 task c n
            (sym (verdict-refused d ds i p l r e) ∙ h) in
        (k, count, FirstSuccess-refused r e s)
    | failing x e ↦ elim (Bool-cases (stops plan x)) [
      | inl stop ↦ let q = sym (verdict-stopped d ds i p l x e stop) ∙ h in ground arith
      | inr go_on ↦
          let (k, count, s) =
            try_all-FirstSuccess ds (i + 1) _ (tries d i l).0 task c n
              (sym (verdict-failed d ds i p l x e go_on) ∙ h) in
          (k + 1, omega (arith, count), FirstSuccess-failed x e go_on s)
    ]
    | creating t e ↦
        let (q, made) = verdict-created d ds i p l t e in
        served_at_once d ds i p.attempts l t e (sym made ∙ h)
    | aborting e ↦ let q = sym (verdict-aborted d ds i p l e) ∙ h in ground arith
  ]

  -- The candidate that serves a request is the first, in the plan's order, that can: every
  -- candidate before it was refused by the ledger or failed in a way that lets the request go on,
  -- each found in the ledger that the ones before it left; and the attempts reported are the failed
  -- ones and one.
  pub execute_plan-FirstSuccess :
      (l : CostLedger) (task : String) (c : Candidate) (n : ℕ) {r : Option Reason}
      → (execute_plan attempt checked_at held_at plan key l).1 ≡ served task c n r
      → (k : ℕ) × (n ≡ k + 1) × FirstSuccess plan.candidates 0 l task c k
  unfolding execute_plan run_candidates
  execute_plan-FirstSuccess l task c n h = go plan.candidates h
    where
      go :
          (cs : List Candidate) {r : Option Reason}
          → (run_candidates attempt checked_at held_at plan key cs l).1 ≡ served task c n r
          → (k : ℕ) × (n ≡ k + 1) × FirstSuccess cs 0 l task c k
      go [] h = ground arith
      go (d ∷ ds) h =
          let (k, count, s) = try_all-FirstSuccess (d ∷ ds) 0 (start_progress plan) l task c n h in
          (k, omega (arith, count), s)
