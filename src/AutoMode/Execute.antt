-- ===== src/AutoMode/Execute.antt =====
-- `execute_plan` and the ledger: what a request leaves held, whether it is served or fails.
use mm_gateway.Prelude.{
  ℕ, ◌+◌, String, Option, none, some, List, [], ◌∷◌, nat_eq, string_eq, triple_eq, Option-cases,
  Bool-cases, inl, inr, subst,
}
use mm_gateway.Ledger.{DateTime, CostLedger, KeyConfig, check, hold, held_value}
use mm_gateway.Ledger.WellFormed.{IsWellFormed}
use mm_gateway.AutoMode.{
  Candidate, RoutePlan, Attempted, interrupted, Ending, Verdict, served, raises, no_candidate,
  Progress, order_of, token_of, try_candidate, try_all, run_candidates, execute_plan, stops,
  start_progress,
}
use mm_gateway.AutoMode.Attempt.{Unchanged}
use mm_gateway.AutoMode.Settlement.{charged}
use mm_gateway.AutoMode.Outcome.{
  Unchanged-trans, Unchanged-refl, refusing, failing, creating, aborting, Tried-cases, IsFresh,
  Served, Leaked, AfterTry, try_candidate-AfterTry, Adds, AfterTask, hold_of,
}

module _ (attempt : Candidate → ℕ → Attempted) (checked_at held_at : ℕ → DateTime)
    (plan : RoutePlan) (key : Option KeyConfig) where
  abbrev pub AllFresh : List Candidate → ℕ → CostLedger → Type 0
  AllFresh [] i l = Unit
  AllFresh (c ∷ cs) i l = IsFresh attempt checked_at held_at plan key c i l × AllFresh cs (i + 1) l

  AllFresh-Unchanged :
      (cs : List Candidate) (i : ℕ) {l m : CostLedger}
      → Unchanged l m
      → AllFresh cs i l
      → AllFresh cs i m
  AllFresh-Unchanged [] i u f = tt
  AllFresh-Unchanged (c ∷ cs) i u (f, fs) = (
    (λ task e. u.unused (token_of plan c task) (f.0 task e), f.1),
    AllFresh-Unchanged cs (i + 1) u fs,
  )

  -- The ledger after the request.
  abbrev pub AfterRequest : Verdict → CostLedger → CostLedger → Type 0
  AfterRequest (served task c _ _) l m = Served attempt checked_at held_at plan key c task l m
  AfterRequest interrupted l m = (c : Candidate) × Leaked attempt checked_at held_at plan key c l m
  AfterRequest _ l m = Unchanged l m

  Unchanged-Adds :
      (c : Candidate) (i amount : ℕ) {l m : CostLedger} (n : CostLedger)
      → Unchanged l m
      → Adds attempt checked_at held_at plan key c i amount m n
      → Adds attempt checked_at held_at plan key c i amount l n
  Unchanged-Adds c i amount n u s = λ id a. rw (← u.committed id a) (s id a)

  Unchanged-AfterTask :
      (c : Candidate) (i : ℕ) (task : String) (ending : Ending) {l m : CostLedger} (n : CostLedger)
      → Unchanged l m
      → AfterTask attempt checked_at held_at plan key c i task ending m n
      → AfterTask attempt checked_at held_at plan key c i task ending l n
  Unchanged-AfterTask c i task none n u (adds, reserved) =
      (Unchanged-Adds c i (held_value (order_of plan key c).amount) n u adds, reserved)
  Unchanged-AfterTask c i task (some (succeeded, cost)) n u adds =
      Unchanged-Adds c i (charged (hold_of attempt checked_at held_at plan key c i) succeeded cost)
        n u adds

  Unchanged-AfterRequest :
      (v : Verdict) {l m : CostLedger} (n : CostLedger)
      → Unchanged l m
      → AfterRequest v m n
      → AfterRequest v l n
  Unchanged-AfterRequest (served task c _ _) n u s = record {
    index = s.index;
    ending = s.ending;
    answered = s.answered;
    after = Unchanged-AfterTask c s.index task s.ending n u s.after;
  }
  Unchanged-AfterRequest interrupted n u (c, s) = (
    c,
    record {
      index = s.index;
      was_cancelled = s.was_cancelled;
      committed = Unchanged-Adds c s.index _ n u s.committed;
    },
  )
  Unchanged-AfterRequest (raises e) n u s = Unchanged-trans u s
  Unchanged-AfterRequest (no_candidate e) n u s = Unchanged-trans u s

  pub try_all-AfterRequest :
      (cs : List Candidate) (i : ℕ) (p : Progress) {l : CostLedger}
      → IsWellFormed l
      → AllFresh cs i l
      → AfterRequest
          (try_all attempt checked_at held_at plan key cs i p l).1
          l
          (try_all attempt checked_at held_at plan key cs i p l).0
  unfolding try_all try_candidate hold check
  try_all-AfterRequest [] i p {l} w f = elim (Option-cases p.last) [
    | inl e ↦ rw e (Unchanged-refl w)
    | inr (x, e) ↦ rw e (Unchanged-refl w)
  ]
  try_all-AfterRequest (c ∷ cs) i p {l} w (f, fs) =
      let m = (try_candidate attempt checked_at held_at plan key c i l).0 in
      let after = try_candidate-AfterTry attempt checked_at held_at plan key c i w f in
      elim (Tried-cases (try_candidate attempt checked_at held_at plan key c i l).1) [
        | refusing r e ↦ rw e (
            let u : Unchanged l m =
              subst (λ t. AfterTry attempt checked_at held_at plan key c t l m) e after in
            Unchanged-AfterRequest _ _ u (
              try_all-AfterRequest cs (i + 1) _ u.well_formed (AllFresh-Unchanged cs (i + 1) u fs)))
        | failing x e ↦ rw e (elim (Bool-cases (stops plan x)) [
          | inl stop ↦
              rw stop (subst (λ t. AfterTry attempt checked_at held_at plan key c t l m) e after)
          | inr go_on ↦ rw go_on (
              let u : Unchanged l m =
                subst (λ t. AfterTry attempt checked_at held_at plan key c t l m) e after in
              Unchanged-AfterRequest _ _ u (
                try_all-AfterRequest cs (i + 1) _ u.well_formed
                  (AllFresh-Unchanged cs (i + 1) u fs)))
        ])
        | creating task e ↦
            rw e (subst (λ t. AfterTry attempt checked_at held_at plan key c t l m) e after)
        | aborting e ↦
            rw e (c, subst (λ t. AfterTry attempt checked_at held_at plan key c t l m) e after)
      ]

  run_candidates-AfterRequest :
      (cs : List Candidate) {l : CostLedger}
      → IsWellFormed l
      → AllFresh cs 0 l
      → AfterRequest
          (run_candidates attempt checked_at held_at plan key cs l).1
          l
          (run_candidates attempt checked_at held_at plan key cs l).0
  unfolding run_candidates
  run_candidates-AfterRequest [] w fresh = Unchanged-refl w
  run_candidates-AfterRequest (c ∷ cs) w fresh =
      try_all-AfterRequest (c ∷ cs) 0 (start_progress plan) w fresh

  -- What a request leaves in the ledger, from a well-formed one, if the task ids that attempts
  -- accept are new and a task that ends inside its attempt was accepted first. A request that ends
  -- in an error (an `Exception`) leaves every budget's commitment as it was and enters no task. One
  -- that is served adds to the budgets that it belongs to, and to no other, the estimate of the
  -- candidate that answered, which is the task's reservation, or, if the task has ended inside the
  -- attempt, what the task is charged. One that is cancelled during an attempt leaves that
  -- candidate's estimate in them.
  pub execute_plan-AfterRequest :
      {l : CostLedger}
      → IsWellFormed l
      → AllFresh plan.candidates 0 l
      → AfterRequest
          (execute_plan attempt checked_at held_at plan key l).1
          l
          (execute_plan attempt checked_at held_at plan key l).0
  unfolding execute_plan
  execute_plan-AfterRequest {l} w fresh = run_candidates-AfterRequest plan.candidates w fresh
