-- ===== src/AutoMode/Attempt.antt =====
-- One attempt of `execute_plan` under the ledger: what each outcome leaves behind.
use mm_gateway.Prelude.{
  ℕ, ◌+◌, String, ◌≡◌, refl, Option, none, some, arith, nat_eq, string_eq, triple_eq, option_eq,
  Option-cases, inl, inr, ==_refl, is_some,
}
use mm_gateway.Prelude.Dict.{get, put, get-put, get-remove}
use mm_gateway.Ledger.{
  Hold, Token, DateTime, CostLedger, Order, held, rejected, hold, bind, release, reservation,
  new_hold, held_value, period_of, BudgetRejection,
}
use mm_gateway.Ledger.WellFormed.{
  IsWellFormed, hold-IsWellFormed, bind_any-IsWellFormed, release-IsWellFormed, check-SameTables,
  drop_hold,
}
use mm_gateway.Ledger.Committed.{
  Account, in_period, in_scope, committed, share_of, checks, committed-hold_granted, committed-bind,
  committed-drop_hold,
}

-- What a granted hold is: its id leads to the hold, and the tasks' table is as before.
pub record Granted (o : Order) (held_at : DateTime) (i : ℕ) (l m : CostLedger) : Type 0 where
  pub well_formed : IsWellFormed m
  pub found : get i m.holds ≡ some (new_hold o (period_of o.key held_at))
  pub by_task : m.by_task ≡ l.by_task
  pub committed :
      (id : String) (a : Account)
      → committed id a m ≡ committed id a l + share_of id a (new_hold o (period_of o.key held_at))

pub hold-Granted :
    (o : Order) (checked held_at : DateTime) (l : CostLedger) (i : ℕ)
    → IsWellFormed l
    → (hold o checked held_at l).1 ≡ held i
    → Granted o held_at i l (hold o checked held_at l).0
hold-Granted o checked held_at l i w given = elim (Option-cases (checks o checked l).1) [
  | inr (r, refused) ↦ unfold hold in ground arith
  | inl passed ↦
      let m = (checks o checked l).0 in
      let same = check-SameTables o.key o.scope o.client_limit (held_value o.amount) checked l in
      let is_i : m.next_id ≡ i = unfold hold in ground arith in
      record {
        well_formed = hold-IsWellFormed o checked held_at w;
        found =
            unfold hold in
            rw (passed, hold)
              (ground (arith, get-put m.next_id i (new_hold o (period_of o.key held_at)) m.holds));
        by_task = unfold hold in rw (passed, hold) same.by_task;
        committed = λ id a. committed-hold_granted id a o checked held_at l w passed;
      }
]

pub hold-refused :
    (o : Order) (checked held_at : DateTime) (l : CostLedger) (r : BudgetRejection)
    → (hold o checked held_at l).1 ≡ rejected r
    → (checks o checked l).1 ≡ some r
unfolding hold
hold-refused o checked held_at l r refused = ground arith

-- What an attempt that ends without a task leaves of the ledger: no commitment has changed, and no
-- task has been entered.
pub record Unchanged (l m : CostLedger) : Type 0 where
  pub well_formed : IsWellFormed m
  pub committed : (id : String) (a : Account) → committed id a m ≡ committed id a l
  pub unused : (t : Token) → get t l.by_task ≡ none → get t m.by_task ≡ none

release-drop_hold :
    (i : ℕ) (h : Hold) (m : CostLedger) → get i m.holds ≡ some h → release i m ≡ drop_hold i h m
unfolding release drop_hold
release-drop_hold i h m found = rw (found, release) refl

committed-release_found :
    (id : String) (a : Account) (i : ℕ) (h : Hold) {m : CostLedger}
    → IsWellFormed m
    → get i m.holds ≡ some h
    → committed id a (release i m) + share_of id a h ≡ committed id a m
committed-release_found id a i h {m} w found =
    rw (release-drop_hold i h m found) (committed-drop_hold id a i h w found)

unused-release :
    (i : ℕ) (t : Token) (m : CostLedger)
    → get t m.by_task ≡ none
    → get t (release i m).by_task ≡ none
unfolding release
unused-release i t m fresh = elim (Option-cases (get i m.holds)) [
  | inl gone ↦ rw (gone, release) fresh
  | inr (h, found) ↦
      rw (found, release)
        (elim (Option-cases h.task) [
          | inl no_task ↦ rw no_task fresh
          | inr (u, task) ↦ rw task (ground (arith, get-remove u t m.by_task))
        ])
]

pub release-Granted :
    (o : Order) (held_at : DateTime) (i : ℕ) {l m : CostLedger}
    → Granted o held_at i l m
    → Unchanged l (release i m)
release-Granted o held_at i {l} {m} g = record {
  well_formed = release-IsWellFormed i g.well_formed;
  committed = λ id a.
      omega (arith, g.committed id a, committed-release_found id a i _ g.well_formed g.found);
  unused = λ t fresh. unused-release i t m (rw g.by_task fresh);
}

pub bind-found :
    (i : ℕ) (t : Token) (h : Hold) (m : CostLedger)
    → get i m.holds ≡ some h
    → get i (bind i t m).holds ≡ some (record h { task = some t })
unfolding bind
bind-found i t h m found =
    rw (found, bind) (ground (arith, get-put i i (record h { task = some t }) m.holds))

pub share_of-task :
    (id : String) (a : Account) (h : Hold) (t : Option Token)
    → share_of id a (record h { task = t }) ≡ share_of id a h
share_of-task id (in_period p) h t = refl
share_of-task id (in_scope s) h t = refl

pub Granted-bind-IsWellFormed :
    (o : Order) (held_at : DateTime) (i : ℕ) (t : Token) {l m : CostLedger}
    → Granted o held_at i l m
    → get t l.by_task ≡ none
    → IsWellFormed (bind i t m)
Granted-bind-IsWellFormed o held_at i t g fresh =
    bind_any-IsWellFormed i t (λ h found. ground (arith, g.found)) (rw g.by_task fresh)
      g.well_formed

unused-bound :
    (i : ℕ) (t u : Token) (h : Hold) (m : CostLedger)
    → get i m.holds ≡ some h
    → get u m.by_task ≡ none
    → get u (release i (bind i t m)).by_task ≡ none
unused-bound i t u h m found fresh =
    rw (release-drop_hold i _ (bind i t m) (bind-found i t h m found)) (
      unfold bind drop_hold in
      rw (found, bind)
        (ground (arith, get-remove t u (put t i m.by_task), get-put t u i m.by_task)))

pub release_bound :
    (o : Order) (held_at : DateTime) (i : ℕ) (t : Token) {l m : CostLedger}
    → Granted o held_at i l m
    → get t l.by_task ≡ none
    → Unchanged l (release i (bind i t m))
release_bound o held_at i t {l} {m} g fresh =
    let h = new_hold o (period_of o.key held_at) in
    let bound = Granted-bind-IsWellFormed o held_at i t g fresh in
    record {
      well_formed = release-IsWellFormed i bound;
      committed = λ id a. omega (
        arith,
        g.committed id a,
        committed-bind id a i t m,
        share_of-task id a h (some t),
        committed-release_found id a i (record h { task = some t }) bound
            (bind-found i t h m g.found),
      );
      unused = λ u none_yet. unused-bound i t u h m g.found (rw g.by_task none_yet);
    }

-- A task bound to a granted hold has its estimate as its reservation.
pub reservation_bound :
    (o : Order) (held_at : DateTime) (i : ℕ) (t : Token) {l m : CostLedger}
    → Granted o held_at i l m
    → reservation t (bind i t m) ≡ some (held_value o.amount, is_some o.amount)
unfolding reservation bind
reservation_bound o held_at i t {l} {m} g =
    let h = new_hold o (period_of o.key held_at) in
    ground (
      arith,
      g.found,
      ==_refl t,
      get-put t t i m.by_task,
      get-put i i (record h { task = some t }) m.holds,
    )

pub entry_bound :
    (o : Order) (held_at : DateTime) (i : ℕ) (t : Token) {l m : CostLedger}
    → Granted o held_at i l m
    → get t (bind i t m).by_task ≡ some i
unfolding bind
entry_bound o held_at i t {l} {m} g = ground (arith, g.found, ==_refl t, get-put t t i m.by_task)
