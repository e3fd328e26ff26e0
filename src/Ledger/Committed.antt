-- ===== src/Ledger/Committed.antt =====
-- What one budget has committed: the amount spent plus the amount held, for a key's period or for a
-- scope of a key; and how each operation of the ledger moves it.
use mm_gateway.Prelude.{
  ℕ, ◌+◌, ◌≤◌, String, ◌≡◌, refl, Option, none, some, arith, if◌then◌else◌, nat_eq, string_eq,
  pair_eq, triple_eq, Eq, ◌==◌, Option-cases, inl, inr, option_eq, quadruple_eq,
}
use mm_gateway.Prelude.Dict.{Dict, get, put, remove, get_or, get-put}
use mm_gateway.Prelude.Dict.Distinct.{Distinct}
use mm_gateway.Ledger.{
  Hold, Token, PeriodId, DateTime, CostLedger, KeyConfig, Order, check, hold, bind, new_hold,
  held_value, period_of, period_eq, record_spent, reserved, touch, add_to, key_id, key_limit,
  scope_limit, eps, BudgetRejection,
}
use mm_gateway.Ledger.Reserved.{share, reserved-put_new, reserved-put_task, reserved-remove}
use mm_gateway.Ledger.WellFormed.{IsWellFormed, drop_hold, check-SameTables}

-- A budget of a key: of one period, or of one scope.
pub data Account : Type 0 where
  in_period : PeriodId → Account
  in_scope : String → Account

abbrev pub spent_of : String → Account → CostLedger → ℕ
spent_of id (in_period p) l = get_or (id, p) 0 l.key_spent
spent_of id (in_scope s) l = get_or (id, s) 0 l.scope_spent

abbrev pub held_of : String → Account → Dict ℕ Hold → ℕ
held_of id (in_period p) holds = reserved id (some p) none holds
held_of id (in_scope s) holds = reserved id none (some s) holds

abbrev pub share_of : String → Account → Hold → ℕ
share_of id (in_period p) h = share id (some p) none h
share_of id (in_scope s) h = share id none (some s) h

unfoldable pub committed : String → Account → CostLedger → ℕ
committed id a l = spent_of id a l + held_of id a l.holds

module _ {K : Type 0} ⦃e : Eq K⦄ where
  get_or-touch : (k j : K) (d : Dict K ℕ) → get_or k 0 (touch j d) ≡ get_or k 0 d
  unfolding touch
  get_or-touch k j d = ground (arith, get-put j k 0 d, e.beq_iff j k)

  get_or-add_to :
      (k j : K) (v : ℕ) (d : Dict K ℕ)
      → get_or k 0 (add_to j v d) ≡ get_or k 0 d + (if j == k then v else 0)
  unfolding add_to
  get_or-add_to k j v d = ground (arith, get-put j k (get_or j 0 d + v) d, e.beq_iff j k)

-- A check changes no commitment.
pub committed-check :
    (id : String) (a : Account) (key : Option KeyConfig) (scope : Option String) (limit : Option ℕ)
    (amount : ℕ) (now : DateTime) (l : CostLedger)
    → committed id a (check key scope limit amount now l).0 ≡ committed id a l
unfolding check committed
committed-check id (in_period p) key scope limit amount now l =
    ground (arith, get_or-touch (id, p) (key_id key, period_of key now) l.key_spent)
committed-check id (in_scope s) key none limit amount now l = ground arith
committed-check id (in_scope s) key (some t) limit amount now l =
    ground (arith, get_or-touch (id, s) (key_id key, t) l.scope_spent)

-- A check that passes leaves room for the amount in the key's period.
pub check_period :
    (key : Option KeyConfig) (scope : Option String) (client : Option ℕ) (amount limit : ℕ)
    (now : DateTime) (l : CostLedger)
    → key_limit key ≡ some limit
    → (check key scope client amount now l).1 ≡ none
    → committed (key_id key) (in_period (period_of key now)) l + amount ≤ limit + eps
unfolding check committed
check_period key scope client amount limit now l capped passed = ground arith

-- A check that passes leaves room for the amount in the scope.
pub check_scope :
    (key : Option KeyConfig) (scope : String) (client : Option ℕ) (amount limit : ℕ)
    (now : DateTime) (l : CostLedger)
    → scope_limit key client ≡ some limit
    → (check key (some scope) client amount now l).1 ≡ none
    → committed (key_id key) (in_scope scope) l + amount ≤ limit + eps
unfolding check committed
check_scope key scope client amount limit now l capped passed = ground arith

-- A table that only differs in parts that `committed` does not read.
held_of-put_new :
    (id : String) (a : Account) (i : ℕ) (h : Hold) (d : Dict ℕ Hold)
    → get i d ≡ none
    → held_of id a (put i h d) ≡ held_of id a d + share_of id a h
held_of-put_new id (in_period p) i h d absent = reserved-put_new id (some p) none i h d absent
held_of-put_new id (in_scope s) i h d absent = reserved-put_new id none (some s) i h d absent

held_of-remove :
    (id : String) (a : Account) (i : ℕ) (h : Hold) (d : Dict ℕ Hold)
    → Distinct d
    → get i d ≡ some h
    → held_of id a (remove i d) + share_of id a h ≡ held_of id a d
held_of-remove id (in_period p) i h d w found = reserved-remove id (some p) none i h d w found
held_of-remove id (in_scope s) i h d w found = reserved-remove id none (some s) i h d w found

abbrev pub checks : Order → DateTime → CostLedger → CostLedger × Option BudgetRejection
checks o checked l = check o.key o.scope o.client_limit (held_value o.amount) checked l

next_id_absent :
    (o : Order) (checked : DateTime) (l : CostLedger)
    → IsWellFormed l
    → get (checks o checked l).0.next_id (checks o checked l).0.holds ≡ none
next_id_absent o checked l w =
    let same = check-SameTables o.key o.scope o.client_limit (held_value o.amount) checked l in
    rw (same.holds, same.next_id) (w.fresh l.next_id (omega arith))

-- A granted hold adds its share.
pub committed-hold_granted :
    (id : String) (a : Account) (o : Order) (checked held : DateTime) (l : CostLedger)
    → IsWellFormed l
    → (checks o checked l).1 ≡ none
    → committed id a (hold o checked held l).0
      ≡ committed id a l + share_of id a (new_hold o (period_of o.key held))
unfolding hold committed
committed-hold_granted id (in_period p) o checked held l w passed =
    let m = (checks o checked l).0 in
    rw (passed, hold)
      (omega (
        arith,
        held_of-put_new id (in_period p) m.next_id (new_hold o (period_of o.key held)) m.holds
            (next_id_absent o checked l w),
        committed-check id (in_period p) o.key o.scope o.client_limit (held_value o.amount) checked
            l,
      ))
committed-hold_granted id (in_scope s) o checked held l w passed =
    let m = (checks o checked l).0 in
    rw (passed, hold)
      (omega (
        arith,
        held_of-put_new id (in_scope s) m.next_id (new_hold o (period_of o.key held)) m.holds
            (next_id_absent o checked l w),
        committed-check id (in_scope s) o.key o.scope o.client_limit (held_value o.amount) checked
            l,
      ))

-- A refused hold adds nothing.
pub committed-hold_refused :
    (id : String) (a : Account) (o : Order) (checked held : DateTime) (l : CostLedger)
    (r : BudgetRejection)
    → (checks o checked l).1 ≡ some r
    → committed id a (hold o checked held l).0 ≡ committed id a l
unfolding hold
committed-hold_refused id a o checked held l r refused =
    rw (refused, hold)
      (committed-check id a o.key o.scope o.client_limit (held_value o.amount) checked l)

-- Binding moves nothing.
pub committed-bind :
    (id : String) (a : Account) (i : ℕ) (t : Token) (l : CostLedger)
    → committed id a (bind i t l) ≡ committed id a l
unfolding bind committed
committed-bind id (in_period p) i t l = elim (Option-cases (get i l.holds)) [
  | inl gone ↦ rw (gone, bind)
  | inr (h, found) ↦
      rw (found, bind) (rw (reserved-put_task id (some p) none i h (some t) l.holds found) refl)
]
committed-bind id (in_scope s) i t l = elim (Option-cases (get i l.holds)) [
  | inl gone ↦ rw (gone, bind)
  | inr (h, found) ↦
      rw (found, bind) (rw (reserved-put_task id none (some s) i h (some t) l.holds found) refl)
]

-- Dropping a hold gives its share back.
pub committed-drop_hold :
    (id : String) (a : Account) (i : ℕ) (h : Hold) {l : CostLedger}
    → IsWellFormed l
    → get i l.holds ≡ some h
    → committed id a (drop_hold i h l) + share_of id a h ≡ committed id a l
unfolding drop_hold committed
committed-drop_hold id (in_period p) i h {l} w found =
    omega (arith, held_of-remove id (in_period p) i h l.holds w.distinct found)
committed-drop_hold id (in_scope s) i h {l} w found =
    omega (arith, held_of-remove id (in_scope s) i h l.holds w.distinct found)

-- Recording a cost adds it to the budgets that the hold belongs to.
pub committed-record_spent :
    (id : String) (a : Account) (h : Hold) (v : ℕ) (l : CostLedger)
    → committed id a (record_spent h v l)
      ≡ committed id a l + share_of id a (record h { amount = v })
unfolding record_spent committed
committed-record_spent id (in_period p) h v l =
    ground (arith, get_or-add_to (id, p) (h.key_id, h.period) v l.key_spent)
committed-record_spent id (in_scope s) h v l = elim (Option-cases h.scope) [
  | inl none_given ↦ ground arith
  | inr (t, given) ↦ ground (arith, get_or-add_to (id, s) (h.key_id, t) v l.scope_spent)
]
