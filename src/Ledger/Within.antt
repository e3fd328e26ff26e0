-- ===== src/Ledger/Within.antt =====
-- No budget is exceeded: what is spent plus what is held stays within the cap and `_EPS`.
use mm_gateway.Prelude.{
  ℕ, ◌+◌, ◌≤◌, String, ◌≡◌, Option, none, some, arith, nat_eq, string_eq, triple_eq, option_eq,
  eq_iff, Option-cases, inl, inr,
}
use native.Mathlib.Nat.{le_refl}
use mm_gateway.Prelude.Dict.Distinct.{remove_absent}
use mm_gateway.Prelude.Int.{ℤ, pos_part}
use mm_gateway.Prelude.Dict.{get}
use mm_gateway.Ledger.{
  Hold, Token, DateTime, CostLedger, Order, hold, release, settle, held_value, period_of, period_eq,
  key_id, key_limit, scope_limit, eps, period_beq_iff,
}
use mm_gateway.Ledger.WellFormed.{IsWellFormed, drop_hold}
use mm_gateway.Ledger.Committed.{
  Account, in_period, in_scope, committed, share_of, checks, check_period, check_scope,
  committed-check, committed-hold_granted, committed-hold_refused, committed-bind,
  committed-drop_hold,
}
use mm_gateway.Ledger.Settlement.{committed-settle, committed-settle-none, settle_unknown}
use mm_gateway.Ledger.Steps.{
  Step, Reach, checking, holding, binding, releasing, settling, here, next, Reach-IsWellFormed,
}

-- The operator's cap on an account does not change, and the clock does not pass the end of the
-- period between the two readings of one `hold`.
abbrev pub IsCapped : String → Account → ℕ → Order → DateTime → DateTime → Type 0
IsCapped id (in_period p) limit o checked held =
    key_id o.key ≡ id
    → (key_limit o.key ≡ some limit) × (period_of o.key checked ≡ period_of o.key held)
IsCapped id (in_scope s) limit o checked held =
    key_id o.key ≡ id → o.scope ≡ some s → scope_limit o.key o.client_limit ≡ some limit

-- What a step must respect: the cap of every hold, and that no provider reports a cost above what
-- was held for the task.
abbrev pub Respects : {l m : CostLedger} → String → Account → ℕ → Step l m → Type 0
Respects id a limit (holding o checked held _) = IsCapped id a limit o checked held
Respects id a limit (settling t (some cost) l) =
    (i : ℕ) (h : Hold)
    → get t l.by_task ≡ some i
    → get i l.holds ≡ some h
    → pos_part cost ≤ h.amount
Respects id a limit _ = Unit

abbrev pub AllRespect : {l m : CostLedger} → String → Account → ℕ → Reach l m → Type 0
AllRespect id a limit here = Unit
AllRespect id a limit (next r s) = AllRespect id a limit r × Respects id a limit s

-- A granted hold leaves the account within its cap.
granted_within :
    (id : String) (a : Account) (limit : ℕ) (o : Order) (checked held : DateTime) (l : CostLedger)
    → IsWellFormed l
    → IsCapped id a limit o checked held
    → committed id a l ≤ limit + eps
    → (checks o checked l).1 ≡ none
    → committed id a (hold o checked held l).0 ≤ limit + eps
granted_within id (in_period p) limit o checked held l w capped h passed = ground (
  arith,
  committed-hold_granted id (in_period p) o checked held l w passed,
  check_period o.key o.scope o.client_limit (held_value o.amount) limit checked l,
  eq_iff (key_id o.key) id,
  period_beq_iff (period_of o.key held) p,
)
granted_within id (in_scope s) limit o checked held l w capped h passed =
    elim (Option-cases o.scope) [
      | inl unscoped ↦
          ground (arith, committed-hold_granted id (in_scope s) o checked held l w passed)
      | inr (t, scoped) ↦ ground (
        arith,
        committed-hold_granted id (in_scope s) o checked held l w passed,
        check_scope o.key t o.client_limit (held_value o.amount) limit checked l,
        eq_iff (key_id o.key) id,
        eq_iff t s,
      )
    ]

hold-within :
    (id : String) (a : Account) (limit : ℕ) (o : Order) (checked held : DateTime) (l : CostLedger)
    → IsWellFormed l
    → IsCapped id a limit o checked held
    → committed id a l ≤ limit + eps
    → committed id a (hold o checked held l).0 ≤ limit + eps
hold-within id a limit o checked held l w capped h = elim (Option-cases (checks o checked l).1) [
  | inl passed ↦ granted_within id a limit o checked held l w capped h passed
  | inr (r, refused) ↦ rw (committed-hold_refused id a o checked held l r refused) h
]

pub committed-release_le :
    (id : String) (a : Account) (i : ℕ) (l : CostLedger)
    → IsWellFormed l
    → committed id a (release i l) ≤ committed id a l
unfolding release drop_hold
committed-release_le id a i l w = elim (Option-cases (get i l.holds)) [
  | inl gone ↦ rw (gone, release) (rw (remove_absent i l.holds gone) (le_refl _))
  | inr (h, found) ↦ rw (found, release) (omega (arith, committed-drop_hold id a i h w found))
]

share_of_mono :
    (id : String) (a : Account) (h : Hold) (v : ℕ)
    → v ≤ h.amount
    → share_of id a (record h { amount = v }) ≤ share_of id a h
share_of_mono id (in_period p) h v le = ground arith
share_of_mono id (in_scope s) h v le = ground arith

settle-within :
    (id : String) (a : Account) (limit : ℕ) (t : Token) (cost : Option ℤ) (l : CostLedger)
    → IsWellFormed l
    → Respects id a limit (settling t cost l)
    → committed id a l ≤ limit + eps
    → committed id a (settle t cost l).0 ≤ limit + eps
settle-within id a limit t cost l w honest h = elim (Option-cases (get t l.by_task)) [
  | inl gone ↦ rw (settle_unknown t cost l gone) h
  | inr (i, entry) ↦
      let (g, found, names) = w.linked t i entry in settle_found i g entry found cost honest
]
  where
    settle_found :
        (i : ℕ) (g : Hold)
        → get t l.by_task ≡ some i
        → get i l.holds ≡ some g
        → (c : Option ℤ) → Respects id a limit (settling t c l)
        → committed id a (settle t c l).0 ≤ limit + eps
    settle_found i g entry found none _ =
        omega (arith, (committed-settle-none t l i g w entry found id a).0)
    settle_found i g entry found (some c) respects = omega (
      arith,
      (committed-settle t l i g w entry found id a c).0,
      share_of_mono id a g (pos_part c) (respects i g entry found),
    )

pub Step-within :
    (id : String) (a : Account) (limit : ℕ) {l m : CostLedger} (s : Step l m)
    → IsWellFormed l
    → Respects id a limit s
    → committed id a l ≤ limit + eps
    → committed id a m ≤ limit + eps
Step-within id a limit (checking key scope client amount now l) w r h =
    rw (committed-check id a key scope client amount now l) h
Step-within id a limit (holding o checked held l) w r h =
    hold-within id a limit o checked held l w r h
Step-within id a limit (binding i t l _ _) w r h = rw (committed-bind id a i t l) h
Step-within id a limit (releasing i l) w r h = omega (arith, committed-release_le id a i l w)
Step-within id a limit (settling t cost l) w r h = settle-within id a limit t cost l w r h

-- Along any calls of the ledger from a well-formed state, a key's period or scope whose spent and
-- held amounts are within its cap (and _EPS) stays so, if every hold of the account is made under
-- that cap, the clock does not change period inside a hold, tasks are bound once, and no task is
-- settled for more than was held for it.
pub Reach-within :
    (id : String) (a : Account) (limit : ℕ) {l m : CostLedger}
    → IsWellFormed l
    → committed id a l ≤ limit + eps
    → (r : Reach l m) → AllRespect id a limit r
    → committed id a m ≤ limit + eps
Reach-within id a limit w h here _ = h
Reach-within id a limit w h (next r s) (before, now) =
    Step-within id a limit s (Reach-IsWellFormed w r) now (Reach-within id a limit w h r before)
