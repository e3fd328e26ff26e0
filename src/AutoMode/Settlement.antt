-- ===== src/AutoMode/Settlement.antt =====
-- The terminal callback: what a finished task costs.
use mm_gateway.Prelude.{
  ℕ, ◌+◌, String, ◌≡◌, refl, Option, none, some, arith, Bool, true, false, nat_eq, string_eq,
  triple_eq, if◌then◌else◌,
}
use mm_gateway.Prelude.Int.{ℤ, pos, pos_part}
use mm_gateway.Prelude.Dict.{get}
use mm_gateway.Ledger.{Hold, Token, CostLedger, settle, reservation}
use mm_gateway.Ledger.WellFormed.{IsWellFormed}
use mm_gateway.Ledger.Committed.{Account, in_period, in_scope, committed, share_of}
use mm_gateway.Ledger.Settlement.{committed-settle, committed-settle-none}
use mm_gateway.AutoMode.{on_terminal}

-- The amount that a hold is settled for: nothing if the task failed; else the provider's cost,
-- clamped at 0, if it reports one; else the estimate, if the model has a price; else nothing.
abbrev pub charged : Hold → Bool → Option ℤ → ℕ
charged h false cost = 0
charged h true (some c) = pos_part c
charged h true none = elim h.priced [ true ↦ h.amount | false ↦ 0 ]

share_of-zero : (id : String) (a : Account) (h : Hold) → share_of id a (record h { amount = 0 }) ≡ 0
share_of-zero id (in_period p) h = ground arith
share_of-zero id (in_scope s) h = ground arith

reservation_found :
    (t : Token) (l : CostLedger) (i : ℕ) (h : Hold)
    → get t l.by_task ≡ some i
    → get i l.holds ≡ some h
    → reservation t l ≡ some (h.amount, h.priced)
unfolding reservation
reservation_found t l i h entry found = rw (entry, reservation) (rw found refl)

-- A finished task's hold is replaced, in every budget it belongs to, by what the task is charged:
-- nothing if it failed, else the provider's cost clamped at 0, else the estimate of a priced hold,
-- else nothing. The ledger is well-formed, and the task leads to the hold.
pub committed-on_terminal :
    (t : Token) (l : CostLedger) (i : ℕ) (h : Hold) (succeeded : Bool) (cost : Option ℤ)
    → IsWellFormed l
    → get t l.by_task ≡ some i
    → get i l.holds ≡ some h
    → (id : String) (a : Account)
    → committed id a (on_terminal t succeeded cost l) + share_of id a h
      ≡ committed id a l + share_of id a (record h { amount = charged h succeeded cost })
unfolding on_terminal
committed-on_terminal t l i h false cost w entry found id a =
    omega (arith, (committed-settle-none t l i h w entry found id a).0, share_of-zero id a h)
committed-on_terminal t l i h true (some c) w entry found id a =
    (committed-settle t l i h w entry found id a c).0
committed-on_terminal t l i h true none w entry found id a =
    rw (reservation_found t l i h entry found) (estimated h.priced)
  where
    estimated :
        (b : Bool)
        → committed id a (settle t (some (if b then pos h.amount else pos 0)) l).0 + share_of id a h
          ≡ committed id a l
            + share_of id a (record h { amount = elim b [ true ↦ h.amount | false ↦ 0 ] })
    estimated true = (committed-settle t l i h w entry found id a (pos h.amount)).0
    estimated false = (committed-settle t l i h w entry found id a (pos 0)).0
