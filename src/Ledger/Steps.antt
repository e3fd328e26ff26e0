-- ===== src/Ledger/Steps.antt =====
-- The ledger as a transition system: one step for each call of a method, in any order. The lock makes
-- every call one step, so concurrent requests are interleavings of these steps.
use mm_gateway.Prelude.{ℕ, String, ◌≡◌, Option, none, some, nat_eq, string_eq, triple_eq}
use mm_gateway.Prelude.Int.{ℤ}
use mm_gateway.Prelude.Dict.{get}
use mm_gateway.Ledger.{
  Hold, Token, DateTime, CostLedger, KeyConfig, Order, check, hold, bind, release, settle,
}
use mm_gateway.Ledger.WellFormed.{
  IsWellFormed, SameTables-IsWellFormed, check-SameTables, hold-IsWellFormed, bind_any-IsWellFormed,
  release-IsWellFormed, settle-IsWellFormed,
}

-- One call of a method. A task is bound once, to a hold that has no task yet: the provider's
-- task ids are new, and `accept` is called once for each hold.
pub data Step : CostLedger → CostLedger → Type 0 where
  checking :
      (key : Option KeyConfig) (scope : Option String) (limit : Option ℕ) (amount : ℕ)
      (now : DateTime) (l : CostLedger)
      → Step l (check key scope limit amount now l).0
  holding :
      (o : Order) (checked held : DateTime) (l : CostLedger) → Step l (hold o checked held l).0
  binding :
      (i : ℕ) (t : Token) (l : CostLedger)
      → ((h : Hold) → get i l.holds ≡ some h → h.task ≡ none)
      → get t l.by_task ≡ none
      → Step l (bind i t l)
  releasing : (i : ℕ) (l : CostLedger) → Step l (release i l)
  settling : (t : Token) (cost : Option ℤ) (l : CostLedger) → Step l (settle t cost l).0

pub data Reach (l : CostLedger) : CostLedger → Type 0 where
  here : Reach l l
  next : {m n : CostLedger} → Reach l m → Step m n → Reach l n

pub Step-IsWellFormed : {l m : CostLedger} → Step l m → IsWellFormed l → IsWellFormed m
Step-IsWellFormed (checking key scope limit amount now l) w =
    SameTables-IsWellFormed (check-SameTables key scope limit amount now l) w
Step-IsWellFormed (holding o checked held l) w = hold-IsWellFormed o checked held w
Step-IsWellFormed (binding i t l unbound unused) w = bind_any-IsWellFormed i t unbound unused w
Step-IsWellFormed (releasing i l) w = release-IsWellFormed i w
Step-IsWellFormed (settling t cost l) w = settle-IsWellFormed t cost w

-- From a well-formed ledger, any calls of the ledger's methods, in any order, lead to a well-formed
-- ledger, if each task is bound once and to a hold without a task.
pub Reach-IsWellFormed : {l m : CostLedger} → IsWellFormed l → Reach l m → IsWellFormed m
Reach-IsWellFormed w here = w
Reach-IsWellFormed w (next r s) = Step-IsWellFormed s (Reach-IsWellFormed w r)
