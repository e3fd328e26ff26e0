-- ===== src/Ledger/Settlement.antt =====
-- Finishing a reservation: what moves from held to spent, and that it happens once.
use mm_gateway.Prelude.{
  ℕ, ◌+◌, String, ◌≡◌, refl, Option, none, some, arith, triple_eq, string_eq, nat_eq, ==_refl,
  Option-cases, inl, inr,
}
use mm_gateway.Prelude.Int.{ℤ, pos_part}
use mm_gateway.Prelude.Dict.{get, get-remove}
use mm_gateway.Prelude.Dict.Distinct.{remove_absent}
use mm_gateway.Ledger.{Hold, Token, CostLedger, settle, settle_hold, record_spent}
use mm_gateway.Ledger.WellFormed.{IsWellFormed, settle-drop_hold, drop_hold}
use mm_gateway.Ledger.Committed.{
  Account, committed, share_of, committed-drop_hold, committed-record_spent,
}

module _ (t : Token) (l : CostLedger) (i : ℕ) (h : Hold) (w : IsWellFormed l)
    (entry : get t l.by_task ≡ some i) (found : get i l.holds ≡ some h) where
  hold_names : h.task ≡ some t
  hold_names = let (g, at_i, names) = w.linked t i entry in ground arith

  -- In every budget of a well-formed ledger, settling a task with a cost takes the share of its
  -- hold out and puts the cost, clamped at 0, in; the cost is returned.
  pub committed-settle :
      (id : String) (a : Account) (cost : ℤ)
      → (committed id a (settle t (some cost) l).0 + share_of id a h
          ≡ committed id a l + share_of id a (record h { amount = pos_part cost }))
        × ((settle t (some cost) l).1 ≡ some (pos_part cost))
  unfolding settle_hold
  committed-settle id a cost = rw (settle-drop_hold t (some cost) l i h entry found hold_names) (
    omega (
      arith,
      committed-drop_hold id a i h w found,
      committed-record_spent id a h (pos_part cost) (drop_hold i h l),
    ),
    refl,
  )

  -- Settling a task without a cost (failed, cancelled, expired) gives the hold's share back.
  pub committed-settle-none :
      (id : String) (a : Account)
      → (committed id a (settle t none l).0 + share_of id a h ≡ committed id a l)
        × ((settle t none l).1 ≡ none)
  unfolding settle_hold
  committed-settle-none id a =
      rw (settle-drop_hold t none l i h entry found hold_names)
        (committed-drop_hold id a i h w found, refl)

pub settle_unknown :
    (t : Token) (cost : Option ℤ) (l : CostLedger)
    → get t l.by_task ≡ none
    → settle t cost l ≡ (l, none)
unfolding settle
settle_unknown t cost l gone =
    rw (gone, settle) (λ i. (record l { by_task = remove_absent t l.by_task gone i }, none))

settle_hold-by_task :
    (o : Option Hold) (cost : Option ℤ) (l : CostLedger)
    → (settle_hold o cost l).0.by_task ≡ l.by_task
unfolding settle_hold record_spent
settle_hold-by_task o cost l = ground arith

settle-forgets :
    (t : Token) (cost : Option ℤ) (l : CostLedger) → get t (settle t cost l).0.by_task ≡ none
unfolding settle
settle-forgets t cost l = elim (Option-cases (get t l.by_task)) [
  | inl gone ↦ rw (gone, settle) (rw get-remove (rw ==_refl refl))
  | inr (i, entry) ↦ rw (entry, settle) (rw settle_hold-by_task (rw get-remove (rw ==_refl refl)))
]

-- A task is settled at most once: whatever the first settlement did, a second one returns nothing
-- and changes nothing.
settle_twice :
    (t : Token) (first second : Option ℤ) (l : CostLedger)
    → settle t second (settle t first l).0 ≡ ((settle t first l).0, none)
settle_twice t first second l =
    settle_unknown t second (settle t first l).0 (settle-forgets t first l)
