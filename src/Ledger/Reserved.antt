-- ===== src/Ledger/Reserved.antt =====
-- How the sum of the held amounts (`_reserved`) moves with the table of holds.
use mm_gateway.Prelude.{
  ℕ, ◌+◌, String, ◌≡◌, Option, none, some, [], ◌∷◌, arith, nat_beq_iff, if◌then◌else◌, nat_eq,
}
use mm_gateway.Prelude.Dict.{Dict, get, put, remove}
use mm_gateway.Prelude.Dict.Distinct.{Distinct, remove_absent}
use mm_gateway.Ledger.{Hold, Token, PeriodId, reserved, counts}

module _ (id : String) (period : Option PeriodId) (scope : Option String) where
  abbrev pub share : Hold → ℕ
  share h = if counts id period scope h then h.amount else 0

  -- A hold under a new id adds its share.
  pub reserved-put_new :
      (i : ℕ) (h : Hold) (d : Dict ℕ Hold)
      → get i d ≡ none
      → reserved id period scope (put i h d) ≡ reserved id period scope d + share h
  unfolding reserved put get
  reserved-put_new i h [] absent = omega arith
  reserved-put_new i h ((j, g) ∷ d) absent = ground (arith, reserved-put_new i h d)

  -- Binding a hold to its task moves no amount.
  pub reserved-put_task :
      (i : ℕ) (h : Hold) (t : Option Token) (d : Dict ℕ Hold)
      → get i d ≡ some h
      → reserved id period scope (put i (record h { task = t }) d) ≡ reserved id period scope d
  unfolding reserved put get
  reserved-put_task i h t [] found = ground arith
  reserved-put_task i h t ((j, g) ∷ d) found = ground (arith, reserved-put_task i h t d)

  -- Removing a hold takes its share away.
  pub reserved-remove :
      (i : ℕ) (h : Hold) (d : Dict ℕ Hold)
      → Distinct d
      → get i d ≡ some h
      → reserved id period scope (remove i d) + share h ≡ reserved id period scope d
  unfolding reserved remove get
  reserved-remove i h [] distinct found = ground arith
  reserved-remove i h ((j, g) ∷ d) distinct found =
      ground (arith, reserved-remove i h d distinct.1, remove_absent j d, nat_beq_iff j i)
