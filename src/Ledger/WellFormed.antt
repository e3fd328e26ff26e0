-- ===== src/Ledger/WellFormed.antt =====
-- The ledger's well-formedness: ids are fresh, and the table of tasks and the holds' own tasks agree.
use mm_gateway.Prelude.{
  ℕ, ◌+◌, ◌≤◌, String, ◌≡◌, ◌≢◌, refl, Option, none, some, arith, nat_beq_iff, ◌∙◌, nat_eq,
  string_eq, triple_eq, Option-cases, inl, inr, ==_iff,
}
use mm_gateway.Prelude.Int.{ℤ, pos_part}
use mm_gateway.Prelude.Dict.{
  get, put, remove, get-put, get-remove, discard, get-discard-some, get-discard_ne,
}
use mm_gateway.Prelude.Dict.Distinct.{Distinct, put-Distinct, remove-Distinct, remove_absent}
use mm_gateway.Ledger.{
  Hold, Token, DateTime, CostLedger, KeyConfig, Order, init, check, hold, bind, release, settle,
  new_hold, held_value, period_of, settle_hold, record_spent,
}

pub record IsWellFormed (l : CostLedger) : Type 0 where
  pub distinct : Distinct l.holds
  -- ids that the counter has not handed out are not in use
  pub fresh : (i : ℕ) → l.next_id ≤ i → get i l.holds ≡ none
  -- a task's entry leads to a hold that names the task
  pub linked :
      (t : Token) (i : ℕ)
      → get t l.by_task ≡ some i
      → (h : Hold) × (get i l.holds ≡ some h) × (h.task ≡ some t)
  -- a hold that names a task is the task's entry
  pub indexed :
      (i : ℕ) (h : Hold) (t : Token)
      → get i l.holds ≡ some h
      → h.task ≡ some t
      → get t l.by_task ≡ some i

-- The tables that the invariant reads.
pub record SameTables (l m : CostLedger) : Type 0 where
  pub next_id : l.next_id ≡ m.next_id
  pub holds : l.holds ≡ m.holds
  pub by_task : l.by_task ≡ m.by_task

-- A budget check writes defaults to the spend tables at most.
pub check-SameTables :
    (key : Option KeyConfig) (scope : Option String) (limit : Option ℕ) (amount : ℕ)
    (now : DateTime) (l : CostLedger)
    → SameTables (check key scope limit amount now l).0 l
unfolding check
check-SameTables key scope limit amount now l = ground arith

pub SameTables-IsWellFormed : {l m : CostLedger} → SameTables l m → IsWellFormed m → IsWellFormed l
SameTables-IsWellFormed s w = record {
  distinct = rw s.holds w.distinct;
  fresh = λ i h. ground (arith, w.fresh i);
  linked = λ t i e. ground (arith, w.linked t i);
  indexed = λ i h t e f. ground (arith, w.indexed i h t);
}

pub init-IsWellFormed : IsWellFormed init
unfolding get
init-IsWellFormed = record {
  distinct = tt;
  fresh = λ i h. refl;
  linked = λ t i e. ground arith;
  indexed = λ i h t e f. ground arith;
}

-- What a new hold does to the tables.
add_hold : Hold → CostLedger → CostLedger
add_hold h l = record l { next_id = l.next_id + 1; holds = put l.next_id h l.holds }

add_hold-IsWellFormed :
    (h : Hold) {l : CostLedger} → h.task ≡ none → IsWellFormed l → IsWellFormed (add_hold h l)
unfolding add_hold
add_hold-IsWellFormed h {l} e w = record {
  distinct = put-Distinct l.next_id h l.holds w.distinct;
  fresh = λ i k. ground (arith, w.fresh i, get-put l.next_id i h l.holds);
  linked = λ t i f. ground (arith, w.linked t i, get-put l.next_id i h l.holds, w.fresh l.next_id);
  indexed = λ i g t f k. ground (arith, w.indexed i g t, get-put l.next_id i h l.holds);
}

bind-IsWellFormed :
    (i : ℕ) (t : Token) {l : CostLedger} (h : Hold)
    → get i l.holds ≡ some h
    → h.task ≡ none
    → get t l.by_task ≡ none
    → IsWellFormed l
    → IsWellFormed (bind i t l)
unfolding bind
bind-IsWellFormed i t {l} h found unbound unused w =
    rw (found, bind)
      (record {
        distinct = put-Distinct i _ l.holds w.distinct;
        fresh = λ j k.
            ground
              (arith, w.fresh j, nat_beq_iff i j, get-put i j (record h { task = some t }) l.holds);
        linked = λ u j f. ground (
          arith,
          w.linked u j,
          get-put i j (record h { task = some t }) l.holds,
          get-put t u i l.by_task,
          ==_iff t u,
        );
        indexed = λ j g u f k. ground (
          arith,
          w.indexed j g u,
          get-put i j (record h { task = some t }) l.holds,
          get-put t u i l.by_task,
          ==_iff t u,
          nat_beq_iff i j,
        );
      })

-- Binding an unknown hold does nothing.
pub bind_any-IsWellFormed :
    (i : ℕ) (t : Token) {l : CostLedger}
    → ((h : Hold) → get i l.holds ≡ some h → h.task ≡ none)
    → get t l.by_task ≡ none
    → IsWellFormed l
    → IsWellFormed (bind i t l)
unfolding bind
bind_any-IsWellFormed i t {l} unbound unused w = elim (Option-cases (get i l.holds)) [
  | inl gone ↦ rw (gone, bind) w
  | inr (h, found) ↦ bind-IsWellFormed i t h found (unbound h found) unused w
]

pub hold-IsWellFormed :
    (o : Order) (checked held : DateTime) {l : CostLedger}
    → IsWellFormed l
    → IsWellFormed (hold o checked held l).0
unfolding hold add_hold
hold-IsWellFormed o checked held {l} w =
    let checks = check o.key o.scope o.client_limit (held_value o.amount) checked l in
    let kept =
      SameTables-IsWellFormed
        (check-SameTables o.key o.scope o.client_limit (held_value o.amount) checked l) w in
    elim (Option-cases checks.1) [
      | inl passed ↦
          rw (passed, hold)
            (SameTables-IsWellFormed (record { next_id = refl; holds = refl; by_task = refl })
              (add_hold-IsWellFormed (new_hold o (period_of o.key held)) refl kept))
      | inr (r, refused) ↦ rw (refused, hold) kept
    ]

-- The part that `release` and `settle` share: a hold and its task's entry go together.
unfoldable pub drop_hold : ℕ → Hold → CostLedger → CostLedger
drop_hold i h l = record l { holds = remove i l.holds; by_task = discard h.task l.by_task }

pub drop_hold-IsWellFormed :
    (i : ℕ) (h : Hold) {l : CostLedger}
    → get i l.holds ≡ some h
    → IsWellFormed l
    → IsWellFormed (drop_hold i h l)
unfolding drop_hold
drop_hold-IsWellFormed i h {l} found w = record {
  distinct = remove-Distinct i l.holds w.distinct;
  fresh = λ j k. ground (arith, w.fresh j, get-remove i j l.holds);
  linked = λ u j f.
      let (entry, other) = get-discard-some h.task u l.by_task f in
      let (g, at_j, names) = w.linked u j entry in
      (g, ground (arith, get-remove i j l.holds, nat_beq_iff i j), names);
  indexed = λ j g u f k.
      let kept : get j l.holds ≡ some g = ground (arith, get-remove i j l.holds) in
      let apart : i ≢ j = λ e. ground (arith, get-remove i j l.holds, nat_beq_iff i j) in
      let entry : get u l.by_task ≡ some j = w.indexed j g u kept k in
      let other : h.task ≢ some u = λ e. ground (arith, w.indexed i h u found e) in
      get-discard_ne h.task u l.by_task other ∙ entry;
}

pub release-IsWellFormed : (i : ℕ) {l : CostLedger} → IsWellFormed l → IsWellFormed (release i l)
unfolding release drop_hold
release-IsWellFormed i {l} w = elim (Option-cases (get i l.holds)) [
  | inl gone ↦
      rw (gone, release)
        (record {
          distinct = remove-Distinct i l.holds w.distinct;
          fresh = λ j k. ground (arith, w.fresh j, get-remove i j l.holds);
          linked = λ u j f. rw (remove_absent i l.holds gone) (w.linked u j f);
          indexed = λ j g u f k. w.indexed j g u (ground (arith, get-remove i j l.holds)) k;
        })
  | inr (h, found) ↦ rw (found, release) (drop_hold-IsWellFormed i h found w)
]

record_spent-SameTables : (h : Hold) (v : ℕ) (l : CostLedger) → SameTables (record_spent h v l) l
unfolding record_spent
record_spent-SameTables h v l = record { next_id = refl; holds = refl; by_task = refl }

settle_hold-SameTables :
    (o : Option Hold) (cost : Option ℤ) (l : CostLedger) → SameTables (settle_hold o cost l).0 l
unfolding settle_hold
settle_hold-SameTables none cost l = record { next_id = refl; holds = refl; by_task = refl }
settle_hold-SameTables (some h) none l = record { next_id = refl; holds = refl; by_task = refl }
settle_hold-SameTables (some h) (some c) l = record_spent-SameTables h (pos_part c) l

-- The tables after a settlement, before the cost is recorded.
pub settle-drop_hold :
    (t : Token) (cost : Option ℤ) (l : CostLedger) (i : ℕ) (h : Hold)
    → get t l.by_task ≡ some i
    → get i l.holds ≡ some h
    → h.task ≡ some t
    → settle t cost l ≡ settle_hold (some h) cost (drop_hold i h l)
unfolding settle drop_hold
settle-drop_hold t cost l i h entry found names = rw (entry, settle) (rw (found, names) refl)

pub settle-IsWellFormed :
    (t : Token) (cost : Option ℤ) {l : CostLedger}
    → IsWellFormed l
    → IsWellFormed (settle t cost l).0
settle-IsWellFormed t cost {l} w = elim (Option-cases (get t l.by_task)) [
  | inl gone ↦
      unfold settle in
      rw (gone, settle)
        (SameTables-IsWellFormed
          (record { next_id = refl; holds = refl; by_task = remove_absent t l.by_task gone }) w)
  | inr (i, entry) ↦
      let (h, found, names) = w.linked t i entry in
      rw (settle-drop_hold t cost l i h entry found names) (
        SameTables-IsWellFormed (settle_hold-SameTables (some h) cost (drop_hold i h l))
          (drop_hold-IsWellFormed i h found w))
]
