-- ===== src/Tasks/Supervisor/Final.antt =====
-- The snapshots of mm_gateway/tasks/supervisor.py after a monitor has ended.
use mm_gateway.Prelude.{
  ℕ, ◌+◌, ◌≡◌, ◌≢◌, sym, ◌∙◌, Bool, true, false, Option, none, some, List, [], ◌∷◌, arith, ==_iff,
  string_eq, pair_eq, Option-cases, inl, inr, subst, map,
}
use mm_gateway.Prelude.Dict.{get, put, get-put}
use mm_gateway.Tasks.Supervisor.Rounds.{
  Monitor-cases, poll_gone, poll_live, poll_over, cancel_live, cancel_over, start-cases,
}
use mm_gateway.Tasks.Supervisor.{
  Supervisor, Entry, Task, TaskKey, Status, Event, Poll, Monitor, live, done, finish, register,
  new_entry, observe, poll_once, cancel, cancel_all, step, run, starting, failed_snapshot, failed,
  polling, cancelling, closing, raised, answered,
}

module _ {B : Type 0} where
  -- The snapshot of a task and what its monitor does.
  unfoldable pub seen : TaskKey → Supervisor B → Option (Task B × Monitor)
  seen key s = elim (get key s.entries) [ none ↦ none | some e ↦ some (e.snapshot, e.monitor) ]

  pub finish-seen :
      (key k : TaskKey) (status : Status) (s : Supervisor B)
      → seen key (finish k status s) ≡ seen key s
  unfolding finish seen
  finish-seen key k status s = elim (Option-cases (get k s.entries)) [
    | inl gone ↦ ground arith
    | inr (e, found) ↦
        ground (arith, get-put k key (record e { armed = false }) s.entries, ==_iff k key)
  ]

  put-seen_ne :
      (key k : TaskKey) (e : Entry B) (s : Supervisor B)
      → k ≢ key
      → seen key (record s { entries = put k e s.entries }) ≡ seen key s
  unfolding seen
  put-seen_ne key k e s other = ground (arith, get-put k key e s.entries, ==_iff k key)

  observe-seen_ne :
      (key k : TaskKey) (e : Entry B) (answer : Poll B) (now : ℕ) (s : Supervisor B)
      → k ≢ key
      → seen key (observe k e answer now s) ≡ seen key s
  unfolding observe
  observe-seen_ne key k e raised now s other =
      let errors = e.consecutive_errors + 1 in
      let last = record e {
        consecutive_errors = errors;
        snapshot = failed_snapshot e.snapshot now;
        monitor = done;
      } in
      ground (
        arith,
        put-seen_ne key k last s other,
        put-seen_ne key k (record e { consecutive_errors = errors }) s other,
        finish-seen key k failed (record s { entries = put k last s.entries }),
      )
  observe-seen_ne key k e (answered latest) now s other =
      let next = record e { consecutive_errors = 0; snapshot = latest } in
      ground (
        arith,
        put-seen_ne key k next s other,
        put-seen_ne key k (record next { monitor = done }) s other,
        finish-seen key k latest.status
            (record s { entries = put k (record next { monitor = done }) s.entries }),
      )

  module _ (key : TaskKey) (t : Task B) (m : Monitor) (over : m ≢ live) where
    -- A live monitor is another task's.
    apart :
        (k : TaskKey) (e : Entry B) (s : Supervisor B)
        → get k s.entries ≡ some e
        → e.monitor ≡ live
        → seen key s ≡ some (t, m)
        → k ≢ key
    unfolding seen
    apart k e s found alive h same = ground arith

    poll_once-ended :
        (k : TaskKey) (answer : Poll B) (now : ℕ) (s : Supervisor B)
        → seen key s ≡ some (t, m)
        → seen key (poll_once k answer now s) ≡ some (t, m)
    poll_once-ended k answer now s h = elim (Option-cases (get k s.entries)) [
      | inl gone ↦ subst (λ x. seen key x ≡ some (t, m)) (poll_gone k answer now s gone) h
      | inr (e, found) ↦ elim (Monitor-cases e.monitor) [
        | inl alive ↦
            subst (λ x. seen key x ≡ some (t, m)) (poll_live k answer now s e found alive)
              (observe-seen_ne key k e answer now s (apart k e s found alive h) ∙ h)
        | inr ended ↦
            subst (λ x. seen key x ≡ some (t, m)) (poll_over k answer now s e found ended) h
      ]
    ]

    cancel-ended :
        (k : TaskKey) (s : Supervisor B)
        → seen key s ≡ some (t, m)
        → seen key (cancel k s) ≡ some (t, m)
    cancel-ended k s h = elim (Option-cases (get k s.entries)) [
      | inl gone ↦ unfold cancel in rw (gone, cancel) h
      | inr (e, found) ↦ elim (Monitor-cases e.monitor) [
        | inl alive ↦
            subst (λ x. seen key x ≡ some (t, m)) (cancel_live k s e found alive)
              (unfold seen in
                (put-seen_ne key k (record e { monitor = done }) s (apart k e s found alive h) ∙ h))
        | inr ended ↦ subst (λ x. seen key x ≡ some (t, m)) (cancel_over k s e found ended) h
      ]
    ]

    cancel_all-ended :
        (ks : List TaskKey) (s : Supervisor B)
        → seen key s ≡ some (t, m)
        → seen key (cancel_all ks s) ≡ some (t, m)
    unfolding cancel_all
    cancel_all-ended [] s h = h
    cancel_all-ended (k ∷ ks) s h = cancel_all-ended ks (cancel k s) (cancel-ended k s h)

    register-ended :
        (k : TaskKey) (task : Task B) (callback : Bool) (s : Supervisor B)
        → get k s.entries ≡ none
        → seen key s ≡ some (t, m)
        → seen key (register k task callback s) ≡ some (t, m)
    unfolding register
    register-ended k task callback s gone h =
        let other : k ≢ key = λ same. unfold seen in ground arith in
        ground (
          arith,
          put-seen_ne key k (new_entry task callback) s other,
          finish-seen key k task.status
              (record s { entries = put k (new_entry task callback) s.entries }),
        )

    step-ended :
        (e : Event B) (s : Supervisor B)
        → seen key s ≡ some (t, m)
        → seen key (step e s) ≡ some (t, m)
    unfolding step
    step-ended (starting provider task callback) s h = elim (start-cases provider task callback s) [
      | inl same ↦ subst (λ x. seen key x ≡ some (t, m)) (sym same) h
      | inr (gone, added) ↦
          subst (λ x. seen key x ≡ some (t, m)) (sym added)
            (register-ended (provider, task.task_id) task callback s gone h)
    ]
    step-ended (polling k answer now) s h = poll_once-ended k answer now s h
    step-ended (cancelling k) s h = cancel-ended k s h
    step-ended closing s h =
        cancel_all-ended (map (λ e. e.0) s.entries) (record s { closed = true }) (unfold seen in h)

    -- Once a task's monitor has ended (or was never needed), nothing that happens afterwards
    -- changes the task's snapshot or starts a monitor for it again.
    pub run-ended :
        (es : List (Event B)) (s : Supervisor B)
        → seen key s ≡ some (t, m)
        → seen key (run es s) ≡ some (t, m)
    unfolding run
    run-ended [] s h = h
    run-ended (e ∷ es) s h = run-ended es (step e s) (step-ended e s h)
