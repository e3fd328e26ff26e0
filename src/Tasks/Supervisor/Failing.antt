-- ===== src/Tasks/Supervisor/Failing.antt =====
-- Failed polls of a monitor of mm_gateway/tasks/supervisor.py.
use mm_gateway.Prelude.{
  ℕ, ◌+◌, ◌≤◌, ◌<◌, ◌≡◌, sym, some, [], ◌∷◌, arith, ==_refl, string_eq, pair_eq, subst, ◌∙◌,
}
use mm_gateway.Prelude.Dict.{get, put, get-put}
use mm_gateway.Tasks.Supervisor.Rounds.{poll_live}
use mm_gateway.Tasks.Supervisor.{
  Supervisor, Entry, TaskKey, live, done, observe, poll_once, run, failed_snapshot, failed, polling,
  raised, step,
}
use mm_gateway.Tasks.Supervisor.Final.{seen, finish-seen}

module _ {B : Type 0} where
  put-seen :
      (key : TaskKey) (e : Entry B) (s : Supervisor B)
      → seen key (record s { entries = put key e s.entries }) ≡ some (e.snapshot, e.monitor)
  unfolding seen
  put-seen key e s = ground (arith, get-put key key e s.entries, ==_refl key)

  -- A failed poll that is not the third in a row.
  failing : TaskKey → Entry B → Supervisor B → Supervisor B
  failing key e s = record s {
    entries = put key (record e { consecutive_errors = e.consecutive_errors + 1 }) s.entries;
  }

  borne :
      (key : TaskKey) (e : Entry B) (now : ℕ) (s : Supervisor B)
      → get key s.entries ≡ some e
      → e.monitor ≡ live
      → e.consecutive_errors < 2
      → poll_once key raised now s ≡ failing key e s
  unfolding failing observe
  borne key e now s found alive few = sym (poll_live key raised now s e found alive) ∙ ground arith

  fatal :
      (key : TaskKey) (e : Entry B) (now : ℕ) (s : Supervisor B)
      → get key s.entries ≡ some e
      → e.monitor ≡ live
      → 2 ≤ e.consecutive_errors
      → seen key (poll_once key raised now s) ≡ some (failed_snapshot e.snapshot now, done)
  unfolding observe
  fatal key e now s found alive many =
      subst (λ x. seen key x ≡ some (failed_snapshot e.snapshot now, done))
        (poll_live key raised now s e found alive)
        (ground (
          arith,
          finish-seen key key failed (record s {
            entries =
                put key
                  (record e {
                    consecutive_errors = e.consecutive_errors + 1;
                    snapshot = failed_snapshot e.snapshot now;
                    monitor = done;
                  })
                  s.entries;
          }),
          put-seen key
              (record e {
                consecutive_errors = e.consecutive_errors + 1;
                snapshot = failed_snapshot e.snapshot now;
                monitor = done;
              })
              s,
        ))

  failing-get :
      (key : TaskKey) (e : Entry B) (s : Supervisor B)
      → get key (failing key e s).entries
        ≡ some (record e { consecutive_errors = e.consecutive_errors + 1 })
  unfolding failing
  failing-get key e s = ground (
    arith,
    ==_refl key,
    get-put key key (record e { consecutive_errors = e.consecutive_errors + 1 }) s.entries,
  )

  -- For a live monitor without errors in a row, two failed polls leave the task's snapshot and the
  -- monitor as they are, and a third ends the monitor with a snapshot that is failed, says so, and
  -- is completed at the time of the third poll.
  pub three_errors :
      (key : TaskKey) (e : Entry B) (t1 t2 t3 : ℕ) (s : Supervisor B)
      → get key s.entries ≡ some e
      → e.monitor ≡ live
      → e.consecutive_errors ≡ 0
      → (seen key (run (polling key raised t1 ∷ polling key raised t2 ∷ []) s)
          ≡ some (e.snapshot, live))
        × (seen key
              (run (polling key raised t1 ∷ polling key raised t2 ∷ polling key raised t3 ∷ []) s)
            ≡ some (failed_snapshot e.snapshot t3, done))
  unfolding run step
  three_errors key e t1 t2 t3 s found alive clean =
      let e1 = record e { consecutive_errors = e.consecutive_errors + 1 } in
      let s1 = failing key e s in
      let first = borne key e t1 s found alive (omega (arith, clean)) in
      let second = borne key e1 t2 s1 (failing-get key e s) alive (omega (arith, clean)) in
      let e2 = record e1 { consecutive_errors = e1.consecutive_errors + 1 } in
      let s2 = failing key e1 s1 in
      let twice : poll_once key raised t2 (poll_once key raised t1 s) ≡ s2 = rw first second in
      (
        rw twice (
            subst (λ m. seen key s2 ≡ some (e.snapshot, m)) alive
              (unfold failing in put-seen key e2 s1)),
        rw twice (fatal key e2 t3 s2 (failing-get key e1 s1) alive (omega (arith, clean))),
      )
