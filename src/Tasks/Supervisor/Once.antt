-- ===== src/Tasks/Supervisor/Once.antt =====
-- Every task's terminal callback runs at most once, and a live monitor never watches a finished task.
use mm_gateway.Prelude.{
  ℕ, ◌+◌, ◌≤◌, String, ◌≡◌, refl, sym, Bool, true, false, Option, none, some, List, [], ◌∷◌, arith,
  ◌==◌, ==_iff, string_eq, pair_eq, Option-cases, Bool-cases, inl, inr, subst, leb, if◌then◌else◌,
  map,
}
use mm_gateway.Prelude.Dict.{get, put, get-put}
use mm_gateway.Tasks.Supervisor.Rounds.{
  Monitor-cases, finish_armed, poll_gone, poll_live, poll_over, cancel_live, cancel_over,
  register_over, register_going, start-cases, finish_idle,
}
use mm_gateway.Tasks.Supervisor.{
  Supervisor, Entry, Task, TaskKey, Status, Event, Poll, terminal, live, done, finish, start,
  register, new_entry, observe, poll_once, cancel, cancel_all, step, run, new, starting,
  max_consecutive_poll_errors, failed_snapshot, failed, polling, cancelling, closing, raised,
  answered,
}

module _ {B : Type 0} where
  -- How often a task's callback has been called.
  unfoldable pub times_called : TaskKey → List (TaskKey × Task B) → ℕ
  times_called key [] = 0
  times_called key ((k, t) ∷ calls) = (if k == key then 1 else 0) + times_called key calls

  abbrev pub OkAt : TaskKey → Option (Entry B) → List (TaskKey × Task B) → Type 0
  OkAt key none calls = times_called key calls ≡ 0
  OkAt key (some e) calls =
      (e.monitor ≡ live → terminal e.snapshot.status ≡ false)
      × (e.armed ≡ true → times_called key calls ≡ 0)
      × (times_called key calls ≤ 1)

  pub record IsOk (s : Supervisor B) : Type 0 where
    pub at : (key : TaskKey) → OkAt key (get key s.entries) s.calls

  put_entry-IsOk :
      (key : TaskKey) (e : Entry B) (s : Supervisor B)
      → OkAt key (some e) s.calls
      → IsOk s
      → IsOk (record s { entries = put key e s.entries })
  put_entry-IsOk key e s ok w = record {
    at = λ k. ground (arith, w.at k, get-put key k e s.entries, ==_iff key k);
  }

  call-IsOk :
      (key : TaskKey) (status : Status) (s : Supervisor B) (e : Entry B)
      → get key s.entries ≡ some e
      → e.armed ≡ true
      → IsOk s
      → IsOk (record s {
        entries = put key (record e { armed = false }) s.entries;
        calls = (key, e.snapshot) ∷ s.calls;
        finished = (key, status) ∷ s.finished;
      })
  unfolding times_called
  call-IsOk key status s e found armed w = record {
    at = λ k. ground (
      arith,
      w.at k,
      w.at key,
      get-put key k (record e { armed = false }) s.entries,
      ==_iff key k,
    );
  }

  finish-IsOk :
      (key : TaskKey) (status : Status) (s : Supervisor B) → IsOk s → IsOk (finish key status s)
  unfolding finish
  finish-IsOk key status s w = elim (Option-cases (get key s.entries)) [
    | inl gone ↦ rw (gone, finish) (record { at = w.at })
    | inr (e, found) ↦ elim (Bool-cases e.armed) [
      | inl armed ↦
          subst IsOk (finish_armed key status s e found armed)
            (call-IsOk key status s e found armed w)
      | inr idle ↦ subst IsOk (finish_idle key status s e found idle) (record { at = w.at })
    ]
  ]

  observe-IsOk :
      (key : TaskKey) (e : Entry B) (answer : Poll B) (now : ℕ) (s : Supervisor B)
      → get key s.entries ≡ some e
      → e.monitor ≡ live
      → IsOk s
      → IsOk (observe key e answer now s)
  unfolding observe
  observe-IsOk key e raised now s found alive w =
      let errors = e.consecutive_errors + 1 in
      let last = record e {
        consecutive_errors = errors;
        snapshot = failed_snapshot e.snapshot now;
        monitor = done;
      } in
      elim (Bool-cases (leb max_consecutive_poll_errors errors)) [
        | inl spent ↦ rw spent (
            finish-IsOk key failed (record s { entries = put key last s.entries })
              (put_entry-IsOk key last s (ground (arith, w.at key)) w))
        | inr left ↦ rw left (
            put_entry-IsOk key (record e { consecutive_errors = errors }) s
              (ground (arith, w.at key)) w)
      ]
  observe-IsOk key e (answered latest) now s found alive w =
      elim (Bool-cases (terminal latest.status)) [
        | inl over ↦ rw over (
            let last = record e { consecutive_errors = 0; snapshot = latest; monitor = done } in
            finish-IsOk key latest.status (record s { entries = put key last s.entries })
              (put_entry-IsOk key last s (ground (arith, w.at key)) w))
        | inr going ↦ rw going (
            put_entry-IsOk key (record e { consecutive_errors = 0; snapshot = latest }) s
              (ground (arith, w.at key)) w)
      ]

  poll_once-IsOk :
      (key : TaskKey) (answer : Poll B) (now : ℕ) (s : Supervisor B)
      → IsOk s
      → IsOk (poll_once key answer now s)
  poll_once-IsOk key answer now s w = elim (Option-cases (get key s.entries)) [
    | inl gone ↦ subst IsOk (poll_gone key answer now s gone) w
    | inr (e, found) ↦ elim (Monitor-cases e.monitor) [
      | inl alive ↦
          subst IsOk (poll_live key answer now s e found alive)
            (observe-IsOk key e answer now s found alive w)
      | inr over ↦ subst IsOk (poll_over key answer now s e found over) w
    ]
  ]

  cancel-IsOk : (key : TaskKey) (s : Supervisor B) → IsOk s → IsOk (cancel key s)
  unfolding cancel
  cancel-IsOk key s w = elim (Option-cases (get key s.entries)) [
    | inl gone ↦ rw (gone, cancel) w
    | inr (e, found) ↦ elim (Monitor-cases e.monitor) [
      | inl alive ↦ subst IsOk (cancel_live key s e found alive) (record {
        at = (put_entry-IsOk key (record e { monitor = done }) s (ground (arith, w.at key)) w).at;
      })
      | inr over ↦ subst IsOk (cancel_over key s e found over) w
    ]
  ]

  cancel_all-IsOk : (keys : List TaskKey) (s : Supervisor B) → IsOk s → IsOk (cancel_all keys s)
  unfolding cancel_all
  cancel_all-IsOk [] s w = w
  cancel_all-IsOk (k ∷ ks) s w = cancel_all-IsOk ks (cancel k s) (cancel-IsOk k s w)

  register-IsOk :
      (key : TaskKey) (task : Task B) (callback : Bool) (s : Supervisor B)
      → get key s.entries ≡ none
      → IsOk s
      → IsOk (register key task callback s)
  unfolding register
  register-IsOk key task callback s gone w =
      let kept = put_entry-IsOk key (new_entry task callback) s (ground (arith, w.at key)) w in
      elim (Bool-cases (terminal task.status)) [
        | inl over ↦ subst IsOk (register_over key task callback s over) (
            finish-IsOk key task.status
              (record s { entries = put key (new_entry task callback) s.entries }) kept)
        | inr going ↦ subst IsOk (register_going key task callback s going) kept
      ]

  start-IsOk :
      (provider : String) (task : Task B) (callback : Bool) (s : Supervisor B)
      → IsOk s
      → IsOk (start provider task callback s).0
  start-IsOk provider task callback s w = elim (start-cases provider task callback s) [
    | inl same ↦ subst IsOk (sym same) w
    | inr (gone, added) ↦
        subst IsOk (sym added) (register-IsOk (provider, task.task_id) task callback s gone w)
  ]

  step-IsOk : (e : Event B) (s : Supervisor B) → IsOk s → IsOk (step e s)
  unfolding step
  step-IsOk (starting provider task callback) s w = start-IsOk provider task callback s w
  step-IsOk (polling key answer now) s w = poll_once-IsOk key answer now s w
  step-IsOk (cancelling key) s w = cancel-IsOk key s w
  step-IsOk closing s w =
      cancel_all-IsOk (map (λ e. e.0) s.entries) (record s { closed = true }) (record { at = w.at })

  -- Whatever tasks are started, polled and cancelled, in whatever order, each task's callback has
  -- been called at most once, not at all while it is still armed, and no live monitor watches a
  -- task whose snapshot is terminal.
  pub run-IsOk : (es : List (Event B)) (s : Supervisor B) → IsOk s → IsOk (run es s)
  unfolding run
  run-IsOk [] s w = w
  run-IsOk (e ∷ es) s w = run-IsOk es (step e s) (step-IsOk e s w)

  pub new-IsOk : IsOk (new {B = B})
  unfolding get times_called
  new-IsOk = record { at = λ key. refl }
