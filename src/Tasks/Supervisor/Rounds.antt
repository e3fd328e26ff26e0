-- ===== src/Tasks/Supervisor/Rounds.antt =====
-- What each operation of the supervisor does, case by case, as equations.
use mm_gateway.Prelude.{
  ℕ, String, ◌≡◌, ◌≢◌, ◌⊎◌, refl, Bool, true, false, none, some, ◌∷◌, arith, string_eq, pair_eq,
  Option-cases, Bool-cases, inl, inr,
}
use mm_gateway.Prelude.Dict.{get, put}
use mm_gateway.Tasks.Supervisor.{
  Supervisor, Entry, Task, TaskKey, Status, Poll, Monitor, terminal, live, absent, done, finish,
  start, register, new_entry, observe, poll_once, cancel, cancelled,
}

pub Monitor-cases : (m : Monitor) → (m ≡ live) ⊎ (m ≢ live)
Monitor-cases live = inl refl
Monitor-cases absent = inr (λ e. cc)
Monitor-cases done = inr (λ e. cc)

module _ {B : Type 0} where
  pub finish_armed :
      (key : TaskKey) (status : Status) (s : Supervisor B) (e : Entry B)
      → get key s.entries ≡ some e
      → e.armed ≡ true
      → record s {
        entries = put key (record e { armed = false }) s.entries;
        calls = (key, e.snapshot) ∷ s.calls;
        finished = (key, status) ∷ s.finished;
      }
        ≡ finish key status s
  unfolding finish
  finish_armed key status s e found armed = ground arith

  pub poll_gone :
      (key : TaskKey) (answer : Poll B) (now : ℕ) (s : Supervisor B)
      → get key s.entries ≡ none
      → s ≡ poll_once key answer now s
  unfolding poll_once
  poll_gone key answer now s gone = ground arith

  pub poll_live :
      (key : TaskKey) (answer : Poll B) (now : ℕ) (s : Supervisor B) (e : Entry B)
      → get key s.entries ≡ some e
      → e.monitor ≡ live
      → observe key e answer now s ≡ poll_once key answer now s
  unfolding poll_once
  poll_live key answer now s e found alive = ground arith

  pub poll_over :
      (key : TaskKey) (answer : Poll B) (now : ℕ) (s : Supervisor B) (e : Entry B)
      → get key s.entries ≡ some e
      → e.monitor ≢ live
      → s ≡ poll_once key answer now s
  unfolding poll_once
  poll_over key answer now s e found over = ground arith

  pub cancel_live :
      (key : TaskKey) (s : Supervisor B) (e : Entry B)
      → get key s.entries ≡ some e
      → e.monitor ≡ live
      → record s {
        entries = put key (record e { monitor = done }) s.entries;
        finished = (key, cancelled) ∷ s.finished;
      }
        ≡ cancel key s
  unfolding cancel
  cancel_live key s e found alive = ground arith

  pub cancel_over :
      (key : TaskKey) (s : Supervisor B) (e : Entry B)
      → get key s.entries ≡ some e
      → e.monitor ≢ live
      → s ≡ cancel key s
  unfolding cancel
  cancel_over key s e found over = ground arith

  pub register_over :
      (key : TaskKey) (task : Task B) (callback : Bool) (s : Supervisor B)
      → terminal task.status ≡ true
      → finish key task.status (record s { entries = put key (new_entry task callback) s.entries })
        ≡ register key task callback s
  unfolding register
  register_over key task callback s over = ground arith

  pub register_going :
      (key : TaskKey) (task : Task B) (callback : Bool) (s : Supervisor B)
      → terminal task.status ≡ false
      → record s { entries = put key (new_entry task callback) s.entries }
        ≡ register key task callback s
  unfolding register
  register_going key task callback s going = ground arith

  pub start-cases :
      (provider : String) (task : Task B) (callback : Bool) (s : Supervisor B)
      → ((start provider task callback s).0 ≡ s)
        ⊎ ((get (provider, task.task_id) s.entries ≡ none)
            × ((start provider task callback s).0
                ≡ register (provider, task.task_id) task callback s))
  unfolding start
  start-cases provider task callback s = elim (Bool-cases s.closed) [
    | inl shut ↦ inl (ground arith)
    | inr opened ↦ elim (Option-cases (get {K = TaskKey} (provider, task.task_id) s.entries)) [
      | inl gone ↦ inr (gone, ground arith)
      | inr (e, known) ↦ inl (ground arith)
    ]
  ]

  pub finish_idle :
      (key : TaskKey) (status : Status) (s : Supervisor B) (e : Entry B)
      → get key s.entries ≡ some e
      → e.armed ≡ false
      → record s { finished = (key, status) ∷ s.finished } ≡ finish key status s
  unfolding finish
  finish_idle key status s e found idle = ground arith
