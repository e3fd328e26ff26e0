-- ===== src/Tests/Tasks.antt =====
-- A stored task, and a monitor that runs to the end.
use mm_gateway.Prelude.{
  ℕ, zero, suc, ◌+◌, ◌==◌, eq_iff, String, ◌≡◌, ◌≢◌, refl, true, false, Option, none, some, List,
  [], ◌∷◌, arith, nat_eq, string_eq, triple_eq, pair_eq, option_eq,
}
use mm_gateway.Prelude.Dict
use mm_gateway.Tasks.Store
use mm_gateway.Tasks.Store.{
  TaskRecord, TaskStore, empty_store, get_by_idempotency, guard_lock, list_owned, list_all,
  scope_of,
}
use mm_gateway.Tasks.Store.Index.{
  IsIndexed, empty_store-IsIndexed, put-IsIndexed, get_by_idempotency-put,
}
use mm_gateway.Tasks.Supervisor.{
  new_entry, failed_snapshot, live, Supervisor, Task, Event, Status, running, succeeded, starting,
  polling, closing, answered, raised, new, run, step, start, poll_once, observe, register, finish,
  done,
}
use mm_gateway.Tasks.Supervisor.Wait.{wait_for_terminal, Waited, wait_for_terminal-ends}
use mm_gateway.Tasks.Supervisor.Failing.{three_errors}
use mm_gateway.Tasks.Supervisor.Once.{IsOk, run-IsOk, new-IsOk}
use mm_gateway.Tasks.Supervisor.Final.{seen, run-ended}

pub text_differs : (a b : String) → (a == b) ≡ false → a ≢ b
text_differs a b e same = ground (arith, eq_iff a b)

abbrev pub stored_record : TaskRecord String
stored_record = record {
  task_id = "video_1";
  provider = "b";
  model = "m";
  owner_key_id = "team";
  modality = "video";
  provider_task_id = some "p1";
  created_at = 5;
  metadata = "";
  idempotency_key = some "k";
  request_fingerprint = some "f";
  create_response = some "video_1";
  routing = none;
}

abbrev one_task : TaskStore String
one_task = Store.put stored_record empty_store

one_task-IsIndexed : IsIndexed one_task
one_task-IsIndexed =
    put-IsIndexed stored_record (text_differs "video_1" "" refl) (unfold Store.get Dict.get in refl)
      empty_store-IsIndexed

get_by_idempotency-put_example :
    (Store.get "video_1" one_task ≡ some stored_record)
    × (get_by_idempotency ("team", "video", "k") one_task ≡ some stored_record)
get_by_idempotency-put_example =
    get_by_idempotency-put stored_record empty_store ("team", "video", "k")
      (text_differs "video_1" "" refl) refl

abbrev clip : Status → Task ℕ
clip s = record { task_id = "t1"; status = s; error = none; completed_at = none; body = 0 }

abbrev events : List (Event ℕ)
events =
    starting "b" (clip running) true
    ∷ polling ("b", "t1") raised 1
    ∷ polling ("b", "t1") (answered (clip succeeded)) 2
    ∷ starting "b" (clip running) true
    ∷ polling ("b", "t1") raised 3
    ∷ closing
    ∷ []

run-IsOk_example : IsOk (run events new)
run-IsOk_example = run-IsOk events new new-IsOk

abbrev watched : Supervisor ℕ
watched =
    run (starting "b" (clip running) true ∷ polling ("b", "t1") (answered (clip succeeded)) 2 ∷ [])
      new

finished : seen ("b", "t1") watched ≡ some (clip succeeded, done)
unfolding seen run step start register poll_once observe finish Dict.get Dict.put
finished = refl

run-ended_example : seen ("b", "t1") (run events watched) ≡ some (clip succeeded, done)
run-ended_example =
    run-ended ("b", "t1") (clip succeeded) done (λ e. ground arith) events watched finished

abbrev started : Supervisor ℕ
started = run (starting "b" (clip running) true ∷ []) new

started_entry : Dict.get ("b", "t1") started.entries ≡ some (new_entry (clip running) true)
unfolding run step start register Dict.get Dict.put
started_entry = refl

three_errors_example :
    (seen
        ("b", "t1")
        (run (polling ("b", "t1") raised 1 ∷ polling ("b", "t1") raised 2 ∷ []) started)
      ≡ some (clip running, live))
    × (seen
          ("b", "t1")
          (run
            (polling ("b", "t1") raised 1
              ∷ polling ("b", "t1") raised 2
              ∷ polling ("b", "t1") raised 3
              ∷ [])
            started)
        ≡ some (failed_snapshot (clip running) 3, done))
three_errors_example =
    three_errors ("b", "t1") (new_entry (clip running) true) 1 2 3 started started_entry refl refl

-- The task runs at the first wake-up and has ended at the later ones.
abbrev wakes : ℕ → Supervisor ℕ
wakes zero = started
wakes (suc n) = watched

abbrev ticking : ℕ → ℕ
ticking n = n + 1

wait_for_terminal-ends_example :
    (answer : Option (Task ℕ)) × (wait_for_terminal "t1" "b" wakes ticking 4 0 3 ≡ some answer)
    × Waited "t1" "b" wakes ticking 3 0 answer
wait_for_terminal-ends_example =
    wait_for_terminal-ends "t1" "b" wakes ticking 4 0 3 (λ n. omega arith) (omega arith)
      (omega arith)
