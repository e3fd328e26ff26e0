-- ===== src/Tasks/Supervisor.antt =====
-- mm_gateway/tasks/supervisor.py: the background monitor of one modality. Code between two awaits is one
-- step: registering a task, one poll's outcome, one monitor's cancellation, and closing. The provider's
-- answers and the order of the steps are given by a list of events. Logging is left out; the callbacks
-- and the "finished" metric are recorded in `calls` and `finished`, the latest first.
pub mod Rounds
pub mod Once
pub mod Final
pub mod Failing
pub mod Wait
use mm_gateway.Prelude.{
  ℕ, ◌+◌, String, ◌≡◌, Bool, true, false, Option, none, some, List, [], ◌∷◌, map, leb, ◌==◌,
  string_eq, pair_eq, if◌then◌else◌, length, keep,
}
use mm_gateway.Prelude.Dict
use mm_gateway.Prelude.Dict.{Dict}

pub data Status : Type 0 where
  pending running succeeded failed cancelled expired : Status

abbrev pub terminal : Status → Bool
terminal pending = false
terminal running = false
terminal _ = true

abbrev pub max_consecutive_poll_errors : ℕ
max_consecutive_poll_errors = 3

-- (provider, task id)
abbrev pub TaskKey : Type 0
TaskKey = String × String

-- A unified task: `B` stands for its media and its other fields.
pub record Task (B : Type 0) : Type 0 where
  pub task_id : String
  pub status : Status
  pub error : Option String
  pub completed_at : Option ℕ
  pub body : B

pub data Monitor : Type 0 where
  absent live done : Monitor

pub record Entry (B : Type 0) : Type 0 where
  pub snapshot : Task B
  pub monitor : Monitor
  pub consecutive_errors : ℕ
  -- there is an `on_terminal` that has not been called
  pub armed : Bool

pub record Supervisor (B : Type 0) : Type 0 where
  pub entries : Dict TaskKey (Entry B)
  pub closed : Bool
  pub calls : List (TaskKey × Task B)
  pub finished : List (TaskKey × Status)

-- What `await entry.poll()` does.
pub data Poll (B : Type 0) : Type 0 where
  answered : Task B → Poll B
  raised : Poll B

pub data Started : Type 0 where
  supervisor_closed already_known registered : Started

pub data Event (B : Type 0) : Type 0 where
  starting : String → Task B → Bool → Event B
  polling : TaskKey → Poll B → ℕ → Event B
  cancelling : TaskKey → Event B
  closing : Event B

module _ {B : Type 0} where
  abbrev pub new : Supervisor B
  new = record { entries = []; closed = false; calls = []; finished = [] }

  abbrev pub failed_snapshot : Task B → ℕ → Task B
  failed_snapshot t now = record t {
    status = failed;
    error = some "Provider status polling failed repeatedly.";
    completed_at = some now;
  }

  -- `_finish`: the callback is taken out before it is called, whether or not it raises.
  unfoldable pub finish : TaskKey → Status → Supervisor B → Supervisor B
  finish key status s = elim (Dict.get key s.entries) [
    | none ↦ record s { finished = (key, status) ∷ s.finished }
    | some e ↦
        if e.armed
        then record s {
          entries = Dict.put key (record e { armed = false }) s.entries;
          calls = (key, e.snapshot) ∷ s.calls;
          finished = (key, status) ∷ s.finished;
        }
        else record s { finished = (key, status) ∷ s.finished }
  ]

  abbrev pub new_entry : Task B → Bool → Entry B
  new_entry task callback = record {
    snapshot = task;
    monitor = if terminal task.status then absent else live;
    consecutive_errors = 0;
    armed = callback;
  }

  -- A task that is already terminal is finished at once and gets no monitor.
  unfoldable pub register : TaskKey → Task B → Bool → Supervisor B → Supervisor B
  register key task callback s =
      let s' = record s { entries = Dict.put key (new_entry task callback) s.entries } in
      if terminal task.status then finish key task.status s' else s'

  -- `start`: a closed supervisor raises, a known task keeps its monitor.
  unfoldable pub start : String → Task B → Bool → Supervisor B → Supervisor B × Started
  start provider task callback s =
      if s.closed
      then (s, supervisor_closed)
      else elim (Dict.get (provider, task.task_id) s.entries) [
        | some e ↦ (s, already_known)
        | none ↦ (register (provider, task.task_id) task callback s, registered)
      ]

  -- One round of `_monitor` for a live entry.
  unfoldable pub observe : TaskKey → Entry B → Poll B → ℕ → Supervisor B → Supervisor B
  observe key e raised now s =
      let errors = e.consecutive_errors + 1 in
      let last = record e {
        consecutive_errors = errors;
        snapshot = failed_snapshot e.snapshot now;
        monitor = done;
      } in
      if leb max_consecutive_poll_errors errors
      then finish key failed (record s { entries = Dict.put key last s.entries })
      else record s { entries = Dict.put key (record e { consecutive_errors = errors }) s.entries }
  observe key e (answered latest) now s =
      let e' = record e { consecutive_errors = 0; snapshot = latest } in
      if terminal latest.status
      then finish key latest.status
          (record s { entries = Dict.put key (record e' { monitor = done }) s.entries })
      else record s { entries = Dict.put key e' s.entries }

  -- A monitor that has ended, or was never started, polls nothing.
  abbrev pub if_live : Monitor → Supervisor B → Supervisor B → Supervisor B
  if_live live s' s = s'
  if_live absent s' s = s
  if_live done s' s = s

  unfoldable pub poll_once : TaskKey → Poll B → ℕ → Supervisor B → Supervisor B
  poll_once key answer now s = elim (Dict.get key s.entries) [
    | none ↦ s
    | some e ↦ if_live e.monitor (observe key e answer now s) s
  ]

  -- CancelledError in a live monitor that has begun: the metric is recorded, and no callback runs.
  unfoldable pub cancel : TaskKey → Supervisor B → Supervisor B
  cancel key s = elim (Dict.get key s.entries) [
    | none ↦ s
    | some e ↦
        if_live e.monitor
          (record s {
            entries = Dict.put key (record e { monitor = done }) s.entries;
            finished = (key, cancelled) ∷ s.finished;
          })
          s
  ]

  unfoldable pub cancel_all : List TaskKey → Supervisor B → Supervisor B
  unfolding cancel
  cancel_all [] s = s
  cancel_all (k ∷ ks) s = cancel_all ks (cancel k s)

  -- `aclose` cancels and joins every live monitor.
  unfoldable pub aclose : Supervisor B → Supervisor B
  unfolding cancel_all
  aclose s = cancel_all (map (λ e. e.0) s.entries) (record s { closed = true })

  -- `snapshot`: by provider and id, or by an id that one provider has.
  unfoldable pub snapshot : String → Option String → Supervisor B → Option (Task B)
  snapshot task_id (some provider) s = elim (Dict.get (provider, task_id) s.entries) [
    | none ↦ none
    | some e ↦ some e.snapshot
  ]
  snapshot task_id none s = elim (keep (λ e. e.0.1 == task_id) s.entries) [
    | [] ↦ none
    | (key, e) ∷ rest ↦ elim rest [ [] ↦ some e.snapshot | x ∷ xs ↦ none ]
  ]

  unfoldable pub step : Event B → Supervisor B → Supervisor B
  unfolding start poll_once cancel aclose
  step (starting provider task callback) s = (start provider task callback s).0
  step (polling key answer now) s = poll_once key answer now s
  step (cancelling key) s = cancel key s
  step closing s = aclose s

  unfoldable pub run : List (Event B) → Supervisor B → Supervisor B
  unfolding step
  run [] s = s
  run (e ∷ es) s = run es (step e s)
