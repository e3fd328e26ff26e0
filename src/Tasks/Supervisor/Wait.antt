-- ===== src/Tasks/Supervisor/Wait.antt =====
-- `wait_for_terminal` of mm_gateway/tasks/supervisor.py: a loop that looks at the cached state at each
-- wake-up, until the task has ended or the deadline has passed. `wakes` are the supervisor's states and
-- `clock` the readings of the monotonic clock, in milliseconds, at the wake-ups; what other steps do in
-- between is in the states. Every sleep lasts at least the poll interval. With an interval of at least
-- a millisecond, as many wake-ups as the timeout has milliseconds, and one more, are enough fuel.
use mm_gateway.Prelude.{
  ℕ, zero, suc, ◌+◌, ◌≤◌, ◌<◌, String, ◌≡◌, ◌∙◌, ◌⊎◌, inl, inr, refl, subst, Bool, true, false,
  Option, none, some, arith, ltb, Bool-cases, if◌then◌else◌,
}
use mm_gateway.Tasks.Supervisor.{Supervisor, Task, snapshot, terminal}

module _ {B : Type 0} (task_id provider : String) (wakes : ℕ → Supervisor B) (clock : ℕ → ℕ) where
  abbrev pub cached : ℕ → Option (Task B)
  cached i = snapshot task_id (some provider) (wakes i)

  -- task is None or task.status in TERMINAL_STATUSES
  abbrev pub is_over : Option (Task B) → Bool
  is_over none = true
  is_over (some t) = terminal t.status

  -- Without fuel there is no result.
  unfoldable pub wait : ℕ → ℕ → ℕ → Option (Option (Task B))
  wait zero deadline i = none
  wait (suc fuel) deadline i =
      let later = wait fuel deadline (i + 1) in
      if ltb (clock i) deadline
      then if is_over (cached i) then some (cached i) else later
      else some (cached i)

  -- `start` is the clock when the waiting begins.
  unfoldable pub wait_for_terminal : ℕ → ℕ → ℕ → Option (Option (Task B))
  unfolding wait
  wait_for_terminal fuel start timeout = wait fuel (start + timeout) 0

  -- What it answers: the state at some wake-up, at which the task had ended or the deadline had passed, and
  -- from `i` up to which neither was so.
  abbrev pub Waited : ℕ → ℕ → Option (Task B) → Type 0
  Waited deadline i answer =
      (k : ℕ) × (answer ≡ cached k)
      × ((is_over (cached k) ≡ true) ⊎ (deadline ≤ clock k))
      × ((j : ℕ) → i ≤ j → j < k → (is_over (cached j) ≡ false) × (clock j < deadline))

  abbrev pub Ends : ℕ → ℕ → ℕ → Type 0
  Ends fuel deadline i =
      (answer : Option (Task B)) × (wait fuel deadline i ≡ some answer) × Waited deadline i answer

  nothing_before :
      (i deadline : ℕ)
      → (j : ℕ) → i ≤ j
      → j < i
      → (is_over (cached j) ≡ false) × (clock j < deadline)
  nothing_before i deadline j h k = absurd (omega (arith, h, k))

  from_here :
      (i deadline k : ℕ)
      → is_over (cached i) ≡ false
      → clock i < deadline
      → ((j : ℕ) → i + 1 ≤ j → j < k → (is_over (cached j) ≡ false) × (clock j < deadline))
      → (j : ℕ) → i ≤ j
      → j < k
      → (is_over (cached j) ≡ false) × (clock j < deadline)
  from_here i deadline k going early later j h below = elim (Bool-cases (ltb i j)) [
    | inl after ↦ later j (ground arith) below
    | inr not_after ↦
        let same : i ≡ j = ground arith in
        subst (λ n. (is_over (cached n) ≡ false) × (clock n < deadline)) same (going, early)
  ]

  wait_now :
      (fuel deadline i : ℕ)
      → (is_over (cached i) ≡ true) ⊎ (deadline ≤ clock i)
      → wait (suc fuel) deadline i ≡ some (cached i)
  unfolding wait
  wait_now fuel deadline i (inl ended) = ground arith
  wait_now fuel deadline i (inr late) = ground arith

  wait_on :
      (fuel deadline i : ℕ)
      → is_over (cached i) ≡ false
      → clock i < deadline
      → wait (suc fuel) deadline i ≡ wait fuel deadline (i + 1)
  unfolding wait
  wait_on fuel deadline i going early = ground arith

  wait-Ends :
      (fuel deadline i : ℕ)
      → ((n : ℕ) → clock n < clock (n + 1))
      → 1 ≤ fuel
      → deadline < clock i + fuel
      → Ends fuel deadline i
  wait-Ends zero deadline i ticks some_fuel enough = absurd (omega (arith, some_fuel))
  wait-Ends (suc fuel) deadline i ticks some_fuel enough =
      elim (Bool-cases (ltb (clock i) deadline)) [
        | inr past ↦
            let late : deadline ≤ clock i = ground arith in
            (
              cached i,
              wait_now fuel deadline i (inr late),
              (i, refl, inr late, nothing_before i deadline),
            )
        | inl before ↦
            let early : clock i < deadline = ground arith in
            elim (Bool-cases (is_over (cached i))) [
              | inl ended ↦ (
                cached i,
                wait_now fuel deadline i (inl ended),
                (i, refl, inl ended, nothing_before i deadline),
              )
              | inr going ↦
                  let (answer, got, (k, at, why, rest)) =
                    wait-Ends fuel deadline (i + 1) ticks (omega (arith, early, enough))
                      (omega (arith, ticks i, enough)) in
                  (
                    answer,
                    wait_on fuel deadline i going early ∙ got,
                    (k, at, why, from_here i deadline k going early rest),
                  )
            ]
      ]

  -- Waiting for a task ends: if the clock moves on by at least a millisecond between wake-ups,
  -- there is an answer after at most one wake-up more than the timeout has milliseconds. The answer
  -- is the cached state at the first wake-up at which the task has ended (or is unknown) or the
  -- deadline has passed.
  pub wait_for_terminal-ends :
      (fuel start timeout : ℕ)
      → ((n : ℕ) → clock n < clock (n + 1))
      → start ≤ clock 0
      → timeout < fuel
      → (answer : Option (Task B)) × (wait_for_terminal fuel start timeout ≡ some answer)
        × Waited (start + timeout) 0 answer
  unfolding wait_for_terminal
  wait_for_terminal-ends fuel start timeout ticks begun enough =
      wait-Ends fuel (start + timeout) 0 ticks (omega (arith, enough))
        (omega (arith, enough, begun))
