-- ===== src/Tests/Selection.antt =====
-- A candidate that answers with a rate limit, and another that does not.
use mm_gateway.Prelude.{
  ℕ, ◌+◌, ◌-◌, ◌*◌, ◌≡◌, refl, true, false, none, some, List, [], ◌∷◌, arith, nat_eq, string_eq,
  quadruple_eq,
}
use mm_gateway.Prelude.Dict
use mm_gateway.Prelude.Int.{pos}
use mm_gateway.Selection.{
  HealthKey, SelectionStore, Observation, Event, observing, cooling, observe, run, Outcome,
  decay_into,
}
use mm_gateway.Selection.Health.{
  health_score, health, report, score_of, IsNearShare, score_limited, score_bounded,
}

abbrev here_key : HealthKey
here_key = ("a", "default", "m", "video")

abbrev other_key : HealthKey
other_key = ("b", "default", "m", "video")

abbrev empty_store : SelectionStore ℕ
empty_store = record { records = []; rate_limit_cooldown = 60000 }

abbrev limited : Observation
limited = record { success = false; latency = some 900; rate_limited = true; cooldown = none }

abbrev good : Observation
good = record { success = true; latency = some 800; rate_limited = false; cooldown = none }

abbrev halve : ℕ → ℕ → ℕ
halve elapsed mass = mass - 1

abbrev more : ℕ → ℕ
more n = n + 1

abbrev blend : ℕ → ℕ → ℕ
blend old sample = sample

abbrev later_events : List (Event × ℕ)
later_events = (observing here_key good, 2000) ∷ (cooling here_key (some (pos 5)), 3000) ∷ []

-- Masses are whole attempts here.
abbrev amount : ℕ → ℕ
amount mass = mass * 1000000

score_limited_example :
    (health_score 0 more halve blend amount here_key 60999 (
      run 0 more halve blend later_events
        (observe 0 more halve blend here_key limited 1000 empty_store))).1
    ≡ 0
score_limited_example =
    score_limited 0 more halve blend amount here_key limited 1000 60999 later_events empty_store
      refl (omega arith)

-- Four successes and two failures, one of each forgotten by the time of the question.
abbrev seasoned : Outcome ℕ
seasoned = record {
  success_mass = 4;
  failure_mass = 2;
  rate_limited_mass = 0;
  latency_ewma = some 2000;
  cooldown_until = 3;
  last = 4;
}

abbrev seasoned_store : SelectionStore ℕ
seasoned_store = record empty_store { records = (other_key, seasoned) ∷ [] }

score_bounded_example :
    IsNearShare 3000000 1000000
      (health_score 0 more halve blend amount other_key 5 seasoned_store).1
unfolding decay_into Dict.get
score_bounded_example =
    score_bounded 0 more halve blend amount other_key 5 seasoned_store seasoned refl (omega arith)
      (omega arith)

seasoned_score : (health_score 0 more halve blend amount other_key 5 seasoned_store).1 ≡ 7650000
unfolding health_score health report score_of decay_into Dict.get
seasoned_score = refl
