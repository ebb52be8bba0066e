-- ===== src/Email/Breaker/Statistics.antt =====
-- What the statistics count.
use mern_auth.Prelude.{
  ℕ, ◌+◌, ◌≡◌, refl, Option, none, some, List, [], ◌∷◌, Bool, true, false, arith, if◌then◌else◌,
}
use mern_auth.Email.Breaker.{
  BreakerStats, BreakerEvent, open_event, close_event, success_event, failure_event, timeout_event,
  reject_event, on_event, after_events,
}

abbrev pub is_success : BreakerEvent → Bool
is_success success_event = true
is_success _ = false

abbrev pub is_failure : BreakerEvent → Bool
is_failure failure_event = true
is_failure _ = false

abbrev pub is_timeout : BreakerEvent → Bool
is_timeout timeout_event = true
is_timeout _ = false

abbrev pub is_reject : BreakerEvent → Bool
is_reject reject_event = true
is_reject _ = false

-- The number of events of a kind.
abbrev pub count : (BreakerEvent → Bool) → List BreakerEvent → ℕ
count kind [] = 0
count kind (e ∷ events) = (if kind e then 1 else 0) + count kind events

-- The time of the last opening that no closing follows.
abbrev pub open_since : Option ℕ → List BreakerEvent → Option ℕ
open_since since [] = since
open_since since (open_event now ∷ events) = open_since (some now) events
open_since since (close_event now ∷ events) = open_since none events
open_since since (_ ∷ events) = open_since since events

-- The statistics after some events, from those before.
pub record Counts (events : List BreakerEvent) (s s' : BreakerStats) : Type 0 where
  pub successes : s'.total_successes ≡ s.total_successes + count is_success events
  pub failures : s'.total_failures ≡ s.total_failures + count is_failure events
  pub timeouts : s'.total_timeouts ≡ s.total_timeouts + count is_timeout events
  pub rejects : s'.total_rejects ≡ s.total_rejects + count is_reject events
  pub fires :
      s'.total_fires + s.total_successes + s.total_failures
      ≡ s.total_fires + s'.total_successes + s'.total_failures
  pub opening : s'.circuit_open_timestamp ≡ open_since s.circuit_open_timestamp events

counted :
    (e : BreakerEvent) (events : List BreakerEvent) (s s' : BreakerStats)
    → Counts events (on_event e s) s'
    → Counts (e ∷ events) s s'
unfolding on_event
counted e events s s' h = record {
  successes = ground (arith, h.successes);
  failures = ground (arith, h.failures);
  timeouts = ground (arith, h.timeouts);
  rejects = ground (arith, h.rejects);
  fires = ground (arith, h.fires);
  opening = ground (arith, h.opening);
}

-- After any sequence of events, each total has grown by the number of its events, the fires by the
-- successes and the failures together, and the breaker's opening time is that of the last opening
-- if no closing followed.
pub after_events-Counts :
    (events : List BreakerEvent) (s : BreakerStats) → Counts events s (after_events events s)
unfolding after_events
after_events-Counts [] s = record {
  successes = omega arith;
  failures = omega arith;
  timeouts = omega arith;
  rejects = omega arith;
  fires = omega arith;
  opening = refl;
}
after_events-Counts (e ∷ events) s =
    counted e events s (after_events events (on_event e s))
      (after_events-Counts events (on_event e s))
