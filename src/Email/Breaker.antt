-- ===== src/Email/Breaker.antt =====
-- The circuit breaker of EmailService, packages/email/src/email.service.ts: the options of the
-- constructor, the statistics that the handlers of opossum's events keep, and the health reports.
-- The percentages, opossum's own statistics and the logging are left out.
pub mod Statistics
use mern_auth.Prelude.{
  ℕ, suc, String, Bool, true, false, ◌&&◌, Option, none, some, List, [], ◌∷◌, if◌then◌else◌,
}
use mern_auth.Exec.{Exec, pure, ◌>>=◌}

-- DEFAULT_CIRCUIT_BREAKER_CONFIG and what may override it.
pub record BreakerConfig : Type 0 where
  pub timeout : ℕ
  pub error_threshold_percentage : ℕ
  pub reset_timeout : ℕ
  pub rolling_count_timeout : ℕ
  pub rolling_count_buckets : ℕ
  pub volume_threshold : ℕ
  pub capacity : ℕ

pub record BreakerOverrides : Type 0 where
  pub circuit_breaker_timeout : Option ℕ
  pub circuit_breaker_error_threshold : Option ℕ
  pub circuit_breaker_reset_timeout : Option ℕ
  pub circuit_breaker_volume_threshold : Option ℕ
  pub circuit_breaker_capacity : Option ℕ

abbrev or_default : Option ℕ → ℕ → ℕ
or_default none n = n
or_default (some m) n = m

unfoldable pub circuit_breaker_options : BreakerConfig → BreakerOverrides → BreakerConfig
circuit_breaker_options defaults o = record defaults {
  timeout = or_default o.circuit_breaker_timeout defaults.timeout;
  error_threshold_percentage =
      or_default o.circuit_breaker_error_threshold defaults.error_threshold_percentage;
  reset_timeout = or_default o.circuit_breaker_reset_timeout defaults.reset_timeout;
  volume_threshold = or_default o.circuit_breaker_volume_threshold defaults.volume_threshold;
  capacity = or_default o.circuit_breaker_capacity defaults.capacity;
}

-- CircuitBreakerStats, with times in milliseconds.
pub record BreakerStats : Type 0 where
  pub total_fires : ℕ
  pub total_successes : ℕ
  pub total_failures : ℕ
  pub total_timeouts : ℕ
  pub total_rejects : ℕ
  pub last_state_change : Option ℕ
  pub circuit_open_timestamp : Option ℕ

abbrev pub no_stats : BreakerStats
no_stats = record {
  total_fires = 0;
  total_successes = 0;
  total_failures = 0;
  total_timeouts = 0;
  total_rejects = 0;
  last_state_change = none;
  circuit_open_timestamp = none;
}

-- opossum's events, with the time for those whose handlers read the clock.
pub data BreakerEvent : Type 0 where
  open_event half_open_event close_event : ℕ → BreakerEvent
  success_event failure_event timeout_event reject_event : BreakerEvent

-- The handler of an event.
unfoldable pub on_event : BreakerEvent → BreakerStats → BreakerStats
on_event (open_event now) s = record s {
  circuit_open_timestamp = some now;
  last_state_change = some now;
}
on_event (half_open_event now) s = record s { last_state_change = some now }
on_event (close_event now) s = record s {
  last_state_change = some now;
  circuit_open_timestamp = none;
}
on_event success_event s = record s {
  total_successes = suc s.total_successes;
  total_fires = suc s.total_fires;
}
on_event failure_event s = record s {
  total_failures = suc s.total_failures;
  total_fires = suc s.total_fires;
}
on_event timeout_event s = record s { total_timeouts = suc s.total_timeouts }
on_event reject_event s = record s { total_rejects = suc s.total_rejects }

-- The events that came, the first one in front.
unfoldable pub after_events : List BreakerEvent → BreakerStats → BreakerStats
unfolding on_event
after_events [] s = s
after_events (e ∷ events) s = after_events events (on_event e s)

-- The fields opened and halfOpen of the breaker.
pub record BreakerState : Type 0 where
  pub opened : Bool
  pub is_half_open : Bool

-- The field inMemoryStats, without the rate of successes.
pub record InMemoryStats : Type 0 where
  pub fires : ℕ
  pub successes : ℕ
  pub failures : ℕ
  pub timeouts : ℕ
  pub rejects : ℕ
  pub changed : Option ℕ

pub record CircuitBreakerHealth : Type 0 where
  pub initialized : Bool
  pub state : String
  pub in_memory_stats : Option InMemoryStats

unfoldable pub get_circuit_breaker_health :
    Option BreakerState → BreakerStats → CircuitBreakerHealth
get_circuit_breaker_health none stats = record {
  initialized = false;
  state = "unknown";
  in_memory_stats = none;
}
get_circuit_breaker_health (some breaker) stats = record {
  initialized = true;
  state = if breaker.opened then "open" else if breaker.is_half_open then "half-open" else "closed";
  in_memory_stats = some (record {
    fires = stats.total_fires;
    successes = stats.total_successes;
    failures = stats.total_failures;
    timeouts = stats.total_timeouts;
    rejects = stats.total_rejects;
    changed = stats.last_state_change;
  });
}

pub record EmailServiceHealth (P : Type 0) : Type 0 where
  pub healthy : Bool
  pub circuit_breaker : CircuitBreakerHealth
  pub providers : P

-- getHealth over the health of the providers.
unfoldable pub service_health :
    {S P : Type 0}
    → Exec S P
    → (P → Bool)
    → Option BreakerState
    → BreakerStats
    → Exec S (EmailServiceHealth P)
unfolding get_circuit_breaker_health
service_health provider_health is_healthy breaker stats = do
  providers ← provider_health
  pure (record {
    healthy = (get_circuit_breaker_health breaker stats).initialized && is_healthy providers;
    circuit_breaker = get_circuit_breaker_health breaker stats;
    providers = providers;
  })
