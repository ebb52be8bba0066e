-- ===== src/Api/Health.antt =====
-- The health endpoints: HealthController of apps/api/src/features/health/health.controller.ts and the
-- handlers of health.handlers.ts. The pings run one after the other, where the source starts them
-- together; latencies, time stamps, messages and logging are left out.
pub mod Probes
use mern_auth.Prelude.{ℕ, String, Bool, true, false, ◌&&◌, Option, none, some, if◌then◌else◌}
use mern_auth.Errors.{message}
use mern_auth.Text.{codes, text_eq}
use mern_auth.Exec.{Exec, returned, raised, pure, try_catch, ◌>>=◌}
use mern_auth.Cache.{Reply, bulk}
use mern_auth.Bootstrap.{BootstrapHealth, check_bootstrap_health}

pub data ServiceStatus : Type 0 where
  up down : ServiceStatus

pub record Services : Type 0 where
  pub mongodb : ServiceStatus
  pub ready_state : ℕ
  pub redis : ServiceStatus
  pub connection_status : String

-- The answer of checkHealth, with the services unless something threw.
pub record HealthReply : Type 0 where
  pub code : ℕ
  pub status : String
  pub services : Option Services

abbrev pub is_up : ServiceStatus → Bool
is_up up = true
is_up down = false

abbrev pub status_of : Bool → ServiceStatus
status_of b = if b then up else down

-- The reply PONG.
unfoldable pub is_pong : Option Reply → Bool
is_pong (some (bulk text)) = text_eq text (codes "PONG")
is_pong _ = false

abbrev pub is_true : Option Bool → Bool
is_true none = false
is_true (some b) = b

abbrev pub health_reply : Services → HealthReply
health_reply services =
    if is_up services.mongodb && is_up services.redis
    then record { code = 200; status = "READY"; services = some services }
    else record { code = 503; status = "NOT_READY"; services = some services }

pub data RedisHealth : Type 0 where
  redis_healthy : RedisHealth
  redis_unhealthy : String → RedisHealth

abbrev pub is_redis_healthy : RedisHealth → Bool
is_redis_healthy redis_healthy = true
is_redis_healthy (redis_unhealthy reason) = false

pub record Readiness : Type 0 where
  pub code : ℕ
  pub status : String
  pub redis : RedisHealth
  pub bootstrap : BootstrapHealth

abbrev pub readiness_of : RedisHealth → BootstrapHealth → Readiness
readiness_of redis bootstrap = record {
  code = if is_redis_healthy redis && bootstrap.healthy then 200 else 503;
  status = if is_redis_healthy redis && bootstrap.healthy then "READY" else "NOT_READY";
  redis = redis;
  bootstrap = bootstrap;
}

-- How a promise of Promise.allSettled ends: its value, or none if it was rejected.
unfoldable pub await_settled : {S A : Type 0} → Exec S A → Exec S (Option A)
await_settled m = try_catch (m >>= λ a. pure (some a)) (λ e. pure none)

-- The pings of the database and of Redis, mongoose's readyState and the status of the connection.
module _ {S : Type 0} (db_ping : Exec S Bool) (redis_ping : Exec S Reply) where
  unfoldable pub check_health : (S → ℕ) → (S → String) → Exec S HealthReply
  unfolding await_settled is_pong
  check_health get_ready_state redis_status =
      try_catch
        (do
          database ← await_settled db_ping
          redis ← await_settled redis_ping
          λ s.
              returned
                (health_reply (record {
                  mongodb = status_of (is_true database);
                  ready_state = get_ready_state s;
                  redis = status_of (is_pong redis);
                  connection_status = redis_status s;
                }))
                s)
        (λ e. pure (record { code = 500; status = "ERROR"; services = none }))

  unfoldable pub check_redis : Exec S RedisHealth
  check_redis =
      try_catch (redis_ping >>= λ reply. pure redis_healthy)
        (λ e. pure (redis_unhealthy (message e)))

  -- With what checkBootstrapHealth reads of the email breaker.
  unfoldable pub readiness_handler : Bool → String → Exec S Readiness
  unfolding check_redis check_bootstrap_health
  readiness_handler initialized circuit_state = do
    redis ← check_redis
    bootstrap ← check_bootstrap_health db_ping initialized circuit_state
    pure (readiness_of redis bootstrap)
