-- ===== src/Queue/Lifecycle.antt =====
-- The rest of QueueProducerService, packages/queues/src/queue-producer.service.ts: metrics, health,
-- pause, resume and close, over BullMQ's queue; and the singleton of packages/queues/src/instance.ts.
pub mod Health
use mern_auth.Prelude.{ℕ, ◌+◌, ◌-◌, String, Bool, true, false, Option, none, some, if◌then◌else◌}
use mern_auth.Errors.{plain, message}
use mern_auth.Exec.{Exec, returned, pure, throw, try_catch, ◌>>=◌, ◌>>◌}

-- BullMQ's queue, without its add.
pub record BullQueue (S : Type 0) : Type 0 where
  pub ping : Exec S (Unit {0})
  pub get_waiting_count : Exec S ℕ
  pub get_active_count : Exec S ℕ
  pub get_completed_count : Exec S ℕ
  pub get_failed_count : Exec S ℕ
  pub get_delayed_count : Exec S ℕ
  pub pause : Exec S (Unit {0})
  pub resume : Exec S (Unit {0})
  pub close : Exec S (Unit {0})

pub record QueueMetrics : Type 0 where
  pub queue_name : String
  pub waiting : ℕ
  pub active : ℕ
  pub completed : ℕ
  pub failed : ℕ
  pub delayed : ℕ
  pub total : ℕ

-- QueueHealthResult, with the state of the breaker if there is one.
pub data QueueHealth : Type 0 where
  healthy_queue : String → ℕ → Option QueueMetrics → Option String → QueueHealth
  unhealthy_queue : String → QueueHealth

abbrev breaker_state : Option Bool → Option String
breaker_state none = none
breaker_state (some opened) = some (if opened then "open" else "closed")

module _ {S : Type 0} (queue_name : String) where
  abbrev pub counted : BullQueue S → Exec S QueueMetrics
  counted queue = do
    waiting ← queue.get_waiting_count
    active ← queue.get_active_count
    completed ← queue.get_completed_count
    failed ← queue.get_failed_count
    delayed ← queue.get_delayed_count
    pure (record {
      queue_name = queue_name;
      waiting = waiting;
      active = active;
      completed = completed;
      failed = failed;
      delayed = delayed;
      total = waiting + active + completed + failed + delayed;
    })

  abbrev pub metrics_of : Option (BullQueue S) → Exec S (Option QueueMetrics)
  metrics_of none = pure none
  metrics_of (some queue) = counted queue >>= λ m. pure (some m)

  unfoldable pub get_metrics : Option (BullQueue S) → Exec S (Option QueueMetrics)
  get_metrics queue = metrics_of queue

  abbrev pub measured : (S → ℕ) → Option Bool → BullQueue S → Exec S QueueHealth
  measured now breaker queue s =
      (do
        queue.ping
        (λ t.
            (get_metrics (some queue) >>= λ m.
            pure (healthy_queue queue_name (now t - now s) m (breaker_state breaker)))
              t))
        s

  abbrev pub health_of : (S → ℕ) → Option Bool → Option (BullQueue S) → Exec S QueueHealth
  health_of now breaker none = pure (unhealthy_queue "Queue not initialized")
  health_of now breaker (some queue) =
      try_catch (measured now breaker queue) (λ e. pure (unhealthy_queue (message e)))

  -- With the clock, and the field opened of the breaker if one is in use.
  unfoldable pub get_health : (S → ℕ) → Option Bool → Option (BullQueue S) → Exec S QueueHealth
  unfolding get_metrics
  get_health now breaker queue = health_of now breaker queue

module _ {S : Type 0} where
  unfoldable pub pause : Option (BullQueue S) → Exec S (Unit {0})
  pause none = pure tt
  pause (some queue) = queue.pause

  unfoldable pub resume : Option (BullQueue S) → Exec S (Unit {0})
  resume none = pure tt
  resume (some queue) = queue.resume

  unfoldable pub close : Option (BullQueue S) → Exec S (Unit {0})
  close none = pure tt
  close (some queue) = queue.close

-- queueServicesInstance: what the module keeps, if anything.
module _ {V C : Type 0} (create_queue_services : C → V) where
  unfoldable pub init_queue_services : C → Exec (Option V) V
  init_queue_services options =
      λ s. returned (create_queue_services options) (some (create_queue_services options))

abbrev not_initialized : String
not_initialized =
    "Queue services not initialized. Call initQueueServices() from @auth/app-bootstrap before using getQueueServices()."

abbrev pub instance_or_error : {V : Type 0} → Option V → Exec (Option V) V
instance_or_error none = throw (plain not_initialized)
instance_or_error (some services) = pure services

unfoldable pub get_queue_services : {V : Type 0} → Exec (Option V) V
get_queue_services s = instance_or_error s s

unfoldable pub reset_queue_services : {V : Type 0} → Exec (Option V) (Unit {0})
reset_queue_services = λ s. returned tt none
