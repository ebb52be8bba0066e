-- ===== src/Worker/Processor.antt =====
-- QueueProcessorService, apps/worker/src/queue-processor.service.ts: the metrics and the
-- dead-letter queue, as the wrapped processor and the event handlers change them. BullMQ decides
-- when these run; logging, Sentry, the telemetry counters and the rates of getMetrics are left out.
pub mod Balance
pub mod DeadLetters
use Prim.Native.String
use mern_auth.Prelude.{
  ℕ, ◌+◌, ◌-◌, ◌*◌, ◌^◌, Bool, true, false, not, ◌&&◌, Option, none, some, List, [], ◌∷◌, String,
  leb, str_eq, if◌then◌else◌,
}
use mern_auth.Text.{Text}
use mern_auth.Queue.{Backoff, Payload}
use mern_auth.Errors.{Error, message}
use mern_auth.Exec.{Exec, Outcome, returned, raised, pure, try_catch, ◌>>=◌}

-- WorkerMetrics, with times in milliseconds.
pub record Metrics : Type 0 where
  pub processed : ℕ
  pub completed : ℕ
  pub failed : ℕ
  pub active : ℕ
  pub total_processing_time : ℕ
  pub last_processed_at : Option ℕ

-- The fields of WorkerConfig that the service itself reads.
pub record WorkerConfig : Type 0 where
  pub attempts : Option ℕ
  pub backoff : Option Backoff

-- BullMQ's job, as a handler gets it.
pub record ActiveJob (A : Type 0) : Type 0 where
  pub name : String
  pub job_data : A
  pub attempts_made : ℕ

-- A processor's fields. `dead_letters` are the calls of deadLetterQueue.add, the last one first;
-- none if there is no dead-letter queue.
pub record Processor (A : Type 0) : Type 0 where
  pub worker_config : WorkerConfig
  pub metrics : Metrics
  pub dead_letters : Option (List (String × A))

abbrev pub default_worker_config : WorkerConfig
default_worker_config = record {
  attempts = some 3;
  backoff = some (record { type_name = "exponential"; delay = 1000 });
}

abbrev pub no_metrics : Metrics
no_metrics = record {
  processed = 0;
  completed = 0;
  failed = 0;
  active = 0;
  total_processing_time = 0;
  last_processed_at = none;
}

abbrev pub config_or_default : Option WorkerConfig → WorkerConfig
config_or_default none = default_worker_config
config_or_default (some config) = config

abbrev pub dead_letter_queue : {A : Type 0} → Option String → Option (List (String × A))
dead_letter_queue none = none
dead_letter_queue (some name) = if str_eq name "" then none else some []

-- The constructor and initialize.
unfoldable pub new_processor : {A : Type 0} → Option WorkerConfig → Option String → Processor A
new_processor config name = record {
  worker_config = config_or_default config;
  metrics = no_metrics;
  dead_letters = dead_letter_queue name;
}

abbrev pub delay_of : Option Backoff → ℕ
delay_of none = 1000
delay_of (some b) = b.delay

abbrev pub is_exponential : Option Backoff → Bool
is_exponential none = false
is_exponential (some b) = str_eq b.type_name "exponential"

-- backoffStrategy
unfoldable pub backoff_strategy : WorkerConfig → ℕ → ℕ
backoff_strategy config attempts_made =
    if is_exponential config.backoff
    then delay_of config.backoff * 2 ^ attempts_made
    else delay_of config.backoff

abbrev pub max_attempts : WorkerConfig → ℕ
max_attempts config = elim config.attempts [ none ↦ 3 | some n ↦ n ]

module _ {A : Type 0} where
  -- The wrapped processor up to its call of the processor function.
  unfoldable pub begin_job : Processor A → Processor A
  begin_job p = record p {
    metrics = record p.metrics {
      active = p.metrics.active + 1;
      processed = p.metrics.processed + 1;
    };
  }

  -- What follows a call that returned, with the time it took and the time it is now.
  unfoldable pub end_job : ℕ → ℕ → Processor A → Processor A
  end_job processing_time now p = record p {
    metrics = record p.metrics {
      total_processing_time = p.metrics.total_processing_time + processing_time;
      last_processed_at = some now;
      active = p.metrics.active - 1;
    };
  }

  -- What follows a call that threw: the finally alone.
  unfoldable pub abort_job : Processor A → Processor A
  abort_job p = record p { metrics = record p.metrics { active = p.metrics.active - 1 } }

  abbrev pub add_dead_letter :
      Bool → ActiveJob A → Option (List (String × A)) → Option (List (String × A))
  add_dead_letter exhausted job none = none
  add_dead_letter true job (some letters) = some ((job.name, job.job_data) ∷ letters)
  add_dead_letter false job (some letters) = some letters

  abbrev pub bury :
      WorkerConfig → Option (ActiveJob A) → Option (List (String × A)) → Option (List (String × A))
  bury config none letters = letters
  bury config (some job) letters =
      add_dead_letter (leb (max_attempts config) job.attempts_made) job letters

  -- The handler of the event failed, whose job may be undefined.
  unfoldable pub on_failed : Option (ActiveJob A) → Processor A → Processor A
  on_failed job p = record p {
    metrics = record p.metrics { failed = p.metrics.failed + 1 };
    dead_letters = bury p.worker_config job p.dead_letters;
  }

  -- The handler of the event completed.
  unfoldable pub on_completed : Processor A → Processor A
  on_completed p = record p { metrics = record p.metrics { completed = p.metrics.completed + 1 } }

pub record Health : Type 0 where
  pub healthy : Bool
  pub queue_name : String
  pub is_running : Option Bool
  pub is_paused : Option Bool
  pub reason : Option String

-- What getHealth asks of BullMQ's worker.
pub record Worker (S : Type 0) : Type 0 where
  pub is_running : Exec S Bool
  pub is_paused : Exec S Bool

abbrev answer : String → Bool → Bool → Health
answer queue_name running paused = record {
  healthy = running && not paused;
  queue_name = queue_name;
  is_running = some running;
  is_paused = some paused;
  reason = none;
}

abbrev unhealthy : String → String → Health
unhealthy queue_name reason = record {
  healthy = false;
  queue_name = queue_name;
  is_running = none;
  is_paused = none;
  reason = some reason;
}

abbrev pub check_worker : {S : Type 0} → String → Option (Worker S) → Exec S Health
check_worker queue_name none = pure (unhealthy queue_name "Worker not initialized")
check_worker queue_name (some worker) =
    try_catch
      (do
        running ← worker.is_running
        paused ← worker.is_paused
        pure (answer queue_name running paused))
      (λ e. pure (unhealthy queue_name (String.◌++◌ "Health check failed: " (message e))))

unfoldable pub get_health : {S : Type 0} → String → Option (Worker S) → Exec S Health
get_health queue_name worker = check_worker queue_name worker

-- The calls of BullMQ's worker and dead-letter queue that the other methods make.
pub record WorkerCalls (S : Type 0) : Type 0 where
  pub pause : Exec S (Unit {0})
  pub resume : Exec S (Unit {0})
  pub close : Exec S (Unit {0})

module _ {S : Type 0} where
  unfoldable pub pause : Option (WorkerCalls S) → Exec S (Unit {0})
  pause none = pure tt
  pause (some worker) = worker.pause

  unfoldable pub resume : Option (WorkerCalls S) → Exec S (Unit {0})
  resume none = pure tt
  resume (some worker) = worker.resume

  abbrev close_worker : Option (WorkerCalls S) → Exec S (Unit {0})
  close_worker none = pure tt
  close_worker (some worker) = worker.close

  abbrev close_queue : Option (Exec S (Unit {0})) → Exec S (Unit {0})
  close_queue none = pure tt
  close_queue (some close_letters) = close_letters

  -- The worker first, then the dead-letter queue, by the call that closes it.
  unfoldable pub close : Option (WorkerCalls S) → Option (Exec S (Unit {0})) → Exec S (Unit {0})
  close worker letters = close_worker worker >>= λ u. close_queue letters
