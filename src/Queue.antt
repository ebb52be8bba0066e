-- ===== src/Queue.antt =====
-- Adding jobs to a queue: QueueProducerService of packages/queues/src/queue-producer.service.ts and
-- ProducerService of packages/queues/src/producer.service.ts. BullMQ's queue, opossum's breaker
-- around it and the schema are parameters; tracing, metrics and logging are left out.
pub mod Producer
pub mod Lifecycle
use mern_auth.Prelude.{if◌then◌else◌, ℕ, String, Bool, true, false, Option, none, some, List}
use mern_auth.Errors.{
  Error, ErrorDetail, queue_error, validation_error, circuit_breaker_error, open_breaker,
}
use mern_auth.Text.{Text}
use mern_auth.Exec.{Exec, pure, throw, try_catch, ◌>>=◌, ◌>>◌}

pub record Backoff : Type 0 where
  pub type_name : String
  pub delay : ℕ

-- JobsOptions, as far as the two services name them; the retention limits by their counts.
pub record JobOptions : Type 0 where
  pub job_id : Option Text
  pub delay : Option ℕ
  pub attempts : Option ℕ
  pub backoff : Option Backoff
  pub priority : Option ℕ
  pub remove_on_complete : Option ℕ
  pub remove_on_fail : Option ℕ

abbrev pub no_options : JobOptions
no_options = record {
  job_id = none;
  delay = none;
  attempts = none;
  backoff = none;
  priority = none;
  remove_on_complete = none;
  remove_on_fail = none;
}

abbrev pub default_job_options : JobOptions
default_job_options = record {
  job_id = none;
  delay = none;
  attempts = some 3;
  backoff = some (record { type_name = "exponential"; delay = 5000 });
  priority = none;
  remove_on_complete = some 1000;
  remove_on_fail = some 5000;
}

abbrev pub first {ℓ} : {A : Type ℓ} → Option A → Option A → Option A
first none b = b
first (some a) b = some a

-- { ...defaults, ...custom }
unfoldable pub with_defaults : JobOptions → JobOptions → JobOptions
with_defaults defaults custom = record {
  job_id = first custom.job_id defaults.job_id;
  delay = first custom.delay defaults.delay;
  attempts = first custom.attempts defaults.attempts;
  backoff = first custom.backoff defaults.backoff;
  priority = first custom.priority defaults.priority;
  remove_on_complete = first custom.remove_on_complete defaults.remove_on_complete;
  remove_on_fail = first custom.remove_on_fail defaults.remove_on_fail;
}

-- What a job of the queue carries: { type, data }.
pub record Payload (A : Type 0) : Type 0 where
  pub type_name : Option String
  pub job_data : A

-- BullMQ's Job, as it comes back from the queue.
pub record Job (A : Type 0) : Type 0 where
  pub id : Option Text
  pub name : String
  pub job_data : Payload A

abbrev pub Add : Type 0 → Type 0 → Type 0
Add S A = String → Payload A → JobOptions → Exec S (Job A)

-- The fields of a QueueProducerService. A schema gives the issues of what it refuses.
pub record QueueService (S A : Type 0) : Type 0 where
  pub queue_name : String
  pub default_options : JobOptions
  pub job_schema : Option (Payload A → Option (List ErrorDetail))
  pub enable_circuit_breaker : Bool
  pub queue : Option (Add S A)
  pub circuit_breaker : Option (Add S A)

abbrev pub issues_of :
    {A : Type 0}
    → Option (Payload A → Option (List ErrorDetail))
    → Payload A
    → Option (List ErrorDetail)
issues_of none job_data = none
issues_of (some schema) job_data = schema job_data

abbrev pub reject_issues : {S : Type 0} → Option (List ErrorDetail) → Exec S (Unit {0})
reject_issues none = pure tt
reject_issues (some issues) = throw (validation_error issues "Invalid job data")

-- The catch around the call.
unfoldable pub queue_failure : Error → Error
queue_failure open_breaker =
    circuit_breaker_error "Queue service temporarily unavailable. Please try again later."
queue_failure e = e

module _ {S A : Type 0} where
  -- initialize, with BullMQ's queue and with the breaker that opossum makes around a call.
  unfoldable pub initialize : Add S A → (Add S A → Add S A) → QueueService S A → QueueService S A
  initialize add protect q = record q {
    queue = some add;
    circuit_breaker = if q.enable_circuit_breaker then some (protect add) else q.circuit_breaker;
  }

  -- The queue behind its breaker, if there is one.
  abbrev pub guarded : Bool → Option (Add S A) → Add S A → Add S A
  guarded true (some fire) add = fire
  guarded true none add = add
  guarded false breaker add = add

  abbrev pub add_to :
      Option (Add S A) → QueueService S A → String → Payload A → JobOptions → Exec S (Job A)
  add_to none q name job_data custom =
      throw (queue_error q.queue_name "Queue not initialized. Call initialize() first.")
  add_to (some add) q name job_data custom = do
    reject_issues (issues_of q.job_schema job_data)
    try_catch
        (guarded q.enable_circuit_breaker q.circuit_breaker add name job_data
          (with_defaults q.default_options custom))
        (λ e. throw (queue_failure e))

  unfoldable pub add_job : QueueService S A → String → Payload A → JobOptions → Exec S (Job A)
  unfolding with_defaults queue_failure
  add_job q name job_data custom = add_to q.queue q name job_data custom
