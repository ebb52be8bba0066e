-- ===== src/Queue/Producer.antt =====
-- ProducerService, packages/queues/src/producer.service.ts, as the queue that the registration is
-- given.
pub mod Laws
use mern_auth.Prelude.{ℕ, String, Option, none, some}
use mern_auth.Text.{Text}
use mern_auth.Exec.{Exec, pure, ◌>>=◌}
use mern_auth.Email.Service.{EmailUser}
use mern_auth.Auth.{VerificationJob, QueueProducer}
use mern_auth.Queue.{JobOptions, no_options, Payload, QueueService, add_job}

-- The contract's QueueJob.
pub record QueueJob (A : Type 0) : Type 0 where
  pub id : Option Text
  pub name : String
  pub job_data : Payload A
  pub opts : JobOptions

-- toBullMqOptions: the seven options that are defined.
unfoldable pub to_bull_mq_options : JobOptions → JobOptions
to_bull_mq_options options = record {
  job_id = options.job_id;
  delay = options.delay;
  attempts = options.attempts;
  backoff = options.backoff;
  priority = options.priority;
  remove_on_complete = options.remove_on_complete;
  remove_on_fail = options.remove_on_fail;
}

module _ {S A : Type 0} (service : QueueService S A) where
  unfoldable pub produce : String → A → JobOptions → Exec S (QueueJob A)
  unfolding to_bull_mq_options
  produce job_type job_data custom = do
    job ←
        add_job service job_type (record { type_name = some job_type; job_data = job_data })
          (to_bull_mq_options custom)
    pure (record { id = job.id; name = job.name; job_data = job.job_data; opts = custom })

  unfoldable pub produce_with_deduplication : String → A → Text → JobOptions → Exec S (QueueJob A)
  produce_with_deduplication job_type job_data key custom =
      produce job_type job_data (record custom { job_id = some key })

  unfoldable pub produce_delayed : String → A → ℕ → JobOptions → Exec S (QueueJob A)
  produce_delayed job_type job_data delay custom =
      produce job_type job_data (record custom { delay = some delay })

  unfoldable pub produce_with_priority : String → A → ℕ → JobOptions → Exec S (QueueJob A)
  produce_with_priority job_type job_data priority custom =
      produce job_type job_data (record custom { priority = some priority })

-- EmailJobData
pub record EmailJobData : Type 0 where
  pub user : Option EmailUser
  pub token : Option Text
  pub locale : Option String
  pub preferred_provider : Option String

-- The data that the registration hands over, in the queue's form.
unfoldable pub email_job_data : VerificationJob → EmailJobData
email_job_data v = record {
  user = some (record { id = v.user_id; email = v.email; name = v.name });
  token = some v.token;
  locale = some v.locale;
  preferred_provider = none;
}

module _ {S : Type 0} (service : QueueService S EmailJobData) where
  -- The IQueueProducer of the registration, which names the job by its id.
  unfoldable pub email_producer : QueueProducer S
  unfolding produce email_job_data
  email_producer = record {
    add_job = λ job_type job id. do
      added ← produce service job_type (email_job_data job) (record no_options { job_id = some id })
      pure added.id;
  }
