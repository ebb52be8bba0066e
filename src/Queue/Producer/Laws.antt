-- ===== src/Queue/Producer/Laws.antt =====
-- What the registration's queue does with a job.
use mern_auth.Prelude.{refl, Option, ◌≡◌, none, some, arith}
use mern_auth.Text.{Text}
use mern_auth.Exec.{Outcome, Exec, returned, raised}
use mern_auth.Auth.{VerificationJob}
use mern_auth.Queue.{
  Add, Job, QueueService, add_job, guarded, no_options, queue_failure, issues_of, with_defaults,
}
use mern_auth.Queue.Producer.{EmailJobData, email_job_data, email_producer, produce}

module _ {S : Type 0} (service : QueueService S EmailJobData) where
  -- The call that the service makes for a job of the registration.
  abbrev pub call : Add S EmailJobData → VerificationJob → Text → Exec S (Job EmailJobData)
  call add job id =
      guarded service.enable_circuit_breaker service.circuit_breaker add "sendVerificationEmail"
        (record { type_name = some "sendVerificationEmail"; job_data = email_job_data job })
        (with_defaults service.default_options (record no_options { job_id = some id }))

  -- What the producer answers to a call that ends in this way.
  abbrev pub answered : Outcome S (Job EmailJobData) → Outcome S (Option Text)
  answered (returned added s) = returned added.id s
  answered (raised e s) = raised (queue_failure e) s

  called :
      (add : Add S EmailJobData) (job : VerificationJob) (id : Text) (s : S)
      (o : Outcome S (Job EmailJobData))
      → service.queue ≡ some add
      → issues_of service.job_schema
          (record { type_name = some "sendVerificationEmail"; job_data = email_job_data job })
        ≡ none
      → call add job id s ≡ o
      → (email_producer service).add_job "sendVerificationEmail" job id s ≡ answered o
  unfolding email_producer produce add_job
  called add job id s (returned added s') ready valid h = ground arith
  called add job id s (raised e s') ready valid h = ground arith

  -- With a queue and data that its schema accepts, a job of the registration is added as one of the
  -- type sendVerificationEmail, through the breaker if it is enabled and made, with the job's id
  -- over the service's default options; the answer is the added job's id, and an error comes out as
  -- it is, but for that of an open breaker, which becomes CircuitBreakerError.
  pub email_producer-call :
      (add : Add S EmailJobData) (job : VerificationJob) (id : Text) (s : S)
      → service.queue ≡ some add
      → issues_of service.job_schema
          (record { type_name = some "sendVerificationEmail"; job_data = email_job_data job })
        ≡ none
      → (email_producer service).add_job "sendVerificationEmail" job id s
        ≡ answered (call add job id s)
  email_producer-call add job id s ready valid =
      called add job id s (call add job id s) ready valid refl
