-- ===== src/Worker/Consumer.antt =====
-- EmailConsumer, apps/worker/src/consumers/email.consumer.ts: from a queued job to an email.
pub mod Laws
use Prim.Native.String
use mern_auth.Prelude.{
  Bool, true, false, Option, none, some, List, [], ◌∷◌, ◌++◌, String, str_eq, if◌then◌else◌,
}
use mern_auth.Text.{Text}
use mern_auth.Errors.{ErrorDetail, invalid_job_data, unknown_job_type, email_dispatch_error}
use mern_auth.Exec.{Exec, pure, throw, try_catch, ◌>>◌}
use mern_auth.Email.Service.{Mailer, EmailUser, send_verification_email}
use mern_auth.Queue.{Payload}
use mern_auth.Queue.Producer.{EmailJobData}

pub record JobResult : Type 0 where
  pub success : Bool
  pub message : String

abbrev pub email_sent : JobResult
email_sent = record { success = true; message = "Email sent successfully" }

abbrev required : String → ErrorDetail
required field = record { field = field; message = "is required"; count = none }

-- The fields that are not there.
abbrev pub missing {ℓ} : {A : Type ℓ} → String → Option A → List ErrorDetail
missing field none = required field ∷ []
missing field (some a) = []

abbrev pub locale_of : Option String → String
locale_of none = "en"
locale_of (some locale) = locale

abbrev pub type_text : Option String → String
type_text none = "unknown"
type_text (some t) = t

-- WORKER_ERRORS.UNKNOWN_JOB_TYPE with the type in it.
abbrev pub unknown_text : Option String → String
unknown_text t = String.◌++◌ "Unknown job type received: " (type_text t)

abbrev pub is_verification : Option String → Bool
is_verification none = false
is_verification (some t) = str_eq t "sendVerificationEmail"

module _ {S : Type 0} (mailer : Mailer S) where
  unfoldable pub dispatch : EmailUser → Text → EmailJobData → Exec S JobResult
  dispatch user token job_data = do
    try_catch
        (do
          send_verification_email mailer user token (locale_of job_data.locale)
              job_data.preferred_provider
          pure tt)
        (λ e. throw (email_dispatch_error "Email dispatch failed" e))
    pure email_sent

  abbrev pub with_fields : Option EmailUser → Option Text → EmailJobData → Exec S JobResult
  with_fields (some user) (some token) job_data = dispatch user token job_data
  with_fields user token job_data = throw (
      invalid_job_data "Job data is missing required fields"
        (missing "user" user ++ missing "token" token))

  unfoldable pub handle_verification_email : EmailJobData → Exec S JobResult
  unfolding dispatch
  handle_verification_email job_data = with_fields job_data.user job_data.token job_data

  -- UnknownJobTypeError takes the type first and the message second.
  unfoldable pub process : Payload EmailJobData → Exec S JobResult
  unfolding handle_verification_email
  process job =
      if is_verification job.type_name
      then handle_verification_email job.job_data
      else throw (unknown_job_type (unknown_text job.type_name) (type_text job.type_name))
