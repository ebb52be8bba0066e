-- ===== src/Worker/Consumer/Laws.antt =====
-- What a job's end says of its email.
use mern_auth.Prelude.{◌≡◌, refl, ◌⊎◌, inl, inr, false, Option, none, some, arith, Bool-cases}
use mern_auth.Text.{Text}
use mern_auth.Errors.{Error, email_dispatch_error, unknown_job_type}
use mern_auth.Exec.{Exec, Outcome, returned, raised}
use mern_auth.Email.Service.{Mailer, EmailUser, SentEmail, send_verification_email}
use mern_auth.Auth.{VerificationJob}
use mern_auth.Queue.{Payload}
use mern_auth.Queue.Producer.{EmailJobData, email_job_data}
use mern_auth.Worker.Consumer.{
  JobResult, email_sent, is_verification, locale_of, dispatch, handle_verification_email, process,
  with_fields, unknown_text, type_text,
}

module _ {S : Type 0} (mailer : Mailer S) where
  -- The email of a job with this user and this token.
  abbrev pub email_of : EmailUser → Text → EmailJobData → Exec S SentEmail
  email_of user token job_data =
      send_verification_email mailer user token (locale_of job_data.locale)
        job_data.preferred_provider

  fields_missing :
      (user : Option EmailUser) (token : Option Text) (d : EmailJobData) (s : S)
      → (user ≡ none) ⊎ (token ≡ none)
      → (e : Error) × (with_fields mailer user token d s ≡ raised e s)
  fields_missing none none d s why = (_, refl)
  fields_missing none (some token) d s why = (_, refl)
  fields_missing (some user) none d s why = (_, refl)
  fields_missing (some user) (some token) d s (inl e) = cc
  fields_missing (some user) (some token) d s (inr e) = cc

  dispatched :
      (user : EmailUser) (token : Text) (d : EmailJobData) (r : JobResult) (s s' : S)
      (o : Outcome S SentEmail)
      → email_of user token d s ≡ o
      → dispatch mailer user token d s ≡ returned r s'
      → (sent : SentEmail) × (email_of user token d s ≡ returned sent s')
  unfolding dispatch
  dispatched user token d r s s' (returned sent t) e h = (sent, ground arith)
  dispatched user token d r s s' (raised x t) e h = ground arith

  fields_given :
      (user : Option EmailUser) (token : Option Text) (d : EmailJobData) (r : JobResult) (s s' : S)
      → with_fields mailer user token d s ≡ returned r s'
      → (u : EmailUser) × (t : Text) × (sent : SentEmail) × (user ≡ some u)
        × (token ≡ some t)
        × (email_of u t d s ≡ returned sent s')
  fields_given none none d r s s' h = ground arith
  fields_given none (some token) d r s s' h = ground arith
  fields_given (some user) none d r s s' h = ground arith
  fields_given (some user) (some token) d r s s' h =
      let (sent, e) = dispatched user token d r s s' (email_of user token d s) refl h in
      (user, token, sent, refl, refl, e)

  refused :
      (job : Payload EmailJobData) (s : S)
      → is_verification job.type_name ≡ false
      → (e : Error) × (process mailer job s ≡ raised e s)
  unfolding process
  refused job s other =
      (unknown_job_type (unknown_text job.type_name) (type_text job.type_name), ground arith)

  -- A job of another type, or one that lacks its user or its token, fails without touching
  -- anything.
  pub process_rejects :
      (job : Payload EmailJobData) (s : S)
      → (is_verification job.type_name ≡ false)
        ⊎ ((job.job_data.user ≡ none) ⊎ (job.job_data.token ≡ none))
      → (e : Error) × (process mailer job s ≡ raised e s)
  unfolding process handle_verification_email
  process_rejects job s (inl other) = refused job s other
  process_rejects job s (inr none_of) = elim (Bool-cases (is_verification job.type_name)) [
    | inl t ↦
        let (e, h) = fields_missing job.job_data.user job.job_data.token job.job_data s none_of in
        (e, ground arith)
    | inr f ↦ refused job s f
  ]

  -- A job that succeeds had a user and a token, and the verification email to that user with that
  -- token was sent: the call for it returned.
  pub process_returned :
      (job : Payload EmailJobData) (r : JobResult) (s s' : S)
      → process mailer job s ≡ returned r s'
      → (user : EmailUser) × (token : Text) × (sent : SentEmail) × (job.job_data.user ≡ some user)
        × (job.job_data.token ≡ some token)
        × (email_of user token job.job_data s ≡ returned sent s')
  unfolding process handle_verification_email dispatch
  process_returned job r s s' h = elim (Bool-cases (is_verification job.type_name)) [
    | inl t ↦ fields_given job.job_data.user job.job_data.token job.job_data r s s' (ground arith)
    | inr f ↦ ground arith
  ]

  -- What the registration hands to the queue, in the form in which the queue gets it.
  abbrev pub queued : VerificationJob → Payload EmailJobData
  queued v = record { type_name = some "sendVerificationEmail"; job_data = email_job_data v }

  abbrev pub user_of : VerificationJob → EmailUser
  user_of v = record { id = v.user_id; email = v.email; name = v.name }

  -- The end of a job whose email ends in this way.
  abbrev pub job_end : Outcome S SentEmail → Outcome S JobResult
  job_end (returned sent s) = returned email_sent s
  job_end (raised e s) = raised (email_dispatch_error "Email dispatch failed" e) s

  finished :
      (v : VerificationJob) (s : S) (o : Outcome S SentEmail)
      → send_verification_email mailer (user_of v) v.token v.locale none s ≡ o
      → process mailer (queued v) s ≡ job_end o
  unfolding process handle_verification_email dispatch email_job_data
  finished v s (returned sent s') h = ground arith
  finished v s (raised e s') h = ground arith

  -- A job in the form in which the registration queues it ends as its email does: it succeeds if
  -- the email to its user with its token was sent, and otherwise fails with EmailDispatchError and
  -- that cause.
  pub process-queued :
      (v : VerificationJob) (s : S)
      → process mailer (queued v) s
        ≡ job_end (send_verification_email mailer (user_of v) v.token v.locale none s)
  process-queued v s =
      finished v s (send_verification_email mailer (user_of v) v.token v.locale none s) refl
