-- ===== src/Email/Service.antt =====
-- EmailService, packages/email/src/email.service.ts: sending an email with delivery tracking. The
-- template compiler, the log repository, the circuit breaker and the translations are parameters;
-- logging, tracing, metrics, and the durations in a log's metadata are left out.
pub mod Delivery
pub mod Checks
use mern_auth.Prelude.{
  ℕ, String, Bool, true, false, Option, none, some, List, [], ◌∷◌, ◌++◌, str_eq, if◌then◌else◌,
}
use mern_auth.Errors.{Error, plain, email_dispatch_error, message}
use mern_auth.Text.{Text, codes}
use mern_auth.Exec.{Exec, pure, throw, try_catch, ◌>>=◌, ◌>>◌}
use mern_auth.Email.Provider.{MailOptions, EmailResult}

-- packages/contracts/src/common/email-status.ts
pub data EmailStatus : Type 0 where
  queued pending sent delivered bounced failed : EmailStatus

-- The data of a template: the fields that the service reads or writes. The minutes are a quotient
-- of two numbers.
pub record TemplateData : Type 0 where
  pub subject : Option String
  pub name : Option String
  pub verification_url : Option Text
  pub expiry_minutes : Option (ℕ × ℕ)

pub record SendEmailParams : Type 0 where
  pub to : Text
  pub subject : Option String
  pub html : Option String
  pub text : Option Text
  pub template : Option String
  pub template_data : Option TemplateData
  pub user_id : Option Text
  pub type_name : String
  pub preferred_provider : Option String

-- What a new log entry says.
pub record LogData : Type 0 where
  pub user_id : Option Text
  pub type_name : String
  pub to : Text
  pub subject : String
  pub status : EmailStatus
  pub html : String
  pub text : Option Text
  pub preferred_provider : Option String

-- EmailServiceConfig, with the default subject that sendEmail looks for in it.
pub record EmailServiceConfig : Type 0 where
  pub email_from : String
  pub client_url : Text
  pub verification_token_expires_in : ℕ
  pub default_subject : Option String

-- The dependencies. `breaker` is none until initialize made it.
pub record Mailer (S : Type 0) : Type 0 where
  pub config : EmailServiceConfig
  pub compile_template : String → TemplateData → Exec S String
  pub create_log : LogData → Exec S String
  pub update_status : String → EmailStatus → Option String → String → Exec S (Unit {0})
  pub update_by_id : String → EmailStatus → String → Exec S (Unit {0})
  pub breaker : Option (MailOptions → Option String → Exec S EmailResult)
  pub translate : String → String → String
  pub translate_text : String → String → String → Text → ℕ × ℕ → Text

pub record SentEmail : Type 0 where
  pub result : EmailResult
  pub email_log_id : Option String

-- undefined or ""
abbrev pub is_blank : Option String → Bool
is_blank none = true
is_blank (some s) = str_eq s ""

abbrev pub or_else {ℓ} : {A : Type ℓ} → Option A → Option A → Option A
or_else none b = b
or_else (some a) b = some a

abbrev pub or_empty : Option String → String
or_empty none = ""
or_empty (some s) = s

abbrev text_or_empty : Option Text → Text
text_or_empty none = []
text_or_empty (some t) = t

-- An email's html and subject while sendEmail works them out.
pub record Content : Type 0 where
  pub html : Option String
  pub subject : Option String

module _ {S : Type 0} (mailer : Mailer S) where
  open mailer use {config, compile_template, create_log, update_status, update_by_id, breaker}

  -- The template with its data; the subject comes from the data if none was given.
  unfoldable pub from_template : SendEmailParams → String → TemplateData → Exec S Content
  from_template params template d = do
    html ← compile_template template (record d { subject = or_else params.subject d.subject })
    pure (record {
      html = some html;
      subject =
          if is_blank params.subject then or_else d.subject params.subject else params.subject;
    })

  abbrev given_content : SendEmailParams → Content
  given_content params = record { html = params.html; subject = params.subject }

  abbrev pub choose_content : SendEmailParams → Option String → Option TemplateData → Exec S Content
  choose_content params (some template) (some d) = from_template params template d
  choose_content params _ _ = pure (given_content params)

  unfoldable pub content : SendEmailParams → Exec S Content
  unfolding from_template
  content params = choose_content params params.template params.template_data

  -- The two checks, and the default subject behind them.
  unfoldable pub checked_content : Content → Exec S (String × String)
  checked_content c =
      if is_blank c.html
      then throw (plain "Email must have HTML content or a valid template")
      else if is_blank c.subject
      then throw (plain "Email must have a subject")
      else pure (
        or_empty c.html,
        or_empty (
            if is_blank c.subject
            then (if is_blank config.default_subject then c.subject else config.default_subject)
            else c.subject),
      )

  unfoldable pub log_data : SendEmailParams → String → String → LogData
  log_data params html subject = record {
    user_id = params.user_id;
    type_name = params.type_name;
    to = params.to;
    subject = subject;
    status = queued;
    html = html;
    text = params.text;
    preferred_provider = params.preferred_provider;
  }

  -- A log entry that cannot be created does not stop the email.
  unfoldable pub create_entry : LogData → Exec S (Option String)
  create_entry d = try_catch (do id ← create_log d; pure (some id)) (λ e. pure none)

  unfoldable pub record_success : Option String → EmailResult → Exec S (Unit {0})
  record_success none info = pure tt
  record_success (some id) info =
      try_catch (update_status id sent info.message_id info.provider) (λ e. pure tt)

  unfoldable pub record_failure : Option String → Error → Exec S (Unit {0})
  record_failure none err = pure tt
  record_failure (some id) err = try_catch (update_by_id id failed (message err)) (λ e. pure tt)

  abbrev pub fire_breaker :
      Option (MailOptions → Option String → Exec S EmailResult)
      → MailOptions
      → Option String
      → Exec S EmailResult
  fire_breaker none mail preferred = throw (plain "Email service not initialized")
  fire_breaker (some fire) mail preferred = fire mail preferred

  unfoldable pub deliver : MailOptions → Option String → Option String → Exec S SentEmail
  unfolding record_success record_failure
  deliver mail preferred log_id =
      try_catch
        (do
          info ← fire_breaker breaker mail preferred
          record_success log_id info
          pure (record { result = info; email_log_id = log_id }))
        (λ e. do record_failure log_id e; throw (email_dispatch_error "Failed to dispatch email" e))

  unfoldable pub mail_options : SendEmailParams → String → String → MailOptions
  mail_options params html subject = record {
    sender = config.email_from;
    recipient = params.to;
    subject = subject;
    html = html;
    text = text_or_empty params.text;
  }

  unfoldable pub send_email : SendEmailParams → Exec S SentEmail
  unfolding content checked_content create_entry deliver log_data mail_options
  send_email params = do
    c ← content params
    parts ← checked_content c
    log_id ← create_entry (log_data params parts.0 parts.1)
    deliver (mail_options params parts.0 parts.1) params.preferred_provider log_id

-- EmailUser
pub record EmailUser : Type 0 where
  pub id : Text
  pub email : Text
  pub name : String

module _ {S : Type 0} (mailer : Mailer S) where
  open mailer use {config, compile_template, translate, translate_text}

  unfoldable pub verification_url : Text → Text
  verification_url token = (config.client_url ++ codes "/verify-email?token=") ++ token

  unfoldable pub verification_params :
      EmailUser → Text → String → Option String → String → SendEmailParams
  unfolding verification_url
  verification_params user token locale preferred html = record {
    to = user.email;
    subject = some (translate locale "email:verification.subject");
    html = some html;
    text = some (
        translate_text locale "email:verification.text" user.name (verification_url token)
          (config.verification_token_expires_in, 60));
    template = none;
    template_data = none;
    user_id = some user.id;
    type_name = "verification";
    preferred_provider = preferred;
  }

  unfoldable pub send_verification_email :
      EmailUser → Text → String → Option String → Exec S SentEmail
  unfolding verification_params verification_url
  send_verification_email user token locale preferred = do
    html ← compile_template "verification" (record {
      subject = some (translate locale "email:verification.subject");
      name = some user.name;
      verification_url = some (verification_url token);
      expiry_minutes = some (config.verification_token_expires_in, 60);
    })
    send_email mailer (verification_params user token locale preferred html)
