-- ===== src/Examples/Worker.antt =====
-- Sending a verification email, and the job that asks for it.
use mern_auth.Prelude.{◌++◌, ℕ, suc, ◌≡◌, refl, none, some, Option, [], String, inr}
use mern_auth.Text.{Text, codes}
use mern_auth.Errors.{Error, plain}
use mern_auth.Exec.{returned, raised, state_of}
use mern_auth.Email.Provider.{MailOptions, EmailResult}
use mern_auth.Email.Service.{
  Mailer, SendEmailParams, SentEmail, EmailUser, send_email, send_verification_email, deliver,
  content, checked_content, mail_options, fire_breaker,
}
use mern_auth.Email.Service.Delivery.{
  send_email_follows_delivery, email_end, entry_of, logged, Passes,
}
use mern_auth.Email.Service.Checks.{send_verification_email-deliver}
use mern_auth.Queue.{Payload}
use mern_auth.Queue.Producer.{EmailJobData, email_job_data}
use mern_auth.Worker.Consumer.{process, email_sent}
use mern_auth.Worker.Consumer.Laws.{
  process_rejects, process_returned, process-queued, job_end, queued, user_of, email_of,
}
use mern_auth.Examples.Setting.{ann_job, fresh}

abbrev receipt : EmailResult
receipt = record { message_id = some "m1"; provider = "resend-api"; accepted = []; response = "" }

abbrev greeting : Text → Text
greeting name = codes "Hello " ++ (name ++ codes ",\n")

-- A mailer that counts the mails it sends; its log is out of order.
abbrev mailer : Mailer ℕ
mailer = record {
  config = record {
    email_from = "noreply@example.com";
    client_url = codes "https://example.com";
    verification_token_expires_in = 3600;
    default_subject = some "Notification";
  };
  compile_template = λ name d s. returned "<p>Hello</p>" s;
  create_log = λ d s. raised (plain "log") s;
  update_status = λ id status message provider s. returned tt s;
  update_by_id = λ id status message s. returned tt s;
  breaker = some (λ mail preferred s. returned receipt (suc s));
  translate = λ locale key. key;
  translate_text = λ locale key name url minutes. greeting (codes name) ++ (url ++ codes "\n");
}

abbrev params : SendEmailParams
params = record {
  to = codes "ann@example.com";
  subject = some "Hello";
  html = some "<p>Hello</p>";
  text = none;
  template = none;
  template_data = none;
  user_id = none;
  type_name = "notification";
  preferred_provider = none;
}

params-Passes : Passes mailer params 0 "<p>Hello</p>" "Hello" 0
unfolding content checked_content
params-Passes = refl

send_email_follows_delivery_example :
    (s' : ℕ) × (send_email mailer params 0
      ≡ email_end mailer
          (entry_of mailer (logged mailer params "<p>Hello</p>" "Hello" 0))
          (fire_breaker mailer mailer.breaker
            (mail_options mailer params "<p>Hello</p>" "Hello")
            none
            (state_of (logged mailer params "<p>Hello</p>" "Hello" 0)))
          s')
send_email_follows_delivery_example =
    send_email_follows_delivery mailer params "<p>Hello</p>" "Hello" 0 0 params-Passes

-- The email is sent although its log entry could not be created.
sent_unlogged :
    send_email mailer params 0 ≡ returned (record { result = receipt; email_log_id = none }) 1
unfolding send_email
sent_unlogged = refl

abbrev bare : SendEmailParams
bare = record params { subject = none }

bare-content : content mailer bare 0 ≡ returned (record { html = bare.html; subject = none }) 0
unfolding content
bare-content = refl

abbrev ann_at : EmailUser
ann_at = record { id = codes "1"; email = codes "ann@example.com"; name = "Ann" }

send_verification_email-deliver_example :
    (mail : MailOptions) × (log : Option String) × (s₁ : ℕ) × (send_verification_email mailer ann_at
        fresh "en" none 0
      ≡ deliver mailer mail none log s₁)
    × (mail.recipient ≡ ann_at.email)
    × (mail.html ≡ "<p>Hello</p>")
    × (mail.text
        ≡ greeting (codes ann_at.name)
          ++ (((mailer.config.client_url ++ codes "/verify-email?token=") ++ fresh) ++ codes "\n"))
send_verification_email-deliver_example =
    send_verification_email-deliver mailer ann_at fresh "en" none "<p>Hello</p>" greeting
      (codes "\n") 0 0 refl refl refl (λ name url. refl)

abbrev no_token : Payload EmailJobData
no_token = record {
  type_name = some "sendVerificationEmail";
  job_data = record { user = some ann_at; token = none; locale = none; preferred_provider = none };
}

process_rejects_example : (e : Error) × (process mailer no_token 0 ≡ raised e 0)
process_rejects_example = process_rejects mailer no_token 0 (inr (inr refl))

processed : process mailer (queued mailer ann_job) 0 ≡ returned email_sent 1
unfolding process email_job_data send_verification_email send_email
processed = refl

process_returned_example :
    (user : EmailUser) × (token : Text) × (sent : SentEmail) × ((queued mailer
        ann_job).job_data.user
      ≡ some user)
    × ((queued mailer ann_job).job_data.token ≡ some token)
    × (email_of mailer user token (queued mailer ann_job).job_data 0 ≡ returned sent 1)
process_returned_example = process_returned mailer (queued mailer ann_job) email_sent 0 1 processed

process-queued_example :
    process mailer (queued mailer ann_job) 0
    ≡ job_end mailer (
        send_verification_email mailer (user_of mailer ann_job) ann_job.token ann_job.locale none 0)
process-queued_example = process-queued mailer ann_job 0
