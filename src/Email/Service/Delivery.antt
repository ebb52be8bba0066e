-- ===== src/Email/Service/Delivery.antt =====
-- The delivery of an email, with the entries of its log.
use mern_auth.Prelude.{◌∙◌, ◌≡◌, refl, Option, none, some, arith, String}
use mern_auth.Errors.{message, Error, email_dispatch_error}
use mern_auth.Exec.{Exec, Outcome, returned, raised, ◌>>=◌, try_catch, state_of}
use mern_auth.Email.Provider.{MailOptions, EmailResult}
use mern_auth.Email.Service.{
  SentEmail, message, sent, failed, Mailer, SendEmailParams, LogData, record_success,
  record_failure, create_entry, fire_breaker, deliver, send_email, content, checked_content,
  log_data, mail_options,
}

module _ {S : Type 0} (mailer : Mailer S) where
  -- The entry's id and the state after the attempt to create it.
  abbrev pub entry_of : Outcome S String → Option String
  entry_of (returned id s) = some id
  entry_of (raised e s) = none

  create_entry_lem :
      (d : LogData) (s : S) (o : Outcome S String)
      → mailer.create_log d s ≡ o
      → create_entry mailer d s ≡ returned (entry_of o) (state_of o)
  unfolding create_entry
  create_entry_lem d s (returned id s') h = ground arith
  create_entry_lem d s (raised e s') h = ground arith

  swallowed :
      (m : Exec S (Unit {0})) (s : S) (o : Outcome S (Unit {0}))
      → m s ≡ o
      → try_catch m (λ e. returned tt) s ≡ returned tt (state_of o)
  swallowed m s (returned x s') h = ground arith
  swallowed m s (raised e s') h = ground arith

  success_returns :
      (log : Option String) (info : EmailResult) (s : S)
      → (s' : S) × (record_success mailer log info s ≡ returned tt s')
  unfolding record_success
  success_returns none info s = (s, refl)
  success_returns (some id) info s = (
    state_of (mailer.update_status id sent info.message_id info.provider s),
    swallowed (mailer.update_status id sent info.message_id info.provider) s _ refl,
  )

  failure_returns :
      (log : Option String) (e : Error) (s : S)
      → (s' : S) × (record_failure mailer log e s ≡ returned tt s')
  unfolding record_failure
  failure_returns none e s = (s, refl)
  failure_returns (some id) e s = (
    state_of (mailer.update_by_id id failed (message e) s),
    swallowed (mailer.update_by_id id failed (message e)) s _ refl,
  )

  deliver_returned :
      (mail : MailOptions) (preferred log : Option String) (s s₁ : S) (info : EmailResult)
      → fire_breaker mailer mailer.breaker mail preferred s ≡ returned info s₁
      → (s' : S) × (deliver mailer mail preferred log s
          ≡ returned (record { result = info; email_log_id = log }) s')
  unfolding deliver
  deliver_returned mail preferred log s s₁ info h =
      let (s', e) = success_returns log info s₁ in (s', ground arith)

  deliver_raised :
      (mail : MailOptions) (preferred log : Option String) (s s₁ : S) (e : Error)
      → fire_breaker mailer mailer.breaker mail preferred s ≡ raised e s₁
      → (s' : S) × (deliver mailer mail preferred log s
          ≡ raised (email_dispatch_error "Failed to dispatch email" e) s')
  unfolding deliver
  deliver_raised mail preferred log s s₁ e h =
      let (s', f) = failure_returns log e s₁ in (s', ground arith)

  -- The content of an email that passes the checks.
  abbrev pub Passes : SendEmailParams → S → String → String → S → Type 0
  Passes params s html subject s₀ =
      (content mailer params >>= checked_content mailer) s ≡ returned (html, subject) s₀

  -- The attempt to log an email with this content.
  abbrev pub logged : SendEmailParams → String → String → S → Outcome S String
  logged params html subject s = mailer.create_log (log_data mailer params html subject) s

  pub send_email_run :
      (params : SendEmailParams) (html subject : String) (s s₀ : S)
      → Passes params s html subject s₀
      → send_email mailer params s
        ≡ deliver mailer
            (mail_options mailer params html subject)
            params.preferred_provider
            (entry_of (logged params html subject s₀))
            (state_of (logged params html subject s₀))
  unfolding send_email
  send_email_run params html subject s s₀ passes = ground (
    arith,
    create_entry_lem (log_data mailer params html subject) s₀ (logged params html subject s₀) refl,
  )

  -- How an email ends whose delivery ends in this way, in a later state.
  abbrev pub email_end : Option String → Outcome S EmailResult → S → Outcome S SentEmail
  email_end log (returned info s) s' = returned (record { result = info; email_log_id = log }) s'
  email_end log (raised e s) s' = raised (email_dispatch_error "Failed to dispatch email" e) s'

  deliver_ends :
      (mail : MailOptions) (preferred log : Option String) (s : S) (o : Outcome S EmailResult)
      → fire_breaker mailer mailer.breaker mail preferred s ≡ o
      → (s' : S) × (deliver mailer mail preferred log s ≡ email_end log o s')
  deliver_ends mail preferred log s (returned info s₁) h =
      deliver_returned mail preferred log s s₁ info h
  deliver_ends mail preferred log s (raised e s₁) h = deliver_raised mail preferred log s s₁ e h

  -- Once the content passes the checks, an email ends as the breaker's delivery does: whether or
  -- not its log entry can be created or updated, a result of the delivery is returned with the
  -- entry's id, and an error of it is raised as EmailDispatchError with that cause.
  pub send_email_follows_delivery :
      (params : SendEmailParams) (html subject : String) (s s₀ : S)
      → Passes params s html subject s₀
      → (s' : S) × (send_email mailer params s
          ≡ email_end
              (entry_of (logged params html subject s₀))
              (fire_breaker mailer mailer.breaker
                (mail_options mailer params html subject)
                params.preferred_provider
                (state_of (logged params html subject s₀)))
              s')
  send_email_follows_delivery params html subject s s₀ passes =
      let (s', e) =
        deliver_ends (mail_options mailer params html subject) params.preferred_provider
          (entry_of (logged params html subject s₀)) (state_of (logged params html subject s₀)) _
          refl in
      (s', send_email_run params html subject s s₀ passes ∙ e)
