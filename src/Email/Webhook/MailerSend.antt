-- ===== src/Email/Webhook/MailerSend.antt =====
-- MailerSendProvider, packages/email/src/providers/mailersend.provider.ts: the signature of a
-- webhook, and its event. `new Date` is a parameter.
use mern_auth.Prelude.{
  ℕ, String, Bool, false, ◌||◌, Option, none, some, is_empty, str_eq, if◌then◌else◌,
}
use mern_auth.Text.{Text}
use mern_auth.Errors.{Result, ok}
use mern_auth.Email.Webhook.{
  Crypto, Headers, ParsedWebhookEvent, EventType, bounce, complaint, or_else, same_signature,
  with_secret,
}

abbrev pub check_signature : Crypto → Text → Option Text → Text → Bool
check_signature crypto payload none current_secret = false
check_signature crypto payload (some signature) current_secret =
    if is_empty signature
    then false
    else same_signature crypto signature (crypto.hmac_hex current_secret payload)

-- Its third argument is the one called secret; the second is the provider's own.
unfoldable pub verify_webhook_signature : Crypto → Option Text → Option Text → Text → Headers → Bool
verify_webhook_signature crypto webhook_secret secret payload headers =
    with_secret (or_else secret webhook_secret)
      (check_signature crypto payload (headers "mailersend-signature"))

-- An event as parseWebhookEvent reads it: data.recipient.email, data.email.id and data.reason, with
-- none where a part of the path is undefined.
pub record MailerSendEvent : Type 0 where
  pub type_name : String
  pub created_at : String
  pub recipient_email : Option Text
  pub email_id : Option String
  pub reason : Option String

abbrev pub reason_or : String → Option String → Option String
reason_or standard none = some standard
reason_or standard (some reason) = some reason

module _ (new_date : String → Option ℕ) where
  abbrev pub parsed :
      MailerSendEvent
      → Text
      → String
      → EventType
      → Option String
      → Option String
      → ParsedWebhookEvent
  parsed e email message_id event_type bounce_type reason = record {
    timestamp = new_date e.created_at;
    email = email;
    message_id = message_id;
    event_type = event_type;
    bounce_type = bounce_type;
    reason = reason;
  }

  -- What follows once the address and the message id are known.
  abbrev pub classified : MailerSendEvent → Text → String → Option ParsedWebhookEvent
  classified e email message_id =
      if str_eq e.type_name "activity.soft_bounced"
      then some (parsed e email message_id bounce (some "soft") (reason_or "Soft bounce" e.reason))
      else if str_eq e.type_name "activity.hard_bounced"
      then some (parsed e email message_id bounce (some "hard") (reason_or "Hard bounce" e.reason))
      else if str_eq e.type_name "activity.spam_complaint"
      then some (parsed e email message_id complaint none (some "Spam complaint"))
      else none

  abbrev pub identified : MailerSendEvent → Option Text → Option String → Option ParsedWebhookEvent
  identified e (some email) (some message_id) =
      if is_empty email || str_eq message_id "" then none else classified e email message_id
  identified e _ _ = none

  unfoldable pub parse_webhook_event : MailerSendEvent → Result (Option ParsedWebhookEvent)
  parse_webhook_event e = ok (identified e e.recipient_email e.email_id)
