-- ===== src/Api/Webhooks.antt =====
-- WebhooksController, apps/api/src/features/webhooks/webhooks.controller.ts: handleWebhook over the
-- providers' verification and parsing, and over handleBounce. JSON.parse is a parameter; logging
-- and the retry that only logs are left out.
pub mod Answered
pub mod Misread
use mern_auth.Prelude.{
  List, [], ◌∷◌, ◌++◌, ℕ, String, Bool, true, false, Option, none, some, str_eq, if◌then◌else◌,
}
use mern_auth.Text.{Text, codes}
use mern_auth.Errors.{Error, Result, ok, err, message, plain}
use mern_auth.Exec.{Exec, pure, lift, try_catch, ◌>>=◌}
use mern_auth.Email.Webhook.{Crypto, Headers, ParsedWebhookEvent}
use mern_auth.Email.Webhook.MailerSend as MailerSend
use mern_auth.Email.Webhook.Resend as Resend
use mern_auth.Email.Bounce.{BounceData, BounceResult, Collections, handle_bounce}

-- What the controller uses of a provider, whose events have the type E.
pub record WebhookProvider (E : Type 0) : Type 0 where
  pub verify : Text → Headers → Bool
  pub parse : E → Result (Option ParsedWebhookEvent)

-- req.body: the bytes that express.raw left, or what express.json made of them, which is an object
-- or an array: of an object, whether it has a key toString of its own, which is then no function; of
-- an array, the texts of its elements.
pub data Body : Type 0 where
  raw : Text → Body
  parsed_object : Bool → Body
  parsed_array : List Text → Body

-- elements.join(",")
unfoldable pub join : List Text → Text
join [] = []
join (t ∷ []) = t
join (t ∷ u ∷ texts) = t ++ b',' ∷ join (u ∷ texts)

-- req.body.toString()
unfoldable pub to_text : Body → Result Text
unfolding join
to_text (raw payload) = ok payload
to_text (parsed_object true) = err (plain "req.body.toString is not a function")
to_text (parsed_object false) = ok (codes "[object Object]")
to_text (parsed_array texts) = ok (join texts)

pub data Answer : Type 0 where
  invalid_signature event_ignored : Answer
  handled_event : BounceResult → Answer
  failed_with : String → Answer

-- The status and the body of the answer.
pub record Response : Type 0 where
  pub status : ℕ
  pub json : Answer

abbrev pub respond : ℕ → Answer → Response
respond status json = record { status = status; json = json }

abbrev pub type_or_soft : Option String → String
type_or_soft none = "soft"
type_or_soft (some bounce_type) = bounce_type

-- The bounce that the controller makes of an event.
unfoldable pub to_bounce_data : ParsedWebhookEvent → BounceData
to_bounce_data event = record {
  email = event.email;
  message_id = event.message_id;
  bounce_type = type_or_soft event.bounce_type;
  bounce_reason = event.reason;
  timestamp = event.timestamp;
}

unfoldable pub mailersend :
    Crypto → Option Text → (String → Option ℕ) → WebhookProvider MailerSend.MailerSendEvent
mailersend crypto webhook_secret new_date = record {
  verify = MailerSend.verify_webhook_signature crypto webhook_secret none;
  parse = MailerSend.parse_webhook_event new_date;
}

unfoldable pub resend :
    Crypto → Option Text → (String → Option ℕ) → WebhookProvider Resend.ResendEvent
resend crypto webhook_secret new_date = record {
  verify = Resend.verify_webhook_signature crypto webhook_secret none;
  parse = Resend.parse_webhook_event new_date;
}

module _ {S : Type 0} (collections : Collections S) (now : ℕ) where
  unfoldable pub handle_event : Option ParsedWebhookEvent → Exec S Response
  unfolding to_bounce_data
  handle_event none = pure (respond 200 event_ignored)
  handle_event (some event) = do
    result ← handle_bounce collections now (to_bounce_data event)
    pure (respond 200 (handled_event result))

module _ {S E : Type 0} (collections : Collections S) (now : ℕ) (parse_json : Text → Result E) where
  unfoldable pub handle_verified : WebhookProvider E → Text → Exec S Response
  unfolding handle_event
  handle_verified provider payload = do
    event ← lift (parse_json payload)
    bounce_data ← lift (provider.parse event)
    handle_event collections now bounce_data

  unfoldable pub handle_webhook : WebhookProvider E → Body → Headers → Exec S Response
  unfolding handle_verified to_text
  handle_webhook provider body headers =
      try_catch
        (do
          payload ← lift (to_text body)
          (if provider.verify payload headers
              then handle_verified provider payload
              else pure (respond 401 invalid_signature)))
        (λ e. pure (respond 500 (failed_with (message e))))
