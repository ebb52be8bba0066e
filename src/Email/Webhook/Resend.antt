-- ===== src/Email/Webhook/Resend.antt =====
-- ResendProvider, packages/email/src/providers/resend.provider.ts: the signature of a webhook, and
-- its event. `new Date` is a parameter.
use mern_auth.Prelude.{
  ℕ, String, Bool, false, ◌||◌, Option, none, some, List, [], ◌∷◌, ◌++◌, map, find, is_empty,
  str_eq, if◌then◌else◌,
}
use mern_auth.Text.{Text, codes, text_eq, split}
use mern_auth.Errors.{Result, ok, err, plain}
use mern_auth.Email.Webhook.{
  Crypto, Headers, ParsedWebhookEvent, EventType, bounce, complaint, delivery, or_else,
  same_signature, with_secret,
}

-- const [version, s] = sig.split(",")
abbrev pub version_of : List Text → Option Text
version_of [] = none
version_of (version ∷ rest) = some version

abbrev pub signature_of : List Text → Option Text
signature_of [] = none
signature_of (version ∷ []) = none
signature_of (version ∷ signature ∷ rest) = some signature

abbrev is_version : Text → Option Text → Bool
is_version v none = false
is_version v (some version) = text_eq version v

abbrev signature_if_any : Option (List Text) → Option Text
signature_if_any none = none
signature_if_any (some parts) = signature_of parts

-- v1Sig?.signature
unfoldable pub v1_signature : Text → Option Text
unfolding split text_eq
v1_signature signature = signature_if_any (
    find (λ parts. is_version (codes "v1") (version_of parts))
      (map (split b',') (split b' ' signature)))

abbrev pub check_v1 : Crypto → Text → Text → Option Text → Bool
check_v1 crypto current_secret signed_content none = false
check_v1 crypto current_secret signed_content (some signature) =
    if is_empty signature
    then false
    else same_signature crypto signature (crypto.hmac_base64 current_secret signed_content)

abbrev pub check_signature : Crypto → Text → Option Text → Option Text → Text → Bool
check_signature crypto payload (some signature) (some timestamp) current_secret =
    if is_empty signature || is_empty timestamp
    then false
    else check_v1 crypto current_secret (timestamp ++ b'.' ∷ payload) (v1_signature signature)
check_signature crypto payload _ _ current_secret = false

-- Its third argument is the one called secret; the second is the provider's own.
unfoldable pub verify_webhook_signature : Crypto → Option Text → Option Text → Text → Headers → Bool
unfolding v1_signature
verify_webhook_signature crypto webhook_secret secret payload headers =
    with_secret (or_else secret webhook_secret) (
      check_signature crypto payload
        (or_else (headers "svix-signature") (headers "resend-signature"))
        (headers "svix-timestamp"))

-- The fields of data that parseWebhookEvent reads.
pub record ResendData : Type 0 where
  pub to : Text
  pub email_id : String
  pub bounce_message : Option String

pub record ResendEvent : Type 0 where
  pub type_name : String
  pub created_at : String
  pub data_field : Option ResendData

abbrev pub message_or_unknown : Option String → Option String
message_or_unknown none = some "Unknown"
message_or_unknown (some message) = some message

module _ (new_date : String → Option ℕ) where
  abbrev pub parsed :
      ResendEvent → ResendData → EventType → Option String → Option String → ParsedWebhookEvent
  parsed e d event_type bounce_type reason = record {
    timestamp = new_date e.created_at;
    email = d.to;
    message_id = d.email_id;
    event_type = event_type;
    bounce_type = bounce_type;
    reason = reason;
  }

  abbrev pub classified : ResendEvent → ResendData → Option ParsedWebhookEvent
  classified e d =
      if str_eq e.type_name "email.bounced"
      then some (parsed e d bounce (some "hard") (message_or_unknown d.bounce_message))
      else if str_eq e.type_name "email.complained"
      then some (parsed e d complaint none (some "Spam complaint"))
      else if str_eq e.type_name "email.delivered"
      then some (parsed e d delivery none none)
      else none

  abbrev pub read_data : ResendEvent → Option ResendData → Result (Option ParsedWebhookEvent)
  read_data e none = err (plain "Cannot read properties of undefined (reading 'to')")
  read_data e (some d) = ok (classified e d)

  -- Without data, the access of data.to throws.
  unfoldable pub parse_webhook_event : ResendEvent → Result (Option ParsedWebhookEvent)
  parse_webhook_event e = read_data e e.data_field
