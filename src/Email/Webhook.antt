-- ===== src/Email/Webhook.antt =====
-- What the webhooks of the email providers share: the types of packages/email/src/types.ts, and
-- Node's crypto, which is a parameter. The children use this module, and are the providers.
pub mod MailerSend
pub mod Resend
pub mod Signatures
pub mod Versions
use mern_auth.Prelude.{
  ℕ, String, Bool, true, false, Option, none, some, List, is_empty, if◌then◌else◌,
}
use mern_auth.Text.{Text}
use mern_auth.Errors.{Result, ok, err}

-- createHmac("sha256", secret).update(text).digest(encoding), Buffer.from, and timingSafeEqual,
-- which throws if the lengths differ.
pub record Crypto : Type 0 where
  pub hmac_hex : Text → Text → Text
  pub hmac_base64 : Text → Text → Text
  pub buffer : Text → List ℕ
  pub timing_safe_equal : List ℕ → List ℕ → Result Bool

-- WebhookHeaders, by name
abbrev pub Headers : Type 0
Headers = String → Option Text

pub data EventType : Type 0 where
  bounce complaint delivery : EventType

-- ParsedWebhookEvent, without the original event.
pub record ParsedWebhookEvent : Type 0 where
  pub timestamp : Option ℕ
  pub email : Text
  pub message_id : String
  pub event_type : EventType
  pub bounce_type : Option String
  pub reason : Option String

-- a ?? b
abbrev pub or_else {ℓ} : {A : Type ℓ} → Option A → Option A → Option A
or_else none b = b
or_else (some a) b = some a

-- try { return timingSafeEqual(...) } catch { return false }
abbrev pub safe_result : Result Bool → Bool
safe_result (ok b) = b
safe_result (err e) = false

abbrev pub same_signature : Crypto → Text → Text → Bool
same_signature crypto signature expected =
    safe_result (crypto.timing_safe_equal (crypto.buffer signature) (crypto.buffer expected))

-- The check of a signature, which development setups without a secret skip.
abbrev pub with_secret : Option Text → (Text → Bool) → Bool
with_secret none check = true
with_secret (some current_secret) check =
    if is_empty current_secret then true else check current_secret
