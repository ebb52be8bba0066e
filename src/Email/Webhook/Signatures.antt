-- ===== src/Email/Webhook/Signatures.antt =====
-- When a signed webhook is accepted.
use mern_auth.Prelude.{
  ℕ, ◌≡◌, refl, ◌↔◌, Bool, true, false, Option, none, some, List, ◌∷◌, ◌++◌, is_empty, arith,
  Bool-cases, inl, inr,
}
use mern_auth.Text.{Text}
use mern_auth.Errors.{Result, ok, err}
use mern_auth.Email.Webhook.{Crypto, Headers, or_else, same_signature, safe_result}
use mern_auth.Email.Webhook.MailerSend as MailerSend
use mern_auth.Email.Webhook.Resend as Resend

-- timingSafeEqual says true of equal buffers and of no others.
abbrev pub Exact : Crypto → Type 0
Exact crypto = (a b : List ℕ) → (crypto.timing_safe_equal a b ≡ ok true) ↔ (a ≡ b)

module _ (crypto : Crypto) where
  safe_result-true : (r : Result Bool) → (safe_result r ≡ true) ↔ (r ≡ ok true)
  safe_result-true (ok true) = (λ h. refl, λ h. refl)
  safe_result-true (ok false) = (λ h. ground arith, λ h. ground arith)
  safe_result-true (err e) = (λ h. ground arith, λ h. ground arith)

  same_iff :
      Exact crypto
      → (a b : Text) → (same_signature crypto a b ≡ true) ↔ (crypto.buffer a ≡ crypto.buffer b)
  same_iff exact a b = (
    λ h. (exact (crypto.buffer a) (crypto.buffer b)).0 ((safe_result-true _).0 h),
    λ h. (safe_result-true _).1 ((exact (crypto.buffer a) (crypto.buffer b)).1 h),
  )

  -- The header carries the HMAC of the payload under this secret.
  abbrev pub MailerSendSigned : Text → Text → Headers → Type 0
  MailerSendSigned secret payload headers =
      (signature : Text) × (headers "mailersend-signature" ≡ some signature)
      × (is_empty signature ≡ false)
      × (crypto.buffer signature ≡ crypto.buffer (crypto.hmac_hex secret payload))

  mailersend_check :
      Exact crypto
      → (secret payload : Text) (header : Option Text)
      → MailerSend.check_signature crypto payload header secret ≡ true
      → (signature : Text) × (header ≡ some signature)
        × (is_empty signature ≡ false)
        × (crypto.buffer signature ≡ crypto.buffer (crypto.hmac_hex secret payload))
  mailersend_check exact secret payload none h = ground arith
  mailersend_check exact secret payload (some signature) h =
      elim (Bool-cases (is_empty signature)) [
        | inl blank ↦ ground arith
        | inr given ↦ (
          signature,
          refl,
          given,
          (same_iff exact signature (crypto.hmac_hex secret payload)).0 (rw given at h),
        )
      ]

  mailersend_checked :
      Exact crypto
      → (secret payload signature : Text) (header : Option Text) → header ≡ some signature
      → is_empty signature ≡ false
      → crypto.buffer signature ≡ crypto.buffer (crypto.hmac_hex secret payload)
      → MailerSend.check_signature crypto payload header secret ≡ true
  mailersend_checked exact secret payload signature header found given same =
      let right = (same_iff exact signature (crypto.hmac_hex secret payload)).1 same in
      rw found (rw given right)

  -- A MailerSend provider with a secret accepts a webhook exactly if its header
  -- mailersend-signature is the HMAC of the payload under this secret.
  pub mailersend_signed :
      ((a b : List ℕ) → (crypto.timing_safe_equal a b ≡ ok true) ↔ (a ≡ b))
      → (secret payload : Text) (headers : Headers) → is_empty secret ≡ false
      → (MailerSend.verify_webhook_signature crypto (some secret) none payload headers ≡ true)
        ↔ MailerSendSigned secret payload headers
  unfolding MailerSend.verify_webhook_signature
  mailersend_signed exact secret payload headers configured = (
    λ h.
        mailersend_check exact secret payload (headers "mailersend-signature") (rw configured at h),
    λ (signature, found, given, same). rw configured (
        mailersend_checked exact secret payload signature (headers "mailersend-signature") found
          given same),
  )

  abbrev pub resend_header : Headers → Option Text
  resend_header headers = or_else (headers "svix-signature") (headers "resend-signature")

  -- The first v1 signature of the header is the HMAC of the timestamp and the payload.
  abbrev pub SignedBy : Text → Text → Option Text → Option Text → Type 0
  SignedBy secret payload header sent_at =
      (signatures timestamp signature : Text) × (header ≡ some signatures)
      × (is_empty signatures ≡ false)
      × (sent_at ≡ some timestamp)
      × (is_empty timestamp ≡ false)
      × (Resend.v1_signature signatures ≡ some signature)
      × (is_empty signature ≡ false)
      × (crypto.buffer signature
          ≡ crypto.buffer (crypto.hmac_base64 secret (timestamp ++ b'.' ∷ payload)))

  v1_check :
      Exact crypto
      → (secret content : Text) (o : Option Text) → Resend.check_v1 crypto secret content o ≡ true
      → (signature : Text) × (o ≡ some signature)
        × (is_empty signature ≡ false)
        × (crypto.buffer signature ≡ crypto.buffer (crypto.hmac_base64 secret content))
  v1_check exact secret content none h = ground arith
  v1_check exact secret content (some signature) h = elim (Bool-cases (is_empty signature)) [
    | inl blank ↦ ground arith
    | inr given ↦ (
      signature,
      refl,
      given,
      (same_iff exact signature (crypto.hmac_base64 secret content)).0 (rw given at h),
    )
  ]

  resend_check :
      Exact crypto
      → (secret payload : Text) (header sent_at : Option Text)
      → Resend.check_signature crypto payload header sent_at secret ≡ true
      → SignedBy secret payload header sent_at
  resend_check exact secret payload none sent_at h = ground arith
  resend_check exact secret payload (some signatures) none h = ground arith
  resend_check exact secret payload (some signatures) (some timestamp) h =
      elim (Bool-cases (is_empty signatures)) [
        | inl blank ↦ ground arith
        | inr given ↦ elim (Bool-cases (is_empty timestamp)) [
          | inl blank ↦ ground arith
          | inr timed ↦
              let (signature, found, whole, same) =
                v1_check exact secret (timestamp ++ b'.' ∷ payload) (Resend.v1_signature signatures)
                  (rw (given, timed) at h) in
              (signatures, timestamp, signature, refl, given, refl, timed, found, whole, same)
        ]
      ]

  resend_checked :
      Exact crypto
      → (secret payload : Text) (header sent_at : Option Text)
      → SignedBy secret payload header sent_at
      → Resend.check_signature crypto payload header sent_at secret ≡ true
  resend_checked exact secret payload header sent_at
        (signatures, timestamp, signature, there, given, sent, timed, found, whole, same) =
      let right =
        (same_iff exact signature (crypto.hmac_base64 secret (timestamp ++ b'.' ∷ payload))).1
          same in
      rw (there, sent, given, timed, found, whole) right

  -- A Resend provider with a secret accepts a webhook exactly if the header svix-signature, or
  -- without it resend-signature, and the header svix-timestamp are given, and the first v1 signature
  -- of the former is the HMAC of the timestamp and the payload under this secret.
  pub resend_signed :
      ((a b : List ℕ) → (crypto.timing_safe_equal a b ≡ ok true) ↔ (a ≡ b))
      → (secret payload : Text) (headers : Headers) → is_empty secret ≡ false
      → (Resend.verify_webhook_signature crypto (some secret) none payload headers ≡ true)
        ↔ SignedBy secret payload (resend_header headers) (headers "svix-timestamp")
  unfolding Resend.verify_webhook_signature
  resend_signed exact secret payload headers configured = (
    λ h.
        resend_check exact secret payload (resend_header headers) (headers "svix-timestamp")
          (rw configured at h),
    λ signed. rw configured (
        resend_checked exact secret payload (resend_header headers) (headers "svix-timestamp")
          signed),
  )
