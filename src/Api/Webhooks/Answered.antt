-- ===== src/Api/Webhooks/Answered.antt =====
-- Every webhook is answered, and what an unsigned one changes.
use mern_auth.Prelude.{
  ◌↔◌, String, List, ℕ, ◌≡◌, refl, ◌⊎◌, Bool, true, false, Option, none, some, is_empty, Bool-cases,
  inl, inr,
}
use mern_auth.Text.{Text}
use mern_auth.Errors.{Result, ok, err, message}
use mern_auth.Exec.{Exec, lift, ◌>>=◌, Outcome, returned, raised}
use mern_auth.Email.Bounce.{Collections, BounceResult, handle_bounce}
use mern_auth.Email.Webhook.{Crypto, Headers, ParsedWebhookEvent}
use mern_auth.Email.Webhook.Signatures.{
  MailerSendSigned, SignedBy, mailersend_signed, resend_signed, resend_header,
}
use mern_auth.Email.Webhook.MailerSend.{MailerSendEvent}
use mern_auth.Email.Webhook.Resend.{ResendEvent}
use mern_auth.Api.Webhooks.{
  mailersend, resend, Body, WebhookProvider, Response, respond, invalid_signature, to_text,
  handle_webhook, handle_verified, handle_event, failed_with, to_bounce_data, handled_event,
}

-- Answered with one of the controller's three statuses.
abbrev pub IsAnswered : {S : Type 0} → Outcome S Response → Type 0
IsAnswered (returned r s) = (r.status ≡ 200) ⊎ (r.status ≡ 401) ⊎ (r.status ≡ 500)
IsAnswered (raised e s) = ⊥

abbrev report : {S : Type 0} → Outcome S BounceResult → Outcome S Response
report (returned r s) = returned (respond 200 (handled_event r)) s
report (raised e s) = raised e s

abbrev catch_all : {S : Type 0} → Outcome S Response → Outcome S Response
catch_all (returned r s) = returned r s
catch_all (raised e s) = returned (respond 500 (failed_with (message e))) s

-- An answer with status 200, or an error.
abbrev IsAccepted : {S : Type 0} → Outcome S Response → Type 0
IsAccepted (returned r s) = r.status ≡ 200
IsAccepted (raised e s) = Unit

lifted :
    {S A : Type 0} (r : Result A) (f : A → Exec S Response) (s : S)
    → ((a : A) (s : S) → IsAccepted (f a s))
    → IsAccepted ((lift r >>= f) s)
lifted (ok a) f s h = h a s
lifted (err e) f s h = tt

module _ {S : Type 0} (collections : Collections S) (now : ℕ) where
  reported : (o : Outcome S BounceResult) → IsAccepted (report o)
  reported (returned r s) = refl
  reported (raised e s) = tt

  event-IsAccepted :
      (event : Option ParsedWebhookEvent) (s : S)
      → IsAccepted (handle_event collections now event s)
  unfolding handle_event
  event-IsAccepted none s = refl
  event-IsAccepted (some event) s =
      reported (handle_bounce collections now (to_bounce_data event) s)

module _ {S E : Type 0} (collections : Collections S) (now : ℕ) (parse_json : Text → Result E) where
  -- If the verification fails, the answer is 401 and nothing is changed.
  pub unsigned :
      (provider : WebhookProvider E) (body : Body) (payload : Text) (headers : Headers) (s : S)
      → to_text body ≡ ok payload
      → provider.verify payload headers ≡ false
      → handle_webhook collections now parse_json provider body headers s
        ≡ returned (respond 401 invalid_signature) s
  unfolding handle_webhook
  unsigned provider body payload headers s t h = rw (t, ◌>>=◌, h)

  payload-IsAccepted :
      (provider : WebhookProvider E) (payload : Text) (s : S)
      → IsAccepted (handle_verified collections now parse_json provider payload s)
  unfolding handle_verified
  payload-IsAccepted provider payload s =
      lifted (parse_json payload)
        (λ event. lift (provider.parse event) >>= handle_event collections now) s
        (λ event s'.
          lifted (provider.parse event) (handle_event collections now) s'
            (event-IsAccepted collections now))

  caught : (o : Outcome S Response) → IsAccepted o → IsAnswered (catch_all o)
  caught (returned r s) h = inl h
  caught (raised e s) h = inr (inr refl)

  answered_as :
      (provider : WebhookProvider E) (body : Body) (headers : Headers) (s : S) (r : Result Text)
      → to_text body ≡ r
      → IsAnswered (handle_webhook collections now parse_json provider body headers s)
  unfolding handle_webhook
  answered_as provider body headers s (err e) t = rw t (inr (inr refl))
  answered_as provider body headers s (ok payload) t =
      elim (Bool-cases (provider.verify payload headers)) [
        | inl signed ↦ rw (t, ◌>>=◌, signed) (caught _ (payload-IsAccepted provider payload s))
        | inr forged ↦ rw (t, ◌>>=◌, forged) (inr (inl refl))
      ]

  -- Whatever comes in, a call of handleWebhook returns, and answers with the status 200, 401 or
  -- 500.
  pub handle_webhook-IsAnswered :
      (provider : WebhookProvider E) (body : Body) (headers : Headers) (s : S)
      → IsAnswered (handle_webhook collections now parse_json provider body headers s)
  handle_webhook-IsAnswered provider body headers s =
      answered_as provider body headers s (to_text body) refl

false_of : (b : Bool) → (P : Type 0) → ((b ≡ true) → P) → ¬ P → b ≡ false
false_of true P f n = elim (n (f refl)) [ ]
false_of false P f n = refl

module _ {S : Type 0} (collections : Collections S) (now : ℕ) (crypto : Crypto) where
  -- A request to the MailerSend webhook whose header is not the HMAC of the body under the
  -- configured secret is answered with 401 and changes nothing.
  pub mailersend_forged :
      ((a b : List ℕ) → (crypto.timing_safe_equal a b ≡ ok true) ↔ (a ≡ b))
      → (parse_json : Text → Result MailerSendEvent) (new_date : String → Option ℕ)
      → (secret : Text) (body : Body) (payload : Text) (headers : Headers) (s : S)
      → is_empty secret ≡ false
      → to_text body ≡ ok payload
      → ¬ MailerSendSigned crypto secret payload headers
      → handle_webhook collections now parse_json
          (mailersend crypto (some secret) new_date)
          body
          headers
          s
        ≡ returned (respond 401 invalid_signature) s
  unfolding mailersend
  mailersend_forged exact parse_json new_date secret body payload headers s configured text forged =
      unsigned collections now parse_json (mailersend crypto (some secret) new_date) body payload
        headers s text
        (false_of _ _ (mailersend_signed crypto exact secret payload headers configured).0 forged)

  -- A request to the Resend webhook, with a secret configured, whose body has a text and whose
  -- header svix-signature (or resend-signature) and svix-timestamp do not carry the HMAC of the
  -- timestamp and that text under this secret as the first v1 signature, is answered with 401 and
  -- changes nothing.
  pub resend_forged :
      ((a b : List ℕ) → (crypto.timing_safe_equal a b ≡ ok true) ↔ (a ≡ b))
      → (parse_json : Text → Result ResendEvent) (new_date : String → Option ℕ)
      → (secret : Text) (body : Body) (payload : Text) (headers : Headers) (s : S)
      → is_empty secret ≡ false
      → to_text body ≡ ok payload
      → ¬ SignedBy crypto secret payload (resend_header crypto headers) (headers "svix-timestamp")
      → handle_webhook collections now parse_json
          (resend crypto (some secret) new_date)
          body
          headers
          s
        ≡ returned (respond 401 invalid_signature) s
  unfolding resend
  resend_forged exact parse_json new_date secret body payload headers s configured text forged =
      unsigned collections now parse_json (resend crypto (some secret) new_date) body payload
        headers s text
        (false_of _ _ (resend_signed crypto exact secret payload headers configured).0 forged)
