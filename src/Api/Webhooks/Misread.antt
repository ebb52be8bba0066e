-- ===== src/Api/Webhooks/Misread.antt =====
-- Events that the webhooks take for bounces, and bodies that they cannot read.
use mathlib.Core.Path.{subst⁻¹}
use mern_auth.Prelude.{
  ℕ, ◌≡◌, refl, ◌⊎◌, inl, inr, String, Bool, true, false, Option, none, some, arith, Bool-cases, ap,
}
use mern_auth.Text.{Text, codes}
use mern_auth.Errors.{Error, Result, ok, err, message, plain}
use mern_auth.Exec.{returned, ◌>>=◌}
use mern_auth.Email.Bounce.{
  Collections, EmailLog, handle_bounce, record_bounce, classify, bounce_fields, bounce_update,
  field, handled, retry_alternate_provider, BounceData,
}
use mern_auth.Email.Bounce.Laws.{unclassified}
use mern_auth.Email.Webhook.{Headers, Crypto, ParsedWebhookEvent, complaint, delivery}
use mern_auth.Email.Webhook.Resend.{ResendEvent, ResendData, parse_webhook_event, parsed}
use mern_auth.Api.Webhooks.Answered.{unsigned}
use mern_auth.Api.Webhooks.{
  WebhookProvider, Response, respond, to_text, parsed_object, raw, handle_webhook, handle_verified,
  handle_event, handled_event, failed_with, invalid_signature, to_bounce_data, type_or_soft, resend,
}

module _ {S : Type 0} (collections : Collections S) (now : ℕ) where
  -- A bounce of type soft whose log is found.
  soft_bounce :
      (d : BounceData) (log : EmailLog) (s s' : S)
      → d.bounce_type ≡ "soft"
      → collections.find_one_and_update d.message_id (unclassified now) s ≡ returned (some log) s'
      → handle_bounce collections now d s ≡ returned (handled retry_alternate_provider log none) s'
  unfolding handle_bounce record_bounce classify bounce_update bounce_fields field
  soft_bounce d log s s' soft updates = rw (◌>>=◌, updates, soft)

  handle_untyped :
      (event : ParsedWebhookEvent) (log : EmailLog) (s s' : S)
      → event.bounce_type ≡ none
      → collections.find_one_and_update event.message_id (unclassified now) s
        ≡ returned (some log) s'
      → handle_event collections now (some event) s
        ≡ returned (respond 200 (handled_event (handled retry_alternate_provider log none))) s'
  unfolding handle_event to_bounce_data
  handle_untyped event log s s' without updates =
      rw (◌>>=◌, soft_bounce (to_bounce_data event) log s s' (ap type_or_soft without) updates)

module _ {S E : Type 0} (collections : Collections S) (now : ℕ) (parse_json : Text → Result E) where
  -- The answer to a verified event that is parsed without a bounce type.
  untyped :
      (provider : WebhookProvider E) (payload : Text) (headers : Headers) (e : E)
      (event : ParsedWebhookEvent) (log : EmailLog) (s s' : S)
      → provider.verify payload headers ≡ true
      → parse_json payload ≡ ok e
      → provider.parse e ≡ ok (some event)
      → event.bounce_type ≡ none
      → collections.find_one_and_update event.message_id (unclassified now) s
        ≡ returned (some log) s'
      → handle_webhook collections now parse_json provider (raw payload) headers s
        ≡ returned (respond 200 (handled_event (handled retry_alternate_provider log none))) s'
  unfolding handle_webhook handle_verified
  untyped provider payload headers e event log s s' signed read parses without updates =
      ground (arith, handle_untyped collections now event log s s' without updates)

  -- A body that express.json has parsed to an object before the webhook's route is never accepted:
  -- if JSON.parse refuses the text "[object Object]", every such request is answered with 401 or
  -- 500, also when the object has a key toString, and nothing is changed.
  pub parsed_body_refused :
      (provider : WebhookProvider E) (own_to_string : Bool) (headers : Headers) (e : Error) (s : S)
      → parse_json (codes "[object Object]") ≡ err e
      → (r : Response) × (handle_webhook collections now parse_json provider
            (parsed_object own_to_string)
            headers
            s
          ≡ returned r s)
        × ((r.status ≡ 401) ⊎ (r.status ≡ 500))
  unfolding handle_webhook to_text
  parsed_body_refused provider true headers e s refused = (
    respond 500 (failed_with (message (plain "req.body.toString is not a function"))),
    refl,
    inr refl,
  )
  parsed_body_refused provider false headers e s refused =
      elim (Bool-cases (provider.verify (codes "[object Object]") headers)) [
        | inl signed ↦
            (respond 500 (failed_with (message e)), rw (◌>>=◌, signed, refused), inr refl)
        | inr forged ↦ (
          respond 401 invalid_signature,
          unsigned collections now parse_json provider (parsed_object false)
              (codes "[object Object]") headers s refl forged,
          inl refl,
        )
      ]

parsed_untyped :
    (new_date : String → Option ℕ) (e : ResendEvent) (d : ResendData)
    → e.data_field ≡ some d
    → (e.type_name ≡ "email.complained") ⊎ (e.type_name ≡ "email.delivered")
    → (event : ParsedWebhookEvent) × (parse_webhook_event new_date e ≡ ok (some event))
      × (event.bounce_type ≡ none)
      × (event.message_id ≡ d.email_id)
unfolding parse_webhook_event
parsed_untyped new_date e d there (inl complained) =
    (parsed new_date e d complaint none (some "Spam complaint"), rw (there, complained), refl, refl)
parsed_untyped new_date e d there (inr delivered) =
    (parsed new_date e d delivery none none, rw (there, delivered), refl, refl)

module _ {S : Type 0} (collections : Collections S) (now : ℕ) (crypto : Crypto) where
  -- A verified event email.complained or email.delivered of Resend is handled as a soft bounce: if
  -- its email's log is found, the log's status becomes bounced, also when the email was delivered,
  -- and the answer reports success and a retry with another provider.
  pub resend_untyped :
      (parse_json : Text → Result ResendEvent) (new_date : String → Option ℕ) (secret : Option Text)
      (payload : Text) (headers : Headers) (e : ResendEvent) (d : ResendData) (log : EmailLog)
      (s s' : S)
      → (resend crypto secret new_date).verify payload headers ≡ true
      → parse_json payload ≡ ok e
      → e.data_field ≡ some d
      → (e.type_name ≡ "email.complained") ⊎ (e.type_name ≡ "email.delivered")
      → collections.find_one_and_update d.email_id (unclassified now) s ≡ returned (some log) s'
      → handle_webhook collections now parse_json
          (resend crypto secret new_date)
          (raw payload)
          headers
          s
        ≡ returned (respond 200 (handled_event (handled retry_alternate_provider log none))) s'
  unfolding resend
  resend_untyped parse_json new_date secret payload headers e d log s s' signed read there kind
        updates =
      let (event, parses, without, same) = parsed_untyped new_date e d there kind in
      untyped collections now parse_json (resend crypto secret new_date) payload headers e event log
        s s' signed read parses without
        (subst⁻¹
          (λ id. collections.find_one_and_update id (unclassified now) s ≡ returned (some log) s')
          same updates)
