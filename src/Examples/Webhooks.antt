-- ===== src/Examples/Webhooks.antt =====
-- The webhooks: a signature, a forged one, and events that are misread.
use mern_auth.Prelude.{
  false, ℕ, ◌≡◌, refl, inr, ◌↔◌, Bool, true, none, some, Option, [], ◌∷◌, ◌++◌, List, String, ◌⊎◌,
  arith, ap, str_eq, if◌then◌else◌,
}
use mern_auth.Text.{Text, codes, text_eq, split}
use mern_auth.Text.Laws.{text_eq_iff}
use mern_auth.Errors.{ok, err, plain}
use mern_auth.Exec.{returned}
use mern_auth.Email.Bounce.{
  Collections, EmailLog, EmailLogUpdate, handled, retry_alternate_provider,
}
use mern_auth.Email.Bounce.Laws.{unclassified}
use mern_auth.Email.Webhook.{Crypto, Headers}
use mern_auth.Email.Webhook.Resend.{ResendEvent, ResendData, v1_signature}
use mern_auth.Email.Webhook.Resend as Resend
use mern_auth.Email.Webhook.Signatures.{SignedBy, resend_header}
use mern_auth.Api.Webhooks.{
  Response, respond, resend, raw, parsed_object, handle_webhook, invalid_signature, handled_event,
  to_text,
}
use mern_auth.Api.Webhooks.Answered.{resend_forged}
use mern_auth.Api.Webhooks.Misread.{parsed_body_refused, resend_untyped}

-- A cipher that hides nothing.
abbrev crypto : Crypto
crypto = record {
  hmac_hex = λ secret payload. secret ++ payload;
  hmac_base64 = λ secret payload. secret ++ payload;
  buffer = λ s. s;
  timing_safe_equal = λ a b. ok (text_eq a b);
}

none_differs : {A : Type 0} {a : A} → ¬ (none ≡ some a)
none_differs h = ground arith

ok-injective : (a b : Bool) → ok a ≡ ok b → a ≡ b
ok-injective a b h = cc

exact : (a b : List ℕ) → (crypto.timing_safe_equal a b ≡ ok true) ↔ (a ≡ b)
exact a b = (
  λ h. (text_eq_iff a b).0 (ok-injective (text_eq a b) true h),
  λ h. ap ok ((text_eq_iff a b).1 h),
)

abbrev log : EmailLog
log = record { id = "l1"; provider = some "resend-api" }

-- The state is the list of the updates.
abbrev collections : Collections (List EmailLogUpdate)
collections = record {
  find_one_and_update = λ id update s. returned (some log) (update ∷ s);
  find_by_email = λ email s. returned none s;
}

abbrev event : ResendEvent
event = record {
  type_name = "email.delivered";
  created_at = "2024-01-01";
  data_field = some (record { to = codes "a@b.c"; email_id = "m1"; bounce_message = none });
}

abbrev event_data : ResendData
event_data = record { to = codes "a@b.c"; email_id = "m1"; bounce_message = none }

abbrev new_date : String → Option ℕ
new_date s = some 5

abbrev secret : Text
secret = codes "k"

abbrev unsigned_headers : Headers
unsigned_headers name = none

forged :
    ¬ SignedBy crypto secret
      (codes "{}")
      (resend_header crypto unsigned_headers)
      (unsigned_headers "svix-timestamp")
forged (a, b, c, there, d, e, f, g, h, i) = none_differs there

resend_forged_example :
    handle_webhook collections 0
      (λ t. ok event)
      (resend crypto (some secret) new_date)
      (raw (codes "{}"))
      unsigned_headers
      []
    ≡ returned (respond 401 invalid_signature) []
unfolding to_text
resend_forged_example =
    resend_forged collections 0 crypto exact (λ t. ok event) new_date secret (raw (codes "{}"))
      (codes "{}") unsigned_headers [] refl refl forged

open_door :
    (payload : Text) (headers : Headers)
    → (resend crypto none new_date).verify payload headers ≡ true
unfolding resend Resend.verify_webhook_signature
open_door payload headers = refl

resend_untyped_example :
    handle_webhook collections 0
      (λ t. ok event)
      (resend crypto none new_date)
      (raw (codes "{}"))
      unsigned_headers
      []
    ≡ returned
        (respond 200 (handled_event (handled retry_alternate_provider log none)))
        (unclassified 0 ∷ [])
resend_untyped_example =
    resend_untyped collections 0 crypto (λ t. ok event) new_date none (codes "{}") unsigned_headers
      event event_data log [] (unclassified 0 ∷ []) (open_door (codes "{}") unsigned_headers) refl
      refl (inr refl) refl

parsed_body_refused_example :
    (r : Response) × (handle_webhook collections 0
        (λ t. err (plain "Unexpected token"))
        (resend crypto none new_date)
        (parsed_object false)
        unsigned_headers
        []
      ≡ returned r [])
    × ((r.status ≡ 401) ⊎ (r.status ≡ 500))
parsed_body_refused_example =
    parsed_body_refused collections 0 (λ t. err (plain "Unexpected token"))
      (resend crypto none new_date) false unsigned_headers (plain "Unexpected token") [] refl

abbrev signed_headers : Headers
signed_headers name =
    if str_eq name "svix-signature"
    then some (codes "v1,k7.{}")
    else if str_eq name "svix-timestamp"
    then some (codes "7")
    else none

accepted :
    Resend.verify_webhook_signature crypto (some secret) none (codes "{}") signed_headers ≡ true
unfolding Resend.verify_webhook_signature v1_signature split text_eq
accepted = refl
