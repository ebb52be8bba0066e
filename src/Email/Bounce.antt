-- ===== src/Email/Bounce.antt =====
-- handleBounce, packages/email/src/bounce-handler.ts, with recordBounce of
-- packages/database/src/repositories/email-log.repository.ts. The two collections are parameters;
-- logging is left out.
pub mod Laws
use mern_auth.Prelude.{
  ℕ, ◌≡◌, String, Bool, true, false, ◌||◌, Option, none, some, List, [], ◌∷◌, str_eq, if◌then◌else◌,
}
use mern_auth.Text.{Text}
use mern_auth.Exec.{Exec, pure, ◌>>=◌}
use mern_auth.Email.Service.{EmailStatus, bounced, is_blank}

-- BounceData
pub record BounceData : Type 0 where
  pub email : Text
  pub message_id : String
  pub bounce_type : String
  pub bounce_reason : Option String
  pub timestamp : Option ℕ

-- A value of a Record<string, unknown>.
pub data Value : Type 0 where
  missing : Value
  text : String → Value
  date : ℕ → Value

abbrev pub Fields : Type 0
Fields = List (String × Value)

-- The field of an object; undefined if it has none.
unfoldable pub field : String → Fields → Value
field name [] = missing
field name ((key, value) ∷ fields) = if str_eq key name then value else field name fields

-- IEmailLog, as far as the handler reads it.
pub record EmailLog : Type 0 where
  pub id : String
  pub provider : Option String

pub record EmailLogUpdate : Type 0 where
  pub status : EmailStatus
  pub bounced_at : ℕ
  pub bounce_type : Value
  pub bounce_reason : Value

-- The update that recordBounce asks for, at this time.
unfoldable pub bounce_update : ℕ → Fields → EmailLogUpdate
unfolding field
bounce_update now bounce_data = record {
  status = bounced;
  bounced_at = now;
  bounce_type = field "type" bounce_data;
  bounce_reason = field "reason" bounce_data;
}

abbrev optional_text : Option String → Value
optional_text none = missing
optional_text (some s) = text s

abbrev date_or : ℕ → Option ℕ → Value
date_or now none = date now
date_or now (some time) = date time

-- What the handler passes to recordBounce.
unfoldable pub bounce_fields : ℕ → BounceData → Fields
bounce_fields now d =
    ("bounceType", text d.bounce_type)
    ∷ ("bounceReason", optional_text d.bounce_reason)
    ∷ ("bouncedAt", date_or now d.timestamp)
    ∷ []

-- findOneAndUpdate of the email logs, and findByEmail of the users, which gives a user's id.
pub record Collections (S : Type 0) : Type 0 where
  pub find_one_and_update : String → EmailLogUpdate → Exec S (Option EmailLog)
  pub find_by_email : Text → Exec S (Option Text)

pub data Action : Type 0 where
  retry_alternate_provider marked_invalid unsubscribed logged : Action

-- BounceHandlerResult
pub record BounceResult : Type 0 where
  pub success : Bool
  pub action : Option Action
  pub reason : Option String
  pub email_log : Option EmailLog
  pub user : Option Text

abbrev pub handled : Action → EmailLog → Option Text → BounceResult
handled action log user = record {
  success = true;
  action = some action;
  reason = none;
  email_log = some log;
  user = user;
}

abbrev pub not_found_result : BounceResult
not_found_result = record {
  success = false;
  action = none;
  reason = some "Email log not found";
  email_log = none;
  user = none;
}

abbrev pub is_resend : Option String → Bool
is_resend none = true
is_resend (some provider) = str_eq provider "resend-api" || str_eq provider ""

module _ {S : Type 0} (collections : Collections S) (now : ℕ) where
  unfoldable pub record_bounce : String → Fields → Exec S (Option EmailLog)
  unfolding bounce_update
  record_bounce message_id bounce_data =
      collections.find_one_and_update message_id (bounce_update now bounce_data)

  abbrev pub with_user : Action → BounceData → EmailLog → Exec S BounceResult
  with_user action d log = do
    user ← collections.find_by_email d.email
    pure (handled action log user)

  -- What follows once the log was found.
  unfoldable pub classify : BounceData → EmailLog → Exec S BounceResult
  classify d log =
      if str_eq d.bounce_type "hard"
      then (if is_resend log.provider
          then pure (handled retry_alternate_provider log none)
          else with_user marked_invalid d log)
      else if str_eq d.bounce_type "soft"
      then pure (handled retry_alternate_provider log none)
      else if str_eq d.bounce_type "complaint"
      then with_user unsubscribed d log
      else pure (handled logged log none)

  abbrev pub found_log : BounceData → Option EmailLog → Exec S BounceResult
  found_log d none = pure not_found_result
  found_log d (some log) = classify d log

  unfoldable pub handle_bounce : BounceData → Exec S BounceResult
  unfolding record_bounce classify bounce_fields
  handle_bounce d = record_bounce d.message_id (bounce_fields now d) >>= found_log d
