-- ===== src/Email/Provider.antt =====
-- ProviderService, packages/email/src/provider.service.ts. A provider's own send and health check
-- are parameters; logging and tracing are left out.
pub mod Failover
pub mod Order
use Prim.Native.String
use mern_auth.Text.{Text}
use mern_auth.Prelude.{
  String, Bool, true, false, not, ◌&&◌, Option, none, some, List, [], ◌∷◌, ◌++◌, str_eq,
  if◌then◌else◌, select, find, is_empty,
}
use mern_auth.Errors.{Error, email_dispatch_error, configuration_error, plain, message}
use mern_auth.Exec.{Exec, Outcome, returned, raised, throw, pure, ◌>>=◌}

-- MailOptions, EmailResult and ProviderHealth of packages/email/src/types.ts
pub record MailOptions : Type 0 where
  pub sender : String
  pub recipient : Text
  pub subject : String
  pub html : String
  pub text : Text

pub record EmailResult : Type 0 where
  pub message_id : Option String
  pub provider : String
  pub accepted : List String
  pub response : String

pub record ProviderHealth : Type 0 where
  pub healthy : Bool
  pub name : String
  pub error : Option String

-- IEmailProvider, as far as the service calls it
pub record Provider (S : Type 0) : Type 0 where
  pub name : String
  pub send : MailOptions → Exec S EmailResult
  pub check_health : Exec S ProviderHealth

-- What failed, in order, with the provider's name.
abbrev pub Failures : Type 0
Failures = List (String × Error)

unfoldable pub failure_text : String × Error → String
failure_text (name, e) = String.◌++◌ name (String.◌++◌ ": " (message e))

unfoldable pub error_details : Failures → String
unfolding failure_text
error_details [] = ""
error_details (f ∷ []) = failure_text f
error_details (f ∷ g ∷ fs) =
    String.◌++◌ (failure_text f) (String.◌++◌ "; " (error_details (g ∷ fs)))

-- The error after the last provider; the cause's message is the errors' JSON text, a parameter.
unfoldable pub all_failed : (Failures → String) → Failures → Error
unfolding error_details
all_failed stringify errors =
    email_dispatch_error (String.◌++◌ "All providers failed: " (error_details errors))
      (plain (stringify errors))

module _ {S : Type 0} where
  abbrev pub is_named : String → Provider S → Bool
  is_named name p = str_eq p.name name

  abbrev pub prefer : String → List (Provider S) → Option (Provider S) → List (Provider S)
  prefer name providers none = providers
  prefer name providers (some p) = p ∷ select (λ q. not (is_named name q)) providers

  -- The order in which the providers are tried.
  unfoldable pub providers_to_try : Option String → List (Provider S) → List (Provider S)
  providers_to_try none providers = providers
  providers_to_try (some name) providers =
      if str_eq name "" then providers else prefer name providers (find (is_named name) providers)

  -- The loop over the providers.
  unfoldable pub try_providers :
      (Failures → String) → MailOptions → List (Provider S) → Failures → Exec S EmailResult
  try_providers stringify mail [] errors s = raised (all_failed stringify errors) s
  try_providers stringify mail (p ∷ ps) errors s = elim (p.send mail s) [
    | returned result s' ↦ returned result s'
    | raised e s' ↦ try_providers stringify mail ps (errors ++ (p.name, e) ∷ []) s'
  ]

  unfoldable pub send_with_failover :
      (Failures → String) → List (Provider S) → MailOptions → Option String → Exec S EmailResult
  unfolding providers_to_try try_providers all_failed
  send_with_failover stringify providers mail preferred =
      try_providers stringify mail (providers_to_try preferred providers) []

  -- getHealth: providerResults and overallHealthy. A check that throws counts as unhealthy.
  unfoldable pub get_health :
      List (Provider S) → List ProviderHealth → Bool → Exec S (Bool × List ProviderHealth)
  get_health [] results healthy s = returned (healthy, results) s
  get_health (p ∷ ps) results healthy s = elim (p.check_health s) [
    | returned h s' ↦
        get_health ps
          (results ++ record { healthy = h.healthy; name = p.name; error = h.error } ∷ [])
          (if h.healthy then healthy else false) s'
    | raised e s' ↦
        get_health ps
          (results ++ record { healthy = false; name = p.name; error = some (message e) } ∷ [])
          false s'
  ]

  abbrev pub configured : Option String → Provider S → List (Provider S)
  configured none p = []
  configured (some key) p = if str_eq key "" then [] else p ∷ []

  abbrev pub some_providers : List (Provider S) → Exec S (List (Provider S))
  some_providers [] = throw (configuration_error "No email providers configured")
  some_providers (p ∷ ps) = pure (p ∷ ps)

  -- initialize: the given providers with Resend (the primary) and MailerSend (the backup) pushed
  -- behind them, each if it has a key.
  unfoldable pub initialize :
      Option String
      → Option String
      → Provider S
      → Provider S
      → List (Provider S)
      → Exec S (List (Provider S))
  initialize resend_key mailersend_key resend mailersend providers =
      some_providers
        ((providers ++ configured resend_key resend) ++ configured mailersend_key mailersend)
