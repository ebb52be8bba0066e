-- ===== src/Api/Answers.antt =====
-- What the client is told when a registration is refused.
use mern_auth.Prelude.{◌≡◌, refl, true, none, some, Option, String, ℕ, [], ◌∷◌, false}
use mern_auth.Text.{Text}
use mern_auth.Errors.{Error}
use mern_auth.Exec.{raised}
use mern_auth.Cache.{IsStore}
use mern_auth.Auth.{World, Services}
use mern_auth.Auth.Users.{IsUserStore}
use mern_auth.Auth.Registration.{RegistrationDto, register}
use mern_auth.Auth.Registration.Stages.{in_use}
use mern_auth.Auth.Registration.Laws.{Request, data_of, register_taken}
use mern_auth.Api.ErrorHandler.{error_handler, Handled, warn}

module _ {C D Q : Type 0} (services : Services C D Q) (cached : IsStore services.cache)
    (kept : IsUserStore services.users) where
  -- The answer to a registration with an address in use: 409, with a message about the email.
  abbrev pub taken_answer : (String → Option ℕ → String) → Handled
  taken_answer t = record {
    severity = warn;
    captured = false;
    response = some (record {
      status = some 409;
      message = t "auth:logs.registerDuplicateKey" none;
      errors = record { field = "email"; message = t "validation:email.inUse" none } ∷ [];
    });
  }

  -- Beyond the rate limit, valid data with an address in use makes the registration throw an error
  -- without changing anything, and, if no header was sent, the client is answered 409 with a
  -- translated message about the email, and the error is logged as a warning.
  pub register-error_handler :
      (t : String → Option ℕ → String) (fresh : Text) (dto : RegistrationDto) (w : World C D Q)
      (request : Request services dto)
      → cached.read w.cache request.key ≡ none
      → kept.valid (data_of services cached kept fresh dto w request) ≡ true
      → kept.taken w.db request.normalized ≡ true
      → (e : Error) × (register services fresh dto w ≡ raised e w)
        × (error_handler t false e ≡ taken_answer t)
  unfolding error_handler
  register-error_handler t fresh dto w request free v taken =
      (in_use, register_taken services cached kept fresh dto w request free v taken, refl)
