-- ===== src/Auth/Verification.antt =====
-- VerificationService.verify, packages/core/src/features/auth/verification/verification.service.ts.
-- Logging is left out.
pub mod Laws
pub mod Once
use mern_auth.Prelude.{Bool, true, false, Option, none, some}
use mern_auth.Errors.{http_error, not_found, plain}
use mern_auth.Text.{Text}
use mern_auth.Exec.{Exec, pure, throw, lift, ◌>>=◌, ◌>>◌}
use mern_auth.Auth.{User, Services, Parsed, World, on_cache, on_db}
use mern_auth.Auth.Keys.{create_verify_email_key}

-- VERIFICATION_STATUS
pub data Status : Type 0 where
  verified already_verified : Status

module _ {C D Q : Type 0} (services : Services C D Q) where
  open services use {cache, users, config, host}

  -- Marks the user, unless that was done before; the token is removed either way.
  unfoldable pub settle : Text → User → Bool → Exec (World C D Q) Status
  settle verify_key user true = do on_cache (cache.del verify_key); pure already_verified
  settle verify_key user false = do
    on_db (users.save (record user { is_verified = true }))
    on_cache (cache.del verify_key)
    pure verified

  unfoldable pub found_user : Text → Option User → Exec (World C D Q) Status
  unfolding settle
  found_user verify_key none = throw (not_found "auth:verify.userNotFound")
  found_user verify_key (some user) = settle verify_key user user.is_verified

  unfoldable pub parsed_data : Text → Option (Option Parsed) → Exec (World C D Q) Status
  unfolding found_user
  parsed_data verify_key none = throw (http_error 500 "auth:errors.invalidDataFormat")
  parsed_data verify_key (some none) =
      throw (plain "Cannot read properties of null (reading 'userId')")
  parsed_data verify_key (some (some data_)) =
      on_db (users.find_by_id data_.user_id) >>= found_user verify_key

  unfoldable pub stored_data : Text → Option Text → Exec (World C D Q) Status
  unfolding parsed_data
  stored_data verify_key none = throw (not_found "auth:verify.invalidToken")
  stored_data verify_key (some json) = parsed_data verify_key (host.parse json)

  unfoldable pub verify : Text → Exec (World C D Q) Status
  unfolding stored_data
  verify token = do
    verify_key ← lift (create_verify_email_key config.verify_email_prefix (host.hash token))
    stored ← on_cache (cache.get verify_key)
    stored_data verify_key stored
