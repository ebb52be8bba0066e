-- ===== src/Auth/Registration.antt =====
-- RegistrationService.register, packages/core/src/features/auth/registration/registration.service.ts.
-- Logging, tracing and the report to Sentry are left out; `fresh` is the random token.
pub mod Stages
pub mod Laws
pub mod Failures
use mern_auth.Prelude.{
  ℕ, String, Bool, true, false, Option, none, some, List, [], ◌∷◌, ◌++◌, map, ◌||◌, str_eq,
  if◌then◌else◌,
}
use mern_auth.Errors.{
  Error, ErrorDetail, http_error, conflict_error, too_many_requests, service_unavailable,
  mongoose_validation, duplicate_key, plain,
}
use mern_auth.Text.{Text, codes}
use mern_auth.Exec.{Exec, pure, throw, lift, try_catch, ◌>>=◌, ◌>>◌}
use mern_auth.Cache.{ex}
use mern_auth.Auth.{
  User, UserData, VerificationJob, World, Services, on_cache, on_db, on_queue, QueueProducer,
}
use mern_auth.Auth.Keys.{create_auth_rate_limit_key}
use mern_auth.Auth.Token.{create_verification_token}
use mern_auth.Email.Address.{normalize_email}

-- RegistrationDto
pub record RegistrationDto : Type 0 where
  pub name : String
  pub email : Text
  pub password : String
  pub locale : String

-- RATE_LIMIT_DURATIONS.VERIFY_EMAIL, in seconds
abbrev pub rate_limit_duration : ℕ
rate_limit_duration = 180

-- REDIS_RATE_LIMIT_VALUE
abbrev pub rate_limit_value : Text
rate_limit_value = codes "1"

-- EMAIL_JOB_TYPES.SEND_VERIFICATION_EMAIL
abbrev pub send_verification_email : String
send_verification_email = "sendVerificationEmail"

-- The user as toJSON shows it: without the password.
pub record PublicUser : Type 0 where
  pub id : Text
  pub name : String
  pub email : Text
  pub normalized_email : Text
  pub is_verified : Bool

unfoldable pub to_json : User → PublicUser
to_json u = record {
  id = u.id;
  name = u.name;
  email = u.email;
  normalized_email = u.normalized_email;
  is_verified = u.is_verified;
}

-- A key of the duplicate key error's pattern, as the client is told of it.
unfoldable pub conflict_detail : String → ErrorDetail
conflict_detail key = record {
  field = if str_eq key "normalizedEmail" then "email" else key;
  message =
      if str_eq key "email" || str_eq key "normalizedEmail"
      then "validation:email.inUse"
      else "validation:duplicateValue";
  count = none;
}

-- The catch around the insertion.
unfoldable pub insertion_error : Error → Error
unfolding conflict_detail
insertion_error (mongoose_validation ds) = http_error 500 "auth:errors.registrationFailed"
insertion_error (duplicate_key keys) =
    conflict_error "auth:logs.registerDuplicateKey" (map conflict_detail keys)
insertion_error e = e

unfoldable pub user_data : Text → RegistrationDto → UserData
user_data normalized_email dto = record {
  name = dto.name;
  email = dto.email;
  normalized_email = normalized_email;
  password = dto.password;
}

unfoldable pub job_id : Text → Text
job_id id = codes "verify-email-" ++ id

unfoldable pub verification_job : RegistrationDto → User → Text → VerificationJob
verification_job dto user token = record {
  user_id = user.id;
  name = user.name;
  email = user.email;
  token = token;
  locale = dto.locale;
}

module _ {C D Q : Type 0} (services : Services C D Q) where
  open services use {cache, users, config, host, email_producer}

  abbrev reject_limited : Option Text → Exec (World C D Q) (Unit {0})
  reject_limited none = pure tt
  reject_limited (some limited) = throw (too_many_requests rate_limit_duration)

  unfoldable pub check_rate_limit : Text → Exec (World C D Q) (Unit {0})
  check_rate_limit key = on_cache (cache.get key) >>= reject_limited

  abbrev created_user : Option User → Exec D User
  created_user none = throw (plain "Failed to create user document")
  created_user (some user) = pure user

  unfoldable pub create_user : UserData → Exec D User
  unfolding insertion_error
  create_user x = try_catch (users.create x >>= created_user) (λ e. throw (insertion_error e))

  unfoldable pub insert_user : UserData → Exec (World C D Q) User
  unfolding create_user
  insert_user x = do on_db users.start_session; on_db (users.with_transaction (create_user x))

  unfoldable pub generate_token : Text → User → Exec (World C D Q) Text
  generate_token fresh user =
      try_catch (on_cache (create_verification_token cache config host fresh user))
        (λ e. throw (http_error 500 "auth:errors.createTokenFailed"))

  unfoldable pub queue_email : RegistrationDto → User → Text → Exec (World C D Q) (Option Text)
  unfolding verification_job job_id
  queue_email dto user token =
      try_catch
        (on_queue (
          email_producer.add_job send_verification_email (verification_job dto user token)
            (job_id user.id)))
        (λ e. throw (service_unavailable "auth:errors.addEmailJobFailed"))

  unfoldable pub set_rate_limit : Text → Exec (World C D Q) (Unit {0})
  set_rate_limit key =
      try_catch
        (do on_cache (cache.set key rate_limit_value (some ex) (some rate_limit_duration)); pure tt)
        (λ e. throw (service_unavailable "auth:errors.setRateLimitFailed"))

  unfoldable pub register : Text → RegistrationDto → Exec (World C D Q) PublicUser
  unfolding to_json user_data
  register fresh dto = do
    normalized_email ← lift (normalize_email dto.email)
    key ← lift (create_auth_rate_limit_key config.verify_email_rate_limit_prefix normalized_email)
    check_rate_limit key
    user ← insert_user (user_data normalized_email dto)
    token ← generate_token fresh user
    queue_email dto user token
    set_rate_limit key
    pure (to_json user)
