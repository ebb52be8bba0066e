-- ===== src/Auth/Token.antt =====
-- TokenService, packages/core/src/features/token/token.service.ts. The random token that a call
-- draws is its argument `fresh`. Logging is left out.
pub mod Laws
use mern_auth.Prelude.{ℕ, String, Option, none, some, ◌++◌}
use mern_auth.Errors.{Error, plain, token_creation_error, not_found}
use mern_auth.Text.{Text}
use mern_auth.Exec.{Exec, pure, throw, try_catch, ◌>>=◌, ◌>>◌}
use mern_auth.Cache.{CacheService, ExpiryMode, ex, Reply}
use mern_auth.Auth.{User, Config, Host, TokenData, Parsed}

pub record TokenPayload : Type 0 where
  pub user_id : Option Text
  pub type_name : String

-- a ?? b
abbrev pub or_else : Option String → String → String
or_else none d = d
or_else (some s) d = s

module _ {C : Type 0} (cache : CacheService C) (config : Config) (host : Host) where
  unfoldable pub verify_key : Text → Text
  verify_key token = config.verify_email_prefix ++ host.hash token

  unfoldable pub user_data_to_store : User → Text
  user_data_to_store user = host.stringify (record { user_id = user.id; email = user.email })

  unfoldable pub store_token : Text → User → Exec C Text
  unfolding verify_key user_data_to_store
  store_token fresh user = do
    cache.set (verify_key fresh) (user_data_to_store user) (some ex)
        (some config.verification_token_expires_in)
    cache.ttl (verify_key fresh)
    pure fresh

  unfoldable pub create_verification_token : Text → User → Exec C Text
  unfolding store_token
  create_verification_token fresh user =
      try_catch (store_token fresh user)
        (λ e. throw (token_creation_error "Token creation failed" e))

  abbrev pub parsed_payload : Option (Option Parsed) → Exec C TokenPayload
  parsed_payload none = throw (plain "Unexpected token in JSON")
  parsed_payload (some none) = throw (plain "Cannot read properties of null (reading 'userId')")
  parsed_payload (some (some p)) =
      pure (record { user_id = p.user_id; type_name = or_else p.type_name "verification" })

  abbrev pub token_data : Option Text → Exec C TokenPayload
  token_data none = throw (not_found "auth:verify.invalidToken")
  token_data (some json) = parsed_payload (host.parse json)

  unfoldable pub verify_token : Text → Exec C TokenPayload
  unfolding verify_key
  verify_token token = cache.get (verify_key token) >>= token_data

  unfoldable pub delete_token : Text → Exec C (Unit {0})
  unfolding verify_key
  delete_token token = do cache.del (verify_key token); pure tt
