-- ===== src/Auth/Registration/Laws.antt =====
-- A registration as a whole: what it does when it is accepted, limited or refused.
use mern_auth.Prelude.{arith, ◌≡◌, true, false, none, some}
use mern_auth.Errors.{Error, http_error, ok}
use mern_auth.Text.{Text}
use mern_auth.Exec.{returned, raised}
use mern_auth.Cache.{IsStore}
use mern_auth.Auth.{Option, User, UserData, World, Services}
use mern_auth.Auth.Users.{IsUserStore}
use mern_auth.Auth.Keys.{create_auth_rate_limit_key}
use mern_auth.Auth.Registration.{
  too_many_requests, service_unavailable, normalize_email, RegistrationDto, register, user_data,
  to_json,
}
use mern_auth.Auth.Registration.Stages.{
  with_user, with_stored_token, with_limit, in_use, job_call, check_rate_limit_free,
  check_rate_limit_hit,
}
use mern_auth.Auth.Registration.Stages.{
  insert_user_free, insert_user_taken, insert_user_invalid, generate_token_lem, queue_email_ok,
  queue_email_failed, set_rate_limit_lem,
}

-- A request whose address can be normalized, and the key of its rate limit.
pub record Request {C D Q : Type 0} (services : Services C D Q) (dto : RegistrationDto)
    : Type 0 where
  pub normalized : Text
  pub key : Text
  pub normalizes : normalize_email dto.email ≡ ok normalized
  pub has_key :
      create_auth_rate_limit_key services.config.verify_email_rate_limit_prefix normalized ≡ ok key

module _ {C D Q : Type 0} (services : Services C D Q) (cached : IsStore services.cache)
    (kept : IsUserStore services.users) where
  module _ (fresh : Text) (dto : RegistrationDto) (w : World C D Q)
      (request : Request services dto) where
    abbrev pub data_of : UserData
    data_of = user_data request.normalized dto

    -- The user that an accepted registration makes.
    abbrev pub new_user : User
    new_user = kept.made data_of w.db

    -- A registration within the rate limit's time is refused with 429, and nothing changes.
    pub register_limited :
        (value : Text)
        → cached.read w.cache request.key ≡ some value
        → register services fresh dto w ≡ raised (too_many_requests 180) w
    unfolding register
    register_limited value h = ground (
      arith,
      request.normalizes,
      request.has_key,
      check_rate_limit_hit services cached kept request.key value w h,
    )

    -- Beyond the rate limit, valid data with an address in use is refused with 409 and a message
    -- about the field email, and nothing changes.
    pub register_taken :
        cached.read w.cache request.key ≡ none
        → kept.valid data_of ≡ true
        → kept.taken w.db request.normalized ≡ true
        → register services fresh dto w ≡ raised in_use w
    unfolding register
    register_taken free v t = ground (
      arith,
      request.normalizes,
      request.has_key,
      check_rate_limit_free services cached kept request.key w free,
      insert_user_taken services kept data_of w v t,
    )

    -- Data that the schema of the collection refuses ends in 500, and nothing changes.
    pub register_invalid :
        cached.read w.cache request.key ≡ none
        → kept.valid data_of ≡ false
        → register services fresh dto w ≡ raised (http_error 500 "auth:errors.registrationFailed") w
    unfolding register
    register_invalid free v = ground (
      arith,
      request.normalizes,
      request.has_key,
      check_rate_limit_free services cached kept request.key w free,
      insert_user_invalid services kept data_of w v,
    )

    -- The world in which the user and his token are stored, and no job is queued.
    abbrev pub half_way : World C D Q
    half_way =
        with_stored_token services cached kept fresh new_user (with_user services kept data_of w)

    abbrev pub accepted : Q → World C D Q
    accepted q = with_limit services cached kept request.key (record half_way { queue = q })

    pub register_accepted :
        (id : Option Text) (q : Q)
        → cached.read w.cache request.key ≡ none
        → kept.valid data_of ≡ true
        → kept.taken w.db request.normalized ≡ false
        → job_call services dto new_user fresh w.queue ≡ returned id q
        → register services fresh dto w ≡ returned (to_json new_user) (accepted q)
    unfolding register
    register_accepted id q free v t queued = ground (
      arith,
      request.normalizes,
      request.has_key,
      check_rate_limit_free services cached kept request.key w free,
      insert_user_free services kept data_of w v t,
      generate_token_lem services cached kept fresh new_user (with_user services kept data_of w),
      queue_email_ok services dto new_user fresh half_way id q queued,
      set_rate_limit_lem services cached kept request.key (record half_way { queue = q }),
    )

    pub register_unqueued :
        (e : Error) (q : Q)
        → cached.read w.cache request.key ≡ none
        → kept.valid data_of ≡ true
        → kept.taken w.db request.normalized ≡ false
        → job_call services dto new_user fresh w.queue ≡ raised e q
        → register services fresh dto w
          ≡ raised
              (service_unavailable "auth:errors.addEmailJobFailed")
              (record half_way { queue = q })
    unfolding register
    register_unqueued e q free v t queued = ground (
      arith,
      request.normalizes,
      request.has_key,
      check_rate_limit_free services cached kept request.key w free,
      insert_user_free services kept data_of w v t,
      generate_token_lem services cached kept fresh new_user (with_user services kept data_of w),
      queue_email_failed services dto new_user fresh half_way e q queued,
    )
