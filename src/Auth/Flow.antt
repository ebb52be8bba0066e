-- ===== src/Auth/Flow.antt =====
-- Registration and verification together.
use mern_auth.Prelude.{
  arith, ap, length, ◌∷◌, refl, sym, is_empty, ◌≡◌, ◌≢◌, true, false, some, Option, ◌∙◌,
}
use mern_auth.Errors.{not_found}
use mern_auth.Text.{Text}
use mern_auth.Exec.{returned, raised}
use mern_auth.Cache.{IsStore}
use mern_auth.Auth.{World, Services, HostLaws}
use mern_auth.Auth.Users.{IsUserStore}
use mern_auth.Auth.Token.{verify_key, user_data_to_store}
use mern_auth.Auth.Verification.{verify, verified}
use mern_auth.Auth.Verification.Laws.{key_of, HasKeys, Names}
use mern_auth.Auth.Verification.Once.{verify_once}
use mern_auth.Auth.Registration.{user_data, RegistrationDto, register, to_json}
use mern_auth.Auth.Registration.Laws.{Request, register_accepted, new_user, accepted}
use mern_auth.Auth.Registration.Stages.{job_call}
use mern_auth.Auth.Registration.Failures.{IsFree, read_written, read_apart, find_made}

module _ {C D Q : Type 0} (services : Services C D Q) (cached : IsStore services.cache)
    (kept : IsUserStore services.users) (laws : HostLaws services.host) where
  hashes :
      (token : Text)
      → is_empty services.config.verify_email_prefix ≡ false
      → HasKeys services cached kept token
  hashes token p = let (c, s, e) = laws.hash-ne-nil token in record { prefixed = p; hashed = rw e }

  module _ (fresh : Text) (dto : RegistrationDto) (w : World C D Q) (request : Request services dto)
      (free : IsFree services cached kept dto request w) where
    accepted-Names :
        (q : Q)
        → request.key ≢ key_of services cached kept fresh
        → Names services cached kept fresh
            (accepted services cached kept fresh dto w request q)
            (new_user services cached kept fresh dto w request)
    unfolding verify_key
    accepted-Names q apart = record {
      json =
          user_data_to_store services.cache services.config services.host
            (new_user services cached kept fresh dto w request);
      parsed = record {
        user_id = some (new_user services cached kept fresh dto w request).id;
        type_name = some "verification";
      };
      kept_text =
          read_apart services cached kept request.key _ _ _ _ (key_of services cached kept fresh)
            (λ e. apart (sym e))
          ∙ read_written services cached kept (key_of services cached kept fresh) _ _ _ w.cache;
      readable = unfold user_data_to_store in laws.parse-stringify _;
      names = refl;
      exists = find_made services cached kept (user_data request.normalized dto) w.db;
    }

    -- With a reachable cache and collection, a prefix for tokens that is not empty, a rate-limit
    -- key that is not the token's key, and a queue that takes the job: a registration beyond the
    -- rate limit, of valid data whose address is free, is accepted; the token in its job then
    -- verifies the new user; and using the token again is refused with 404 and changes nothing.
    pub register_then_verify :
        (id : Option Text) (q : Q)
        → is_empty services.config.verify_email_prefix ≡ false
        → request.key ≢ key_of services cached kept fresh
        → job_call services dto (new_user services cached kept fresh dto w request) fresh w.queue
          ≡ returned id q
        → (w₁ : World C D Q) × (w₂ : World C D Q) × (register services fresh dto w
            ≡ returned (to_json (new_user services cached kept fresh dto w request)) w₁)
          × (verify services fresh w₁ ≡ returned verified w₂)
          × (kept.find w₂.db (new_user services cached kept fresh dto w request).id
              ≡ some (record (new_user services cached kept fresh dto w request) {
                is_verified = true;
              }))
          × (verify services fresh w₂ ≡ raised (not_found "auth:verify.invalidToken") w₂)
    register_then_verify id q p apart queued =
        let user = new_user services cached kept fresh dto w request in
        let w₁ = accepted services cached kept fresh dto w request q in
        let (w₂, ran, marked, others, quiet, again) =
          verify_once services cached kept fresh w₁ user (0 ∷ user.id) (hashes fresh p)
            (accepted-Names q apart) (kept.made_unverified (user_data request.normalized dto) w.db)
            (λ e. omega (arith, ap length e)) in
        (
          w₁,
          w₂,
          register_accepted services cached kept fresh dto w request id q free.unlimited free.valid
              free.free queued,
          ran,
          marked,
          again,
        )
