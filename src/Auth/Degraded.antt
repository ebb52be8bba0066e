-- ===== src/Auth/Degraded.antt =====
-- Registration and verification while the circuit breaker of Redis refuses every command.
use mern_auth.Auth.Registration.Stages.{queue_email_ok, insert_user_free, with_user, job_call}
use mern_auth.Auth.Registration.Laws.{Request}
use mern_auth.Auth.Keys.{create_verify_email_key}
use mern_auth.Auth.Verification.{verify}
use mern_auth.Auth.Token.{user_data_to_store, verify_key, create_verification_token}
use mern_auth.Auth.Registration.{
  to_json, user_data, rate_limit_duration, rate_limit_value, RegistrationDto, set_rate_limit,
  register, generate_token, check_rate_limit,
}
use mern_auth.Prelude.{◌++◌, is_empty, arith, ◌≡◌, refl, ap, ◌∙◌, true, false, none, some, Option}
use mern_auth.Errors.{Error, not_found}
use mern_auth.Text.{Text}
use mern_auth.Exec.{Exec, returned, raised}
use mern_auth.Cache.{ex, ttl_cmd, set_cmd, get_cmd, CacheService, Command, Reply, null, ExpiryMode}
use mern_auth.Cache.Proxy.{is_pass_through, is_non_critical_command, guarded_cache, proxied-refused}
use mern_auth.Cache.Adapter.{redis_cache_adapter, lifetime}
use mern_auth.Auth.{ℕ, User, World, Services}
use mern_auth.Auth.Users.{IsUserStore}

-- A cache that has nothing, stores nothing, and answers null.
pub record IsDown {C : Type 0} (cache : CacheService C) (after : C → C) : Type 0 where
  pub get_down : (k : Text) (c : C) → cache.get k c ≡ returned none (after c)
  pub set_down :
      (k v : Text) (m : Option ExpiryMode) (t : Option ℕ) (c : C)
      → cache.set k v m t c ≡ returned null (after c)
  pub ttl_down : (k : Text) (c : C) → cache.ttl k c ≡ returned null (after c)

module _ {R : Type 0} (direct fire : Command → Exec R Reply) (refuse : R → R) (e : Error)
    (refuses : (command : Command) (s : R) → fire command s ≡ raised e (refuse s)) where
  -- While the breaker refuses every command, get, set and ttl of the services' cache answer null
  -- and throw nothing.
  pub guarded_cache-IsDown : IsDown (guarded_cache direct fire) refuse
  unfolding redis_cache_adapter is_non_critical_command is_pass_through
  guarded_cache-IsDown = record {
    get_down = λ k s. ground (
      arith,
      proxied-refused direct fire (get_cmd k) s (refuse s) e refl refl (refuses (get_cmd k) s),
    );
    set_down = λ k v m t s.
        proxied-refused direct fire (set_cmd k v (lifetime m t)) s (refuse s) e refl refl
          (refuses (set_cmd k v (lifetime m t)) s);
    ttl_down = λ k s.
        proxied-refused direct fire (ttl_cmd k) s (refuse s) e refl refl (refuses (ttl_cmd k) s);
  }

module _ {C D Q : Type 0} (services : Services C D Q) (kept : IsUserStore services.users)
    (after : C → C) (down : IsDown services.cache after) where
  open services use {cache, config, host}

  abbrev passed : World C D Q → World C D Q
  passed w = record w { cache = after w.cache }

  check_rate_limit_down :
      (key : Text) (w : World C D Q) → check_rate_limit services key w ≡ returned tt (passed w)
  unfolding check_rate_limit
  check_rate_limit_down key w = ground (arith, down.get_down key w.cache)

  create_token_down :
      (fresh : Text) (user : User) (c : C)
      → create_verification_token cache config host fresh user c ≡ returned fresh (after (after c))
  unfolding create_verification_token
  create_token_down fresh user c = ground (
    arith,
    down.set_down (verify_key cache config host fresh) (user_data_to_store cache config host user)
        (some ex) (some config.verification_token_expires_in) c,
    down.ttl_down (verify_key cache config host fresh) (after c),
  )

  generate_token_down :
      (fresh : Text) (user : User) (w : World C D Q)
      → generate_token services fresh user w ≡ returned fresh (passed (passed w))
  unfolding generate_token
  generate_token_down fresh user w = ground (arith, create_token_down fresh user w.cache)

  set_rate_limit_down :
      (key : Text) (w : World C D Q) → set_rate_limit services key w ≡ returned tt (passed w)
  unfolding set_rate_limit
  set_rate_limit_down key w =
      ground
        (arith, down.set_down key rate_limit_value (some ex) (some rate_limit_duration) w.cache)

  verify_down :
      (token : Text) (w : World C D Q)
      → is_empty config.verify_email_prefix ≡ false
      → is_empty (host.hash token) ≡ false
      → verify services token w ≡ raised (not_found "auth:verify.invalidToken") (passed w)
  unfolding verify create_verify_email_key
  verify_down token w p h =
      ground (arith, down.get_down (config.verify_email_prefix ++ host.hash token) w.cache)

  register_passed :
      (fresh : Text) (dto : RegistrationDto) (w : World C D Q) (request : Request services dto)
      (id : Option Text) (q : Q)
      → kept.valid (user_data request.normalized dto) ≡ true
      → kept.taken w.db request.normalized ≡ false
      → job_call services dto (kept.made (user_data request.normalized dto) w.db) fresh w.queue
        ≡ returned id q
      → register services fresh dto w
        ≡ returned (to_json (kept.made (user_data request.normalized dto) w.db)) (record w {
          cache = after (after (after (after w.cache)));
          db = kept.insert (user_data request.normalized dto) w.db;
          queue = q;
        })
  unfolding register
  register_passed fresh dto w request id q v t queued =
      let user = kept.made (user_data request.normalized dto) w.db in
      let made = with_user services kept (user_data request.normalized dto) (passed w) in
      let queued_world : World C D Q = record (passed (passed made)) { queue = q } in
      ground (
        arith,
        request.normalizes,
        request.has_key,
        check_rate_limit_down request.key w,
        insert_user_free services kept (user_data request.normalized dto) (passed w) v t,
        generate_token_down fresh user made,
        queue_email_ok services dto user fresh (passed (passed made)) id q queued,
        set_rate_limit_down request.key queued_world,
      )

-- The services over the proxied connection, and over a Redis that is reachable again.
abbrev pub over_cache : {C D Q : Type 0} → Services C D Q → CacheService C → Services C D Q
over_cache services cache = record services { cache = cache }

module _ {R D Q : Type 0} (direct fire : Command → Exec R Reply) (refuse : R → R) (e : Error)
    (refuses : (command : Command) (s : R) → fire command s ≡ raised e (refuse s))
    (contents : R → Text → Option Text)
    (untouched : (s : R) (k : Text) → contents (refuse s) k ≡ contents s k)
    (services : Services R D Q) (kept : IsUserStore services.users) where
  open services use {config, host}

  abbrev pub degraded : Services R D Q
  degraded = over_cache services (guarded_cache direct fire)

  four_times : (s : R) (k : Text) → contents (refuse (refuse (refuse (refuse s)))) k ≡ contents s k
  four_times s k =
      untouched (refuse (refuse (refuse s))) k
      ∙ untouched (refuse (refuse s)) k
      ∙ untouched (refuse s) k
      ∙ untouched s k

  -- Without a stored text, a verification is refused when Redis answers.
  verify_missing :
      (again : CacheService R) (token : Text) (w : World R D Q)
      → is_empty config.verify_email_prefix ≡ false
      → is_empty (host.hash token) ≡ false
      → again.get (config.verify_email_prefix ++ host.hash token) w.cache ≡ returned none w.cache
      → verify (over_cache services again) token w ≡ raised (not_found "auth:verify.invalidToken") w
  unfolding verify create_verify_email_key
  verify_missing again token w p h missing = ground arith

  -- While the breaker refuses every command and what Redis contains stays as it is, and the token's
  -- key can be made and has no value yet: a registration of valid data with a free address succeeds
  -- if the queue takes its job: the user is made and the job queued, but Redis contains what it
  -- contained before, so that the token in the job is not stored; verifying it is refused with 404,
  -- both while the breaker refuses and once Redis answers again with these contents.
  pub register_down :
      (fresh : Text) (dto : RegistrationDto) (w : World R D Q) (request : Request degraded dto)
      (id : Option Text) (q : Q) (again : CacheService R)
      → is_empty config.verify_email_prefix ≡ false
      → is_empty (host.hash fresh) ≡ false
      → kept.valid (user_data request.normalized dto) ≡ true
      → kept.taken w.db request.normalized ≡ false
      → job_call degraded dto (kept.made (user_data request.normalized dto) w.db) fresh w.queue
        ≡ returned id q
      → contents w.cache (config.verify_email_prefix ++ host.hash fresh) ≡ none
      → ((k : Text) (s : R) → again.get k s ≡ returned (contents s k) s)
      → (w' : World R D Q) × (w'' : World R D Q) × (register degraded fresh dto w
          ≡ returned (to_json (kept.made (user_data request.normalized dto) w.db)) w')
        × (w'.db ≡ kept.insert (user_data request.normalized dto) w.db)
        × (w'.queue ≡ q)
        × ((k : Text) → contents w'.cache k ≡ contents w.cache k)
        × (verify degraded fresh w' ≡ raised (not_found "auth:verify.invalidToken") w'')
        × (verify (over_cache services again) fresh w'
            ≡ raised (not_found "auth:verify.invalidToken") w')
  register_down fresh dto w request id q again p h v t queued absent answers =
      let down = guarded_cache-IsDown direct fire refuse e refuses in
      let w' : World R D Q = record w {
        cache = refuse (refuse (refuse (refuse w.cache)));
        db = kept.insert (user_data request.normalized dto) w.db;
        queue = q;
      } in
      let key = config.verify_email_prefix ++ host.hash fresh in
      (
        w',
        record w' { cache = refuse w'.cache },
        register_passed degraded kept refuse down fresh dto w request id q v t queued,
        refl,
        refl,
        four_times w.cache,
        verify_down degraded kept refuse down fresh w' p h,
        verify_missing again fresh w' p h (
            answers key w'.cache ∙ ap (λ o. returned o w'.cache) (four_times w.cache key ∙ absent)),
      )
