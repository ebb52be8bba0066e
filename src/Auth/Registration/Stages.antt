-- ===== src/Auth/Registration/Stages.antt =====
-- The stages of a registration one by one, over a reachable cache and user collection.
use mern_auth.Prelude.{◌∷◌, arith, ◌≡◌, true, false, none, some, []}
use mern_auth.Errors.{Error, http_error}
use mern_auth.Text.{Text}
use mern_auth.Exec.{Exec, returned, raised, ◌>>=◌, try_catch}
use mern_auth.Cache.{IsStore, ex}
use mern_auth.Auth.{Option, User, UserData, World, Services}
use mern_auth.Auth.Users.{IsUserStore}
use mern_auth.Auth.Token.Laws.{with_token, create_verification_token-returned}
use mern_auth.Auth.Registration.{
  too_many_requests, service_unavailable, conflict_error, RegistrationDto, rate_limit_value,
  rate_limit_duration, check_rate_limit, create_user, insert_user, generate_token, queue_email,
  set_rate_limit, verification_job, job_id, send_verification_email,
}

-- The error of a taken address.
abbrev pub in_use : Error
in_use =
    conflict_error "auth:logs.registerDuplicateKey"
      (record { field = "email"; message = "validation:email.inUse"; count = none } ∷ [])

module _ {C D Q : Type 0} (services : Services C D Q) where
  open services use {email_producer}

  abbrev pub job_call : RegistrationDto → User → Text → Exec Q (Option Text)
  job_call dto user token =
      email_producer.add_job send_verification_email (verification_job dto user token)
        (job_id user.id)

  pub queue_email_ok :
      (dto : RegistrationDto) (user : User) (token : Text) (w : World C D Q) (id : Option Text)
      (q : Q)
      → job_call dto user token w.queue ≡ returned id q
      → queue_email services dto user token w ≡ returned id (record w { queue = q })
  unfolding queue_email
  queue_email_ok dto user token w id q h = ground arith

  pub queue_email_failed :
      (dto : RegistrationDto) (user : User) (token : Text) (w : World C D Q) (e : Error) (q : Q)
      → job_call dto user token w.queue ≡ raised e q
      → queue_email services dto user token w
        ≡ raised (service_unavailable "auth:errors.addEmailJobFailed") (record w { queue = q })
  unfolding queue_email
  queue_email_failed dto user token w e q h = ground arith

module _ {C D Q : Type 0} (services : Services C D Q) (kept : IsUserStore services.users) where
  abbrev pub with_user : UserData → World C D Q → World C D Q
  with_user x w = record w { db = kept.insert x w.db }

  create_user_free :
      (x : UserData) (d : D)
      → kept.valid x ≡ true
      → kept.taken d x.normalized_email ≡ false
      → create_user services x d ≡ returned (kept.made x d) (kept.insert x d)
  unfolding create_user
  create_user_free x d v t = ground (arith, kept.create_lem x d v t)

  pub insert_user_free :
      (x : UserData) (w : World C D Q)
      → kept.valid x ≡ true
      → kept.taken w.db x.normalized_email ≡ false
      → insert_user services x w ≡ returned (kept.made x w.db) (with_user x w)
  unfolding insert_user
  insert_user_free x w v t = ground (
    arith,
    kept.start_session_lem w.db,
    kept.transaction_commits (create_user services x) (kept.made x w.db) w.db (kept.insert x w.db)
        (create_user_free x w.db v t),
  )

  create_user_taken :
      (x : UserData) (d : D)
      → kept.valid x ≡ true
      → kept.taken d x.normalized_email ≡ true
      → create_user services x d ≡ raised in_use d
  unfolding create_user
  create_user_taken x d v t = rw (kept.create_taken x d v t, ◌>>=◌, try_catch)

  pub insert_user_taken :
      (x : UserData) (w : World C D Q)
      → kept.valid x ≡ true
      → kept.taken w.db x.normalized_email ≡ true
      → insert_user services x w ≡ raised in_use w
  unfolding insert_user
  insert_user_taken x w v t = ground (
    arith,
    kept.start_session_lem w.db,
    kept.transaction_aborts (create_user services x) in_use w.db w.db
        (create_user_taken x w.db v t),
  )

  create_user_invalid :
      (x : UserData) (d : D)
      → kept.valid x ≡ false
      → create_user services x d ≡ raised (http_error 500 "auth:errors.registrationFailed") d
  unfolding create_user
  create_user_invalid x d v = ground (arith, kept.create_invalid x d v)

  pub insert_user_invalid :
      (x : UserData) (w : World C D Q)
      → kept.valid x ≡ false
      → insert_user services x w ≡ raised (http_error 500 "auth:errors.registrationFailed") w
  unfolding insert_user
  insert_user_invalid x w v = ground (
    arith,
    kept.start_session_lem w.db,
    kept.transaction_aborts (create_user services x)
        (http_error 500 "auth:errors.registrationFailed") w.db w.db (create_user_invalid x w.db v),
  )

module _ {C D Q : Type 0} (services : Services C D Q) (cached : IsStore services.cache)
    (kept : IsUserStore services.users) where
  open services use {cache, users, config, host, email_producer}

  pub check_rate_limit_free :
      (key : Text) (w : World C D Q)
      → cached.read w.cache key ≡ none
      → check_rate_limit services key w ≡ returned tt w
  unfolding check_rate_limit
  check_rate_limit_free key w h = ground (arith, cached.get_lem key w.cache)

  pub check_rate_limit_hit :
      (key value : Text) (w : World C D Q)
      → cached.read w.cache key ≡ some value
      → check_rate_limit services key w ≡ raised (too_many_requests rate_limit_duration) w
  unfolding check_rate_limit
  check_rate_limit_hit key value w h = ground (arith, cached.get_lem key w.cache)

  -- The world after the token was stored.
  abbrev pub with_stored_token : Text → User → World C D Q → World C D Q
  with_stored_token fresh user w = record w {
    cache = with_token cache config host cached fresh user w.cache;
  }

  pub generate_token_lem :
      (fresh : Text) (user : User) (w : World C D Q)
      → generate_token services fresh user w ≡ returned fresh (with_stored_token fresh user w)
  unfolding generate_token
  generate_token_lem fresh user w =
      ground (arith, create_verification_token-returned cache config host cached fresh user w.cache)

  -- The world after the rate limit was set.
  abbrev pub with_limit : Text → World C D Q → World C D Q
  with_limit key w = record w {
    cache = cached.write key rate_limit_value (some ex) (some rate_limit_duration) w.cache;
  }

  pub set_rate_limit_lem :
      (key : Text) (w : World C D Q)
      → set_rate_limit services key w ≡ returned tt (with_limit key w)
  unfolding set_rate_limit
  set_rate_limit_lem key w =
      ground
        (arith, cached.set_lem key rate_limit_value (some ex) (some rate_limit_duration) w.cache)
