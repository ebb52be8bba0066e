-- ===== src/Auth/Registration/Failures.antt =====
-- What a registration leaves behind, and what the next one meets.
use mern_auth.Prelude.{arith, ◌∙◌, ℕ, ◌≡◌, ◌≢◌, true, false, none, some, Option}
use mern_auth.Errors.{Error, too_many_requests, service_unavailable}
use mern_auth.Text.{Text, to_lower_case, trim}
use mern_auth.Text.Laws.{text_eq_refl, text_eq_iff}
use mern_auth.Exec.{returned, raised}
use mern_auth.Cache.{IsStore, ExpiryMode}
use mern_auth.Auth.{UserData, World, Services}
use mern_auth.Auth.Users.{IsUserStore}
use mern_auth.Auth.Token.{verify_key, user_data_to_store}
use mern_auth.Auth.Verification.Laws.{key_of}
use mern_auth.Auth.Registration.{rate_limit_value, RegistrationDto, register, user_data, to_json}
use mern_auth.Auth.Registration.Laws.{
  Request, register_limited, register_taken, register_accepted, register_unqueued, new_user,
  half_way, accepted,
}
use mern_auth.Auth.Registration.Stages.{in_use, job_call}

module _ {C D Q : Type 0} (services : Services C D Q) (cached : IsStore services.cache)
    (kept : IsUserStore services.users) where
  pub find_made :
      (x : UserData) (d : D) → kept.find (kept.insert x d) (kept.made x d).id ≡ some (kept.made x d)
  find_made x d =
      ground (arith, kept.find-insert x d (kept.made x d).id, text_eq_refl (kept.made x d).id)

  pub read_written :
      (k v : Text) (m : Option ExpiryMode) (t : Option ℕ) (c : C)
      → cached.read (cached.write k v m t c) k ≡ some v
  read_written k v m t c = ground (arith, cached.read-write k v m t c k, text_eq_refl k)

  pub read_apart :
      (k v : Text) (m : Option ExpiryMode) (t : Option ℕ) (c : C) (j : Text)
      → j ≢ k
      → cached.read (cached.write k v m t c) j ≡ cached.read c j
  read_apart k v m t c j ne = ground (arith, cached.read-write k v m t c j, text_eq_iff k j)

  taken_made :
      (x : UserData) (d : D)
      → to_lower_case (trim x.normalized_email) ≡ x.normalized_email
      → kept.taken (kept.insert x d) x.normalized_email ≡ true
  taken_made x d h =
      ground (arith, kept.taken-insert x d x.normalized_email h, text_eq_refl x.normalized_email)

  -- A request that gets past the limit and past the collection.
  pub record IsFree (dto : RegistrationDto) (request : Request services dto) (w : World C D Q)
      : Type 0 where
    pub unlimited : cached.read w.cache request.key ≡ none
    pub valid : kept.valid (user_data request.normalized dto) ≡ true
    pub free : kept.taken w.db request.normalized ≡ false

  module _ (fresh : Text) (dto : RegistrationDto) (w : World C D Q) (request : Request services dto)
      (free : IsFree dto request w) where
    -- A registration beyond the rate limit, of valid data with a free address, whose job the queue
    -- takes, makes the user, unverified, and answers without the password; and while its limit is
    -- stored the next registration from this address is refused with 429 and changes nothing.
    pub register_then_limited :
        (id : Option Text) (q : Q) (next : Text)
        → job_call services dto (new_user services cached kept fresh dto w request) fresh w.queue
          ≡ returned id q
        → (w' : World C D Q) × (register services fresh dto w
            ≡ returned (to_json (new_user services cached kept fresh dto w request)) w')
          × (kept.find w'.db (new_user services cached kept fresh dto w request).id
              ≡ some (new_user services cached kept fresh dto w request))
          × ((new_user services cached kept fresh dto w request).is_verified ≡ false)
          × (w'.queue ≡ q)
          × (register services next dto w' ≡ raised (too_many_requests 180) w')
    register_then_limited id q next queued =
        let user = new_user services cached kept fresh dto w request in
        let w' = accepted services cached kept fresh dto w request q in
        (
          w',
          register_accepted services cached kept fresh dto w request id q free.unlimited free.valid
              free.free queued,
          find_made (user_data request.normalized dto) w.db,
          kept.made_unverified (user_data request.normalized dto) w.db,
          ground arith,
          register_limited services cached kept next dto w' request rate_limit_value
              (read_written request.key _ _ _ _),
        )

    -- If the queue refuses the job of a registration that is otherwise fine, the answer is 503, but
    -- the user stays in the collection and the next registration with the same data is refused as a
    -- duplicate, if the normal form of the address is stored as it is and the rate-limit key is not
    -- the token's key.
    pub register_unqueued_locks_out :
        (e : Error) (q : Q) (next : Text)
        → to_lower_case (trim request.normalized) ≡ request.normalized
        → request.key ≢ key_of services cached kept fresh
        → job_call services dto (new_user services cached kept fresh dto w request) fresh w.queue
          ≡ raised e q
        → (w' : World C D Q) × (register services fresh dto w
            ≡ raised (service_unavailable "auth:errors.addEmailJobFailed") w')
          × (kept.find w'.db (new_user services cached kept fresh dto w request).id
              ≡ some (new_user services cached kept fresh dto w request))
          × (register services next dto w' ≡ raised in_use w')
    unfolding verify_key user_data_to_store
    register_unqueued_locks_out e q next canonical apart queued =
        let user = new_user services cached kept fresh dto w request in
        let half = half_way services cached kept fresh dto w request in
        let w' : World C D Q = record half { queue = q } in
        (
          w',
          register_unqueued services cached kept fresh dto w request e q free.unlimited free.valid
              free.free queued,
          find_made (user_data request.normalized dto) w.db,
          register_taken services cached kept next dto w' request
              (read_apart _ _ _ _ w.cache request.key apart ∙ free.unlimited) free.valid
              (unfold user_data in taken_made (user_data request.normalized dto) w.db canonical),
        )
