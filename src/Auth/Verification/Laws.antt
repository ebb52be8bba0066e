-- ===== src/Auth/Verification/Laws.antt =====
-- What verification does, for a reachable cache and user collection.
use mern_auth.Prelude.{
  inr, inl, sym, ap, Option-cases, ◌∙◌, ◌≡◌, refl, Bool, true, false, Option, none, some, arith,
  ◌++◌, is_empty, Option-cases, ◌∙◌,
}
use mern_auth.Errors.{Error, ok, http_error, not_found, plain}
use mern_auth.Text.{Text}
use mern_auth.Exec.{Outcome, returned, raised}
use mern_auth.Cache.{IsStore}
use mern_auth.Auth.{User, Services, World, Parsed}
use mern_auth.Auth.Users.{IsUserStore}
use mern_auth.Auth.Keys.{create_verify_email_key}
use mern_auth.Auth.Verification.{
  Status, verified, already_verified, settle, found_user, parsed_data, stored_data, verify,
}

module _ {C D Q : Type 0} (services : Services C D Q) (cached : IsStore services.cache)
    (kept : IsUserStore services.users) where
  open services use {config, host}

  abbrev pub key_of : Text → Text
  key_of token = config.verify_email_prefix ++ host.hash token

  -- The stored text of a token.
  abbrev pub stored : Text → World C D Q → Option Text
  stored token w = cached.read w.cache (key_of token)

  abbrev pub drop_token : Text → World C D Q → World C D Q
  drop_token token w = record w { cache = cached.erase (key_of token) w.cache }

  abbrev pub mark : User → World C D Q → World C D Q
  mark user w = record w { db = kept.put (record user { is_verified = true }) w.db }

  create_key :
      (t : Text)
      → is_empty config.verify_email_prefix ≡ false
      → is_empty t ≡ false
      → create_verify_email_key config.verify_email_prefix t ≡ ok (config.verify_email_prefix ++ t)
  unfolding create_verify_email_key
  create_key t p h = rw (p, h)

  -- The conditions on the configuration and the digest under which a key can be made.
  pub record HasKeys (token : Text) : Type 0 where
    pub prefixed : is_empty config.verify_email_prefix ≡ false
    pub hashed : is_empty (host.hash token) ≡ false

  pub verify_at :
      (token : Text) (w : World C D Q)
      → HasKeys token
      → verify services token w ≡ stored_data services (key_of token) (stored token w) w
  unfolding verify
  verify_at token w keys = ground (
    arith,
    create_key (host.hash token) keys.prefixed keys.hashed,
    cached.get_lem (key_of token) w.cache,
  )

  settle_new :
      (token : Text) (user : User) (w : World C D Q)
      → kept.find w.db user.id ≡ some user
      → settle services (key_of token) user false w
        ≡ returned verified (drop_token token (mark user w))
  unfolding settle
  settle_new token user w h = ground (
    arith,
    kept.save_lem (record user { is_verified = true }) user w.db h,
    cached.del_lem (key_of token) w.cache,
  )

  settle_old :
      (token : Text) (user : User) (w : World C D Q)
      → settle services (key_of token) user true w ≡ returned already_verified (drop_token token w)
  unfolding settle
  settle_old token user w = ground (arith, cached.del_lem (key_of token) w.cache)

  -- The state and the status of a verification whose user was found.
  abbrev pub settled : Text → User → Bool → World C D Q → Outcome (World C D Q) Status
  settled token user true w = returned already_verified (drop_token token w)
  settled token user false w = returned verified (drop_token token (mark user w))

  settle_at :
      (token : Text) (user : User) (b : Bool) (w : World C D Q)
      → kept.find w.db user.id ≡ some user
      → settle services (key_of token) user b w ≡ settled token user b w
  settle_at token user true w h = settle_old token user w
  settle_at token user false w h = settle_new token user w h

  abbrev with_user : Text → World C D Q → Option User → Outcome (World C D Q) Status
  with_user token w none = raised (not_found "auth:verify.userNotFound") w
  with_user token w (some user) = settled token user user.is_verified w

  abbrev with_id : Text → World C D Q → Option Text → Outcome (World C D Q) Status
  with_id token w none = raised (not_found "auth:verify.userNotFound") w
  with_id token w (some id) = with_user token w (kept.find w.db id)

  abbrev with_parsed : Text → World C D Q → Option (Option Parsed) → Outcome (World C D Q) Status
  with_parsed token w none = raised (http_error 500 "auth:errors.invalidDataFormat") w
  with_parsed token w (some none) =
      raised (plain "Cannot read properties of null (reading 'userId')") w
  with_parsed token w (some (some p)) = with_id token w p.user_id

  abbrev with_stored : Text → World C D Q → Option Text → Outcome (World C D Q) Status
  with_stored token w none = raised (not_found "auth:verify.invalidToken") w
  with_stored token w (some json) = with_parsed token w (host.parse json)

  found_user_at :
      (token id : Text) (o : Option User) (w : World C D Q)
      → kept.find w.db id ≡ o
      → found_user services (key_of token) o w ≡ with_user token w o
  unfolding found_user
  found_user_at token id none w h = refl
  found_user_at token id (some user) w h =
      settle_at token user user.is_verified w (ground (arith, kept.find_id w.db id user h))

  parsed_data_at :
      (token : Text) (p : Option (Option Parsed)) (w : World C D Q)
      → parsed_data services (key_of token) p w ≡ with_parsed token w p
  unfolding parsed_data
  parsed_data_at token none w = refl
  parsed_data_at token (some none) w = refl
  parsed_data_at token (some (some p)) w = elim (Option-cases p.user_id) [
    | inl e ↦ unfold found_user in ground (arith, kept.find_by_id_undefined w.db)
    | inr (id, e) ↦
        ground
          (arith, kept.find_by_id_lem id w.db, found_user_at token id (kept.find w.db id) w refl)
  ]

  stored_data_at :
      (token : Text) (o : Option Text) (w : World C D Q)
      → stored_data services (key_of token) o w ≡ with_stored token w o
  unfolding stored_data
  stored_data_at token none w = refl
  stored_data_at token (some json) w = parsed_data_at token (host.parse json) w

  -- Every branch of verify, its calls answered.
  pub verify_cases :
      (token : Text) (w : World C D Q)
      → HasKeys token
      → verify services token w ≡ with_stored token w (stored token w)
  verify_cases token w keys = verify_at token w keys ∙ stored_data_at token (stored token w) w

  -- A token that stands for an existing user: its text is stored, can be parsed, and names him.
  pub record Names (token : Text) (w : World C D Q) (user : User) : Type 0 where
    pub json : Text
    pub parsed : Parsed
    pub kept_text : stored token w ≡ some json
    pub readable : host.parse json ≡ some (some parsed)
    pub names : parsed.user_id ≡ some user.id
    pub exists : kept.find w.db user.id ≡ some user

  pub verify_of_Names :
      (token : Text) (w : World C D Q) (user : User)
      → HasKeys token
      → Names token w user
      → verify services token w ≡ settled token user user.is_verified w
  verify_of_Names token w user keys n =
      verify_cases token w keys ∙ ground (arith, n.kept_text, n.readable, n.names, n.exists)

  -- A verification that fails, under a key that can be made, changes nothing.
  pub verify_raised :
      (token : Text) (w w' : World C D Q) (e : Error)
      → HasKeys token
      → verify services token w ≡ raised e w'
      → w' ≡ w
  verify_raised token w w' e keys h = ground (arith, verify_cases token w keys)

  -- A verification that succeeds, under a key that can be made, had a stored text that could be
  -- parsed and named an existing user.
  pub verify_returned :
      (token : Text) (w w' : World C D Q) (s : Status)
      → HasKeys token
      → verify services token w ≡ returned s w'
      → (user : User) × Names token w user
  verify_returned token w w' s keys h =
      let ran : with_stored token w (stored token w) ≡ returned s w' =
        sym (verify_cases token w keys) ∙ h in
      elim (Option-cases (stored token w)) [
        | inl e ↦ ground arith
        | inr (json, e) ↦ elim (Option-cases (host.parse json)) [
          | inl f ↦ ground arith
          | inr (value, f₀) ↦ elim (Option-cases value) [
            | inl n ↦ ground arith
            | inr (p, f₁) ↦
                let f : host.parse json ≡ some (some p) = f₀ ∙ ap some f₁ in
                elim (Option-cases p.user_id) [
                  | inl g ↦ ground arith
                  | inr (id, g) ↦ elim (Option-cases (kept.find w.db id)) [
                    | inl x ↦ ground arith
                    | inr (user, x) ↦
                        let same : user.id ≡ id = kept.find_id w.db id user x in
                        (
                          user,
                          record {
                            json = json;
                            parsed = p;
                            kept_text = e;
                            readable = f;
                            names = ground arith;
                            exists = ground arith;
                          },
                        )
                  ]
                ]
          ]
        ]
      ]
