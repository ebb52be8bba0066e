-- ===== src/Auth/Token/Laws.antt =====
-- Creating, reading and deleting verification tokens.
use mern_auth.Prelude.{◌≡◌, ◌≢◌, refl, some, arith}
use mern_auth.Errors.{Error, token_creation_error, not_found}
use mern_auth.Text.{Text}
use mern_auth.Text.Laws.{text_eq_refl, text_eq_iff}
use mern_auth.Exec.{Exec, Outcome, returned, raised, try_catch}
use mern_auth.Cache.{CacheService, IsStore, IsTotal, ex}
use mern_auth.Auth.{User, Config, Host, HostLaws}
use mern_auth.Auth.Token.{
  token_data, verify_key, user_data_to_store, store_token, create_verification_token, verify_token,
  delete_token,
}

module _ {C : Type 0} (cache : CacheService C) (config : Config) (host : Host) where
  -- The state after a token was stored.
  abbrev pub with_token : IsStore cache → Text → User → C → C
  with_token store fresh user c =
      store.write (verify_key cache config host fresh) (user_data_to_store cache config host user)
        (some ex) (some config.verification_token_expires_in) c

  pub create_verification_token-returned :
      (store : IsStore cache) (fresh : Text) (user : User) (c : C)
      → create_verification_token cache config host fresh user c
        ≡ returned fresh (with_token store fresh user c)
  unfolding create_verification_token
  create_verification_token-returned store fresh user c =
      let key = verify_key cache config host fresh in
      let stored = with_token store fresh user c in
      ground (
        arith,
        store.set_lem key (user_data_to_store cache config host user) (some ex)
            (some config.verification_token_expires_in) c,
        store.ttl_lem key stored,
      )

  pub verify_token_at :
      (store : IsStore cache) (token : Text) (c : C)
      → verify_token cache config host token c
        ≡ token_data cache config host (store.read c (verify_key cache config host token)) c
  unfolding verify_token
  verify_token_at store token c =
      ground (arith, store.get_lem (verify_key cache config host token) c)

  -- With a reachable cache and a host whose JSON comes back, a token that was just created is
  -- verified to the user that it was created for.
  pub verify_token-create :
      (store : IsStore cache) (laws : HostLaws host) (fresh : Text) (user : User) (c c' : C)
      (token : Text)
      → create_verification_token cache config host fresh user c ≡ returned token c'
      → verify_token cache config host token c'
        ≡ returned (record { user_id = some user.id; type_name = "verification" }) c'
  unfolding user_data_to_store
  verify_token-create store laws fresh user c c' token e = ground (
    arith,
    create_verification_token-returned store fresh user c,
    verify_token_at store token c',
    store.read-write (verify_key cache config host fresh)
        (user_data_to_store cache config host user) (some ex)
        (some config.verification_token_expires_in) c (verify_key cache config host fresh),
    text_eq_refl (verify_key cache config host fresh),
    laws.parse-stringify (record { user_id = user.id; email = user.email }),
  )

  -- With a reachable cache, a token that was deleted is refused, and a token that is stored under
  -- another key has the outcome that its stored text gives it.
  pub verify_token-delete :
      (store : IsStore cache) (token other : Text) (c : C)
      → verify_key cache config host token ≢ verify_key cache config host other
      → (c' : C) × (delete_token cache config host token c ≡ returned tt c')
        × (verify_token cache config host token c'
            ≡ raised (not_found "auth:verify.invalidToken") c')
        × (verify_token cache config host other c'
            ≡ token_data cache config host (store.read c (verify_key cache config host other)) c')
  unfolding delete_token
  verify_token-delete store token other c ne =
      let key = verify_key cache config host token in
      let gone = store.erase key c in
      (
        gone,
        ground (arith, store.del_lem key c),
        ground
            (arith, verify_token_at store token gone, store.read-erase key c key, text_eq_refl key),
        ground (
          arith,
          verify_token_at store other gone,
          store.read-erase key c (verify_key cache config host other),
          text_eq_iff key (verify_key cache config host other),
        ),
      )

  wrapped :
      (m : Exec C Text) (c c' : C) (e : Error)
      → try_catch m (λ x. raised (token_creation_error "Token creation failed" x)) c ≡ raised e c'
      → (cause : Error) × (e ≡ token_creation_error "Token creation failed" cause)
        × (m c ≡ raised cause c')
  wrapped m c c' e h = wrapped_outcome (m c) refl h
    where
      wrapped_outcome :
          (o : Outcome C Text)
          → m c ≡ o
          → try_catch
              (λ (s : C). o)
              (λ x. raised (token_creation_error "Token creation failed" x))
              c
            ≡ raised e c'
          → (cause : Error) × (e ≡ token_creation_error "Token creation failed" cause)
            × (m c ≡ raised cause c')
      wrapped_outcome (returned t s) p q = cc
      wrapped_outcome (raised x s) p q = (x, ground arith, ground arith)

  -- Whatever the cache does, an error of a creation is TokenCreationError, with the error of the
  -- storing as its cause.
  pub create_verification_token-raised :
      (fresh : Text) (user : User) (c c' : C) (e : Error)
      → create_verification_token cache config host fresh user c ≡ raised e c'
      → (cause : Error) × (e ≡ token_creation_error "Token creation failed" cause)
        × (store_token cache config host fresh user c ≡ raised cause c')
  create_verification_token-raised fresh user c c' e h =
      wrapped (store_token cache config host fresh user) c c' e
        (unfold create_verification_token in h)

  -- Over a cache whose set and ttl never throw, a creation returns its token, whether or not it was
  -- stored.
  pub create_verification_token-total :
      (total : IsTotal cache) (fresh : Text) (user : User) (c : C)
      → (c' : C) × (create_verification_token cache config host fresh user c ≡ returned fresh c')
  unfolding create_verification_token
  create_verification_token-total total fresh user c =
      let key = verify_key cache config host fresh in
      let (r, c₁, e) =
        total.set_total key (user_data_to_store cache config host user) (some ex)
          (some config.verification_token_expires_in) c in
      let (t, c₂, f) = total.ttl_total key c₁ in (c₂, ground arith)
