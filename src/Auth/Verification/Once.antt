-- ===== src/Auth/Verification/Once.antt =====
-- One verification, and the next one with its token.
use mern_auth.Prelude.{◌≡◌, ◌≢◌, true, false, none, some, arith}
use mern_auth.Errors.{not_found}
use mern_auth.Text.{Text}
use mern_auth.Text.Laws.{text_eq_refl, text_eq_iff}
use mern_auth.Exec.{returned, raised}
use mern_auth.Cache.{IsStore}
use mern_auth.Auth.{User, Services, World}
use mern_auth.Auth.Users.{IsUserStore}
use mern_auth.Auth.Verification.{verified, verify}
use mern_auth.Auth.Verification.Laws.{
  verify_cases, key_of, stored, drop_token, mark, HasKeys, Names, verify_of_Names,
}

module _ {C D Q : Type 0} (services : Services C D Q) (cached : IsStore services.cache)
    (kept : IsUserStore services.users) where
  dropped :
      (token : Text) (w : World C D Q)
      → stored services cached kept token (drop_token services cached kept token w) ≡ none
  dropped token w =
      let key = key_of services cached kept token in
      ground (arith, cached.read-erase key w.cache key, text_eq_refl key)

  -- Verifying a token that names an unverified user, under a key that can be made, sets that user's
  -- mark, leaves each user with another id and the queue as they were, and uses the token up: the
  -- next attempt with it is refused with 404 and changes nothing.
  pub verify_once :
      (token : Text) (w : World C D Q) (user : User) (other : Text)
      → HasKeys services cached kept token
      → Names services cached kept token w user
      → user.is_verified ≡ false
      → other ≢ user.id
      → (w' : World C D Q) × (verify services token w ≡ returned verified w')
        × (kept.find w'.db user.id ≡ some (record user { is_verified = true }))
        × (kept.find w'.db other ≡ kept.find w.db other)
        × (w'.queue ≡ w.queue)
        × (verify services token w' ≡ raised (not_found "auth:verify.invalidToken") w')
  verify_once token w user other keys names unverified ne =
      let w' = drop_token services cached kept token (mark services cached kept user w) in
      let marked : User = record user { is_verified = true } in
      (
        w',
        ground (arith, verify_of_Names services cached kept token w user keys names),
        ground (arith, kept.find-put marked w.db user.id, text_eq_refl user.id),
        ground (arith, kept.find-put marked w.db other, text_eq_iff user.id other),
        ground arith,
        ground (
          arith,
          verify_cases services cached kept token w' keys,
          dropped token (mark services cached kept user w),
        ),
      )
