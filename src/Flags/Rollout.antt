-- ===== src/Flags/Rollout.antt =====
-- Who has a feature after its flags were set.
use mern_auth.Prelude.{◌≡◌, true, false, Option, none, some, arith, if◌then◌else◌}
use mern_auth.Errors.{Error}
use mern_auth.Text.{Text, text_eq, codes}
use mern_auth.Text.Laws.{text_eq_iff}
use mern_auth.Exec.{returned, raised}
use mern_auth.Flags.{RedisConnection, flag_key, user_key, rollout_key, is_enabled, enable, disable}

-- A Redis that answers: each key has one value, which only a set of that key changes.
pub record IsKeyValue {S : Type 0} (redis : RedisConnection S) : Type 0 where
  pub read : S → Text → Option Text
  pub write : Text → Text → S → S
  pub get_lem : (k : Text) (s : S) → redis.get k s ≡ returned (read s k) s
  pub set_lem : (k v : Text) (s : S) → redis.set k v s ≡ returned tt (write k v s)
  pub read-write :
      (k v : Text) (s : S) (j : Text)
      → read (write k v s) j ≡ (if text_eq k j then some v else read s j)

module _ {S : Type 0} (redis : RedisConnection S) (kept : IsKeyValue redis) where
  read_flag :
      (name v : Text) (s : S) → kept.read (kept.write (flag_key name) v s) (flag_key name) ≡ some v
  read_flag name v s = ground (
    arith,
    kept.read-write (flag_key name) v s (flag_key name),
    text_eq_iff (flag_key name) (flag_key name),
  )

  -- Disabling a feature turns it off for each user, with or without a flag of his own, and for
  -- callers without a user; enabling it turns it on for all of them.
  pub disable_overrides :
      (name : Text) (id : Option Text) (s : S)
      → ((s' : S) × (disable redis name s ≡ returned tt s')
          × (is_enabled redis name id s' ≡ returned false s'))
        × ((s' : S) × (enable redis name s ≡ returned tt s')
            × (is_enabled redis name id s' ≡ returned true s'))
  unfolding disable enable is_enabled text_eq
  disable_overrides name id s = (
    (
      kept.write (flag_key name) (codes "false") s,
      ground (arith, kept.set_lem (flag_key name) (codes "false") s),
      ground (
        arith,
        kept.get_lem (flag_key name) (kept.write (flag_key name) (codes "false") s),
        read_flag name (codes "false") s,
      ),
    ),
    (
      kept.write (flag_key name) (codes "true") s,
      ground (arith, kept.set_lem (flag_key name) (codes "true") s),
      ground (
        arith,
        kept.get_lem (flag_key name) (kept.write (flag_key name) (codes "true") s),
        read_flag name (codes "true") s,
      ),
    ),
  )

module _ {S : Type 0} (redis : RedisConnection S) where
  -- While the reads of Redis throw, each feature is on.
  pub is_enabled_raised :
      (name : Text) (id : Option Text) (e : Error) (s : S)
      → redis.get (flag_key name) s ≡ raised e s
      → is_enabled redis name id s ≡ returned true s
  unfolding is_enabled
  is_enabled_raised name id e s h = ground arith

  -- While each read of Redis comes back empty, as the degraded connection makes it, each feature is
  -- off.
  pub is_enabled_empty :
      (name : Text) (id : Option Text) (s : S)
      → ((k : Text) → redis.get k s ≡ returned none s)
      → is_enabled redis name id s ≡ returned false s
  unfolding is_enabled
  is_enabled_empty name none s empty = ground (arith, empty (flag_key name))
  is_enabled_empty name (some id) s empty =
      ground (arith, empty (flag_key name), empty (user_key name id), empty (rollout_key name))
