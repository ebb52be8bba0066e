-- ===== src/Flags.antt =====
-- FeatureFlagService, packages/feature-flags/src/feature-flags.ts: flags kept in Redis. Redis is a
-- parameter; logging is left out, and percentages are whole numbers from 0 on.
pub mod Hash
pub mod Rollout
pub mod Listing
use mern_auth.Prelude.{
  String, ℕ, zero, suc, ◌+◌, ◌-◌, ◌*◌, ◌/◌, ◌%◌, ◌^◌, Bool, true, false, ◌&&◌, ◌||◌, Option, none,
  some, List, [], ◌∷◌, ◌++◌, ltb, leb, if◌then◌else◌, ◌==◌,
}
use mern_auth.Errors.{Error, plain}
use mern_auth.Text.{Text, codes, text_eq, trim_start}
use mern_auth.Exec.{Exec, pure, throw, try_catch, ◌>>=◌, ◌>>◌}

-- IRedisConnection, as far as the service calls it.
pub record RedisConnection (S : Type 0) : Type 0 where
  pub get : Text → Exec S (Option Text)
  pub set : Text → Text → Exec S (Unit {0})

unfoldable pub flag_key : Text → Text
flag_key name = codes "flag:" ++ name

unfoldable pub user_key : Text → Text → Text
unfolding flag_key
user_key name id = (flag_key name ++ codes ":user:") ++ id

unfoldable pub rollout_key : Text → Text
unfolding flag_key
rollout_key name = flag_key name ++ codes ":rollout"

-- One round of hashUserId. A 32-bit integer is kept as what it is modulo 2 ^ 32.
unfoldable pub hash_step : ℕ → ℕ → ℕ
hash_step hash char = (hash * 32 % 4294967296 + (4294967296 - hash) + char) % 4294967296

unfoldable pub hash_from : ℕ → Text → ℕ
unfolding hash_step
hash_from hash [] = hash
hash_from hash (c ∷ s) = hash_from (hash_step hash c) s

-- Math.abs of the signed integer
unfoldable pub magnitude : ℕ → ℕ
magnitude hash = if ltb hash 2147483648 then hash else 4294967296 - hash

unfoldable pub hash_user_id : Text → ℕ
unfolding hash_from magnitude
hash_user_id id = magnitude (hash_from 0 id) % 100

-- percentage.toString(), the digits from the last one on; a number needs no more rounds than it
-- says itself.
unfoldable pub digits : ℕ → ℕ → Text → Text
digits zero n rest = (48 + n) ∷ rest
digits (suc fuel) n rest =
    if ltb n 10 then (48 + n) ∷ rest else digits fuel (n / 10) ((48 + n % 10) ∷ rest)

unfoldable pub to_string : ℕ → Text
unfolding digits
to_string n = digits n n []

abbrev pub is_digit : ℕ → Bool
is_digit c = leb 48 c && leb c 57

unfoldable pub parse_digits : ℕ → Text → ℕ
parse_digits n [] = n
parse_digits n (c ∷ s) = if is_digit c then parse_digits (n * 10 + (c - 48)) s else n

abbrev starting_digit : Text → Option ℕ
starting_digit [] = none
starting_digit (c ∷ s) = if is_digit c then some (parse_digits 0 (c ∷ s)) else none

abbrev without_plus : Text → Text
without_plus [] = []
without_plus (c ∷ s) = if c == 43 then s else c ∷ s

-- parseInt(text, 10); none is NaN or a negative number, which no hash is below.
unfoldable pub parse_int : Text → Option ℕ
unfolding parse_digits
parse_int s = starting_digit (without_plus (trim_start s))

abbrev pub is_below : ℕ → Option ℕ → Bool
is_below n none = false
is_below n (some m) = ltb n m

abbrev pub is_text : String → Option Text → Bool
is_text s none = false
is_text s (some t) = text_eq t (codes s)

abbrev pub by_rollout : Text → Option Text → Bool
by_rollout id none = false
by_rollout id (some []) = false
by_rollout id (some (c ∷ s)) = is_below (hash_user_id id) (parse_int (c ∷ s))

module _ {S : Type 0} (redis : RedisConnection S) where
  abbrev pub for_user : Text → Option Text → Exec S Bool
  for_user name none = pure false
  for_user name (some id) = do
    user_flag ← redis.get (user_key name id)
    (if is_text "true" user_flag
        then pure true
        else (redis.get (rollout_key name) >>= λ rollout. pure (by_rollout id rollout)))

  unfoldable pub is_enabled : Text → Option Text → Exec S Bool
  unfolding flag_key user_key rollout_key hash_user_id parse_int
  is_enabled name id =
      try_catch
        (do
          global_flag ← redis.get (flag_key name)
          (if is_text "true" global_flag
              then pure true
              else if is_text "false" global_flag
              then pure false
              else for_user name id))
        (λ e. pure true)

  unfoldable pub enable : Text → Exec S (Unit {0})
  enable name = redis.set (flag_key name) (codes "true")

  unfoldable pub disable : Text → Exec S (Unit {0})
  disable name = redis.set (flag_key name) (codes "false")

  unfoldable pub enable_for_user : Text → Text → Exec S (Unit {0})
  enable_for_user name id = redis.set (user_key name id) (codes "true")

  unfoldable pub set_rollout_percentage : Text → ℕ → Exec S (Unit {0})
  unfolding to_string
  set_rollout_percentage name percentage =
      if ltb 100 percentage
      then throw (plain "Percentage must be between 0 and 100")
      else redis.set (rollout_key name) (to_string percentage)
