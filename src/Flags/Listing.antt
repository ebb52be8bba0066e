-- ===== src/Flags/Listing.antt =====
-- getAllFlags, packages/feature-flags/src/feature-flags.ts. The object of flags is an association
-- list, in which a later value of a name stands before the earlier ones and hides them. An assignment
-- of a Boolean to its __proto__ does nothing.
use mern_auth.Prelude.{
  ◌≡◌, refl, arith, Bool, true, false, ◌||◌, Option, none, some, List, [], ◌∷◌, ◌++◌, map,
  if◌then◌else◌, Bool-cases, inl, inr,
}
use mern_auth.Errors.{plain}
use mern_auth.Text.{Text, codes, text_eq, includes, replace, replace_after, expand, is_prefix}
use mern_auth.Text.Laws.{text_eq_iff, text_eq_refl}
use mern_auth.Exec.{Exec, returned, pure, throw, try_catch, ◌>>=◌}
use mern_auth.Flags.{RedisConnection, flag_key, is_enabled, is_text}

abbrev pub FlagValues : Type 0
FlagValues = List (Text × Bool)

abbrev pub value_of : Text → FlagValues → Option Bool
value_of name [] = none
value_of name ((n, b) ∷ flags) = if text_eq n name then some b else value_of name flags

-- A key of a user or of a rollout.
unfoldable pub is_skipped : Text → Bool
unfolding includes
is_skipped key = includes (codes ":user:") key || includes (codes ":rollout") key

-- flags[name] = value
unfoldable pub assign : Text → Bool → FlagValues → FlagValues
assign name b flags = if text_eq name (codes "__proto__") then flags else (name, b) ∷ flags

module _ {S : Type 0} (redis : RedisConnection S) where
  unfoldable pub list_key : Text → FlagValues → Exec S FlagValues
  unfolding is_skipped replace assign
  list_key key flags =
      if is_skipped key
      then pure flags
      else redis.get key >>= λ value.
          pure (assign (replace (codes "flag:") [] key) (is_text "true" value) flags)

  unfoldable pub list_flags : List Text → FlagValues → Exec S FlagValues
  unfolding list_key
  list_flags [] flags = pure flags
  list_flags (key ∷ keys) flags = list_key key flags >>= λ listed. list_flags keys listed

  -- The answer null of the proxied connection is not iterable.
  abbrev pub listed_of : Option (List Text) → Exec S FlagValues
  listed_of none = throw (plain "keys is not iterable")
  listed_of (some keys) = list_flags keys []

  unfoldable pub get_all_flags : (Text → Exec S (Option (List Text))) → Exec S FlagValues
  unfolding list_flags
  get_all_flags redis_keys = try_catch (redis_keys (codes "flag:*") >>= listed_of) (λ e. pure [])

stripped : (name : Text) → replace (codes "flag:") [] (flag_key name) ≡ name
unfolding replace replace_after expand is_prefix flag_key
stripped name = refl

module _ {S : Type 0} (redis : RedisConnection S) (s : S) (read : Text → Option Text)
    (get_lem : (k : Text) → redis.get k s ≡ returned (read k) s) where
  abbrev value : Text → Bool
  value name = is_text "true" (read (flag_key name))

  key_listed :
      (name : Text) (flags : FlagValues)
      → is_skipped (flag_key name) ≡ false
      → list_key redis (flag_key name) flags s ≡ returned (assign name (value name) flags) s
  unfolding list_key
  key_listed name flags h = ground (arith, get_lem (flag_key name), stripped name)

  key_skipped :
      (name : Text) (flags : FlagValues)
      → is_skipped (flag_key name) ≡ true
      → list_key redis (flag_key name) flags s ≡ returned flags s
  unfolding list_key
  key_skipped name flags h = ground arith

  enabled_value : (name : Text) → is_enabled redis name none s ≡ returned (value name) s
  unfolding is_enabled
  enabled_value name = ground (arith, get_lem (flag_key name))

  -- An assignment of its own value keeps the value of a flag.
  assigned_same :
      (name other : Text) (flags : FlagValues)
      → value_of name flags ≡ some (value name)
      → value_of name (assign other (value other) flags) ≡ some (value name)
  unfolding assign
  assigned_same name other flags there = elim (Bool-cases (text_eq other (codes "__proto__"))) [
    | inl proto ↦ rw proto there
    | inr own ↦ rw own (ground (arith, text_eq_iff other name))
  ]

  assigned :
      (name : Text) (flags : FlagValues)
      → text_eq name (codes "__proto__") ≡ false
      → value_of name (assign name (value name) flags) ≡ some (value name)
  unfolding assign
  assigned name flags own = rw (own, text_eq_refl name)

  -- A flag that is listed stays listed, with its value.
  one_kept :
      (name other : Text) (flags : FlagValues)
      → value_of name flags ≡ some (value name)
      → (flags' : FlagValues) × (list_key redis (flag_key other) flags s ≡ returned flags' s)
        × (value_of name flags' ≡ some (value name))
  one_kept name other flags there = elim (Bool-cases (is_skipped (flag_key other))) [
    | inl skipped ↦ (flags, key_skipped other flags skipped, there)
    | inr taken ↦ (
      assign other (value other) flags,
      key_listed other flags taken,
      assigned_same name other flags there,
    )
  ]

  kept :
      (names : List Text) (name : Text) (flags : FlagValues)
      → value_of name flags ≡ some (value name)
      → (flags' : FlagValues) × (list_flags redis (map flag_key names) flags s ≡ returned flags' s)
        × (value_of name flags' ≡ some (value name))
  unfolding list_flags
  kept [] name flags there = (flags, refl, there)
  kept (other ∷ names) name flags there =
      let (flags1, first, there1) = one_kept name other flags there in
      let (flags2, rest, there2) = kept names name flags1 there1 in
      (flags2, ground (arith, first, rest), there2)

  any_key :
      (other : Text) (flags : FlagValues)
      → (flags' : FlagValues) × (list_key redis (flag_key other) flags s ≡ returned flags' s)
  any_key other flags = elim (Bool-cases (is_skipped (flag_key other))) [
    | inl skipped ↦ (flags, key_skipped other flags skipped)
    | inr taken ↦ (assign other (value other) flags, key_listed other flags taken)
  ]

  found :
      (before after : List Text) (name : Text) (flags : FlagValues)
      → is_skipped (flag_key name) ≡ false
      → text_eq name (codes "__proto__") ≡ false
      → (flags' : FlagValues) × (list_flags redis (map flag_key (before ++ name ∷ after)) flags s
          ≡ returned flags' s)
        × (value_of name flags' ≡ some (value name))
  unfolding list_flags
  found [] after name flags taken own =
      let (flags1, rest, there) =
        kept after name (assign name (value name) flags) (assigned name flags own) in
      (flags1, ground (arith, key_listed name flags taken, rest), there)
  found (other ∷ before) after name flags taken own =
      let (flags1, first) = any_key other flags in
      let (flags2, rest, there) = found before after name flags1 taken own in
      (flags2, ground (arith, first, rest), there)

  -- Where Redis answers every get with a value and leaves its state as it is: if the keys found are
  -- those of names, and the key of one of these names, other than __proto__, is not taken for that
  -- of a user or of a rollout, then getAllFlags returns, and has the value for this name that
  -- isEnabled has for it without a user.
  pub get_all_flags-is_enabled :
      (redis_keys : Text → Exec S (Option (List Text))) (before after : List Text) (name : Text)
      → redis_keys (codes "flag:*") s ≡ returned (some (map flag_key (before ++ name ∷ after))) s
      → is_skipped (flag_key name) ≡ false
      → text_eq name (codes "__proto__") ≡ false
      → (flags : FlagValues) × (b : Bool) × (get_all_flags redis redis_keys s ≡ returned flags s)
        × (value_of name flags ≡ some b)
        × (is_enabled redis name none s ≡ returned b s)
  unfolding get_all_flags
  get_all_flags-is_enabled redis_keys before after name keys taken own =
      let (flags, listed, there) = found before after name [] taken own in
      (flags, value name, ground (arith, keys, listed), there, enabled_value name)
