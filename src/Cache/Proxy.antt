-- ===== src/Cache/Proxy.antt =====
-- The proxy of createRedisCircuitBreaker, packages/redis/src/circuit-breaker.ts. The breaker of
-- opossum is a parameter: `fire` runs a command through it, `direct` calls the client's own method.
use mern_auth.Prelude.{
  ◌≡◌, arith, refl, Bool, true, false, Option, List, [], ◌∷◌, any, if◌then◌else◌,
}
use mern_auth.Errors.{Error}
use mern_auth.Text.{Text, codes, text_eq, to_lower_case}
use mern_auth.Exec.{Exec, Outcome, returned, raised, pure, throw, try_catch}
use mern_auth.Cache.{
  Command, get_cmd, set_cmd, del_cmd, ttl_cmd, exists_cmd, ping_cmd, other_cmd, Reply, null,
  as_text, CacheService, IsTotal,
}
use mern_auth.Cache.Adapter.{redis_cache_adapter, lifetime}

abbrev pub command_name : Command → Text
command_name (get_cmd k) = codes "get"
command_name (set_cmd k v l) = codes "set"
command_name (del_cmd k) = codes "del"
command_name (ttl_cmd k) = codes "ttl"
command_name (exists_cmd k) = codes "exists"
command_name ping_cmd = codes "ping"
command_name (other_cmd name) = name

abbrev pub non_critical_commands : List Text
non_critical_commands =
    codes "get"
    ∷ codes "set"
    ∷ codes "setex"
    ∷ codes "del"
    ∷ codes "keys"
    ∷ codes "ttl"
    ∷ codes "incr"
    ∷ codes "decr"
    ∷ codes "expire"
    ∷ []

unfoldable pub is_non_critical_command : Text → Bool
unfolding to_lower_case text_eq
is_non_critical_command command = any (text_eq (to_lower_case command)) non_critical_commands

abbrev pub pass_through : List Text
pass_through =
    codes "on"
    ∷ codes "once"
    ∷ codes "emit"
    ∷ codes "off"
    ∷ codes "removeListener"
    ∷ codes "removeAllListeners"
    ∷ codes "setMaxListeners"
    ∷ codes "getMaxListeners"
    ∷ codes "listeners"
    ∷ codes "listenerCount"
    ∷ codes "eventNames"
    ∷ codes "prependListener"
    ∷ codes "prependOnceListener"
    ∷ codes "status"
    ∷ codes "options"
    ∷ codes "connect"
    ∷ codes "disconnect"
    ∷ codes "duplicate"
    ∷ codes "pipeline"
    ∷ codes "multi"
    ∷ codes "batch"
    ∷ codes "getCircuitBreakerStats"
    ∷ codes "getCircuitBreakerState"
    ∷ []

unfoldable pub is_pass_through : Text → Bool
unfolding text_eq
is_pass_through prop = any (text_eq prop) pass_through

module _ {R : Type 0} (direct fire : Command → Exec R Reply) where
  -- The catch of a guarded command.
  unfoldable pub degrade : Command → Error → Exec R Reply
  unfolding is_non_critical_command
  degrade command e = if is_non_critical_command (command_name command) then pure null else throw e

  unfoldable pub proxied : Command → Exec R Reply
  unfolding is_pass_through degrade
  proxied command =
      if is_pass_through (command_name command)
      then direct command
      else try_catch (fire command) (degrade command)

  abbrev Returns : Outcome R Reply → Type 0
  Returns o = (r : Reply) × (s : R) × (o ≡ returned r s)

  degraded :
      (command : Command) (s : R) (o : Outcome R Reply)
      → is_non_critical_command (command_name command) ≡ true
      → fire command s ≡ o
      → Returns (try_catch (fire command) (degrade command) s)
  unfolding degrade
  degraded command s (returned r s') h e = (r, s', ground arith)
  degraded command s (raised x s') h e = (null, s', ground arith)

  -- A command on the list never throws, unless it is passed through to the client.
  pub proxied-returns :
      (command : Command) (s : R)
      → is_non_critical_command (command_name command) ≡ true
      → is_pass_through (command_name command) ≡ false
      → (r : Reply) × (s' : R) × (proxied command s ≡ returned r s')
  unfolding proxied
  proxied-returns command s h p = rw p (degraded command s (fire command s) h refl)

  -- Every other command rethrows what the breaker throws.
  pub proxied-raises :
      (command : Command) (s s' : R) (e : Error)
      → is_non_critical_command (command_name command) ≡ false
      → is_pass_through (command_name command) ≡ false
      → fire command s ≡ raised e s'
      → proxied command s ≡ raised e s'
  unfolding proxied degrade
  proxied-raises command s s' e h p f = ground arith

  -- When the breaker refuses everything, the commands on the list answer null.
  pub proxied-refused :
      (command : Command) (s s' : R) (e : Error)
      → is_non_critical_command (command_name command) ≡ true
      → is_pass_through (command_name command) ≡ false
      → fire command s ≡ raised e s'
      → proxied command s ≡ returned null s'
  unfolding proxied degrade
  proxied-refused command s s' e h p f = ground arith

module _ {R : Type 0} (direct fire : Command → Exec R Reply) where
  -- The cache that the services are given: the adapter over the proxied connection.
  abbrev pub guarded_cache : CacheService R
  guarded_cache = redis_cache_adapter (proxied direct fire)

  then_text :
      (k : Text) (s : R)
      → (r : Reply) × (s' : R) × (proxied direct fire (get_cmd k) s ≡ returned r s')
      → (r : Option Text) × (s' : R) × (guarded_cache.get k s ≡ returned r s')
  unfolding redis_cache_adapter
  then_text k s (r, s', e) = (as_text r, s', ground arith)

  -- Whatever the server and the breaker do, get, set, del and ttl of the services' cache return.
  pub guarded_cache-IsTotal : IsTotal guarded_cache
  unfolding redis_cache_adapter is_non_critical_command is_pass_through
  guarded_cache-IsTotal = record {
    get_total = λ k s. then_text k s (proxied-returns direct fire (get_cmd k) s refl refl);
    set_total = λ k v m t s. proxied-returns direct fire (set_cmd k v (lifetime m t)) s refl refl;
    del_total = λ k s. proxied-returns direct fire (del_cmd k) s refl refl;
    ttl_total = λ k s. proxied-returns direct fire (ttl_cmd k) s refl refl;
  }
