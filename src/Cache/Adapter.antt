-- ===== src/Cache/Adapter.antt =====
-- RedisCacheAdapter, packages/core/src/adapters/redis.adapter.ts
use mern_auth.Prelude.{ℕ, ◌≡◌, refl, Option, none, some, arith, if◌then◌else◌}
use mern_auth.Text.{Text, text_eq}
use mern_auth.Exec.{Exec, returned, pure, ◌>>=◌}
use mern_auth.Cache.{
  ExpiryMode, ex, px, Lifetime, forever, seconds, milliseconds, Command, get_cmd, set_cmd, del_cmd,
  ttl_cmd, exists_cmd, ping_cmd, Reply, bulk, null, as_text, CacheService, IsStore,
}

-- The branches of set: an expiry counts only if both its mode and its length are given.
unfoldable pub lifetime : Option ExpiryMode → Option ℕ → Lifetime
lifetime (some ex) (some t) = seconds t
lifetime (some px) (some t) = milliseconds t
lifetime _ _ = forever

module _ {R : Type 0} (redis : Command → Exec R Reply) where
  unfoldable pub redis_cache_adapter : CacheService R
  unfolding lifetime
  redis_cache_adapter = record {
    get = λ key. redis (get_cmd key) >>= λ r. pure (as_text r);
    set = λ key value mode ttl. redis (set_cmd key value (lifetime mode ttl));
    del = λ key. redis (del_cmd key);
    ttl = λ key. redis (ttl_cmd key);
    exists = λ key. redis (exists_cmd key);
    ping = redis ping_cmd;
  }

  -- What a reachable Redis server documents of its commands, over the live keys and their texts.
  pub record RedisLaws : Type 0 where
    pub live : R → Text → Option Text
    pub stored : Text → Text → Lifetime → R → R
    pub removed : Text → R → R
    pub set_answer : Text → R → Reply
    pub del_answer : Text → R → Reply
    pub ttl_answer : Text → R → Reply
    pub get_cmd_some :
        (k v : Text) (r : R) → live r k ≡ some v → redis (get_cmd k) r ≡ returned (bulk v) r
    pub get_cmd_none : (k : Text) (r : R) → live r k ≡ none → redis (get_cmd k) r ≡ returned null r
    pub set_cmd_lem :
        (k v : Text) (l : Lifetime) (r : R)
        → redis (set_cmd k v l) r ≡ returned (set_answer k r) (stored k v l r)
    pub del_cmd_lem :
        (k : Text) (r : R) → redis (del_cmd k) r ≡ returned (del_answer k r) (removed k r)
    pub ttl_cmd_lem : (k : Text) (r : R) → redis (ttl_cmd k) r ≡ returned (ttl_answer k r) r
    pub live-stored :
        (k v : Text) (l : Lifetime) (r : R) (j : Text)
        → live (stored k v l r) j ≡ (if text_eq k j then some v else live r j)
    pub live-removed :
        (k : Text) (r : R) (j : Text)
        → live (removed k r) j ≡ (if text_eq k j then none else live r j)

module _ {R : Type 0} (redis : Command → Exec R Reply) (laws : RedisLaws redis) where
  pub adapter_get :
      (k : Text) (r : R) (o : Option Text)
      → laws.live r k ≡ o
      → (redis_cache_adapter redis).get k r ≡ returned o r
  unfolding redis_cache_adapter
  adapter_get k r none h = ground (arith, laws.get_cmd_none k r h)
  adapter_get k r (some v) h = ground (arith, laws.get_cmd_some k v r h)

  -- Over a reachable server the adapter is a reachable cache, with the server's live keys.
  unfoldable pub adapter-IsStore : IsStore (redis_cache_adapter redis)
  unfolding redis_cache_adapter
  adapter-IsStore = record {
    read = laws.live;
    write = λ k v m t r. laws.stored k v (lifetime m t) r;
    erase = laws.removed;
    set_reply = laws.set_answer;
    del_reply = laws.del_answer;
    ttl_reply = laws.ttl_answer;
    get_lem = λ k r. adapter_get k r (laws.live r k) refl;
    set_lem = λ k v m t r. laws.set_cmd_lem k v (lifetime m t) r;
    del_lem = laws.del_cmd_lem;
    ttl_lem = laws.ttl_cmd_lem;
    read-write = λ k v m t r j. laws.live-stored k v (lifetime m t) r j;
    read-erase = laws.live-removed;
  }
