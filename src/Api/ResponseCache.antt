-- ===== src/Api/ResponseCache.antt =====
-- createCacheMiddleware and createCacheInvalidator, apps/api/src/middleware/security/cache.ts. Redis,
-- JSON and the handlers behind the middleware are parameters: a handler's answer is what it passes to
-- res.json, with its status. The saving of an answer is awaited here; the header
-- X-Cache-Key and logging are left out.
pub mod Laws
use Prim.Native.String
use mern_auth.Prelude.{
  ℕ, String, Bool, true, false, ◌==◌, Option, none, some, List, [], ◌∷◌, str_eq, is_empty,
  if◌then◌else◌,
}
use mern_auth.Errors.{Error, Result, ok, err}
use mern_auth.Exec.{Exec, pure, lift, throw, try_catch, ◌>>=◌, ◌>>◌}

pub record RedisStore (S : Type 0) : Type 0 where
  pub get : String → Exec S (Option String)
  pub setex : String → ℕ → String → Exec S (Unit {0})
  pub keys : String → Exec S (List String)
  pub del : List String → Exec S ℕ

-- JSON.stringify and JSON.parse
pub record Json (J : Type 0) : Type 0 where
  pub stringify : J → String
  pub parse : String → Result J

pub record HttpRequest : Type 0 where
  pub method : String
  pub original_url : String

-- The header X-Cache, if the middleware sets it.
pub data CacheHeader : Type 0 where
  no_header hit_header miss_header error_header : CacheHeader

pub record HttpReply (J : Type 0) : Type 0 where
  pub status : ℕ
  pub x_cache : CacheHeader
  pub body : J

-- What the look into the cache gives.
pub data Look (J : Type 0) : Type 0 where
  found : J → Look J
  absent : Look J
  broken : Look J

pub record CacheOptions (J : Type 0) : Type 0 where
  pub key_prefix : String
  pub should_cache : HttpRequest → HttpReply J → Bool

abbrev pub default_options : {J : Type 0} → CacheOptions J
default_options = record { key_prefix = "cache:"; should_cache = λ req res. res.status == 200 }

module _ {S J : Type 0} (redis : RedisStore S) (json : Json J) (duration : ℕ)
    (options : CacheOptions J) where
  abbrev pub cache_key : HttpRequest → String
  cache_key req = String.◌++◌ options.key_prefix req.original_url

  abbrev pub read_cached : Option String → Exec S (Look J)
  read_cached none = pure absent
  read_cached (some text) = lift (json.parse text) >>= λ body. pure (found body)

  unfoldable pub look : String → Exec S (Look J)
  look key = try_catch (redis.get key >>= read_cached) (λ e. pure broken)

  -- The response's json, as the middleware replaces it.
  unfoldable pub save : String → HttpRequest → HttpReply J → Exec S (Unit {0})
  save key req res =
      if options.should_cache req res
      then try_catch (redis.setex key duration (json.stringify res.body)) (λ e. pure tt)
      else pure tt

  abbrev pub answer : HttpRequest → Exec S (HttpReply J) → Look J → Exec S (HttpReply J)
  answer req next (found body) = pure (record { status = 200; x_cache = hit_header; body = body })
  answer req next broken = next >>= λ res. pure (record res { x_cache = error_header })
  answer req next absent = do
    res ← next
    save (cache_key req) req res
    pure (record res { x_cache = miss_header })

  unfoldable pub cache_middleware : HttpRequest → Exec S (HttpReply J) → Exec S (HttpReply J)
  unfolding look save
  cache_middleware req next =
      if str_eq req.method "GET" then look (cache_key req) >>= answer req next else next

module _ {S : Type 0} (redis : RedisStore S) where
  -- Its catch logs and throws again.
  unfoldable pub cache_invalidator : String → Exec S ℕ
  cache_invalidator pattern =
      try_catch (redis.keys pattern >>= λ keys. if is_empty keys then pure 0 else redis.del keys)
        (λ e. throw e)
