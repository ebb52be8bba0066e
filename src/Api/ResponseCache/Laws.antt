-- ===== src/Api/ResponseCache/Laws.antt =====
-- What a cached answer is.
use mathlib.Core.Path.{subst⁻¹}
use mern_auth.Prelude.{
  ℕ, ◌≡◌, refl, String, true, none, some, str_eq, arith, Bool-cases, eq_iff, inl, inr, ◌⊎◌,
}
use mern_auth.Errors.{ok}
use mern_auth.Exec.{Exec, Outcome, returned, raised, ◌>>=◌, try_catch}
use mern_auth.Api.ResponseCache.{
  RedisStore, Json, HttpRequest, HttpReply, CacheOptions, hit_header, miss_header, error_header,
  cache_key, cache_middleware, look, save, answer, read_cached, found, absent, broken, Look,
}

abbrev IsReturned : {S A : Type 0} → Outcome S A → Type 0
IsReturned (returned a s) = Unit
IsReturned (raised e s) = ⊥

tried :
    {S J : Type 0} (o : Outcome S (Look J))
    → IsReturned (elim o as (λ x. Outcome S (Look J)) [
      | returned a s ↦ returned a s
      | raised e s ↦ returned broken s
    ])
tried (returned a s) = tt
tried (raised e s) = tt

module _ {S J : Type 0} (redis : RedisStore S) (json : Json J) (duration : ℕ)
    (options : CacheOptions J) where
  hit :
      (key value : String) (body : J) (s : S)
      → redis.get key s ≡ returned (some value) s
      → json.parse value ≡ ok body
      → look redis json duration options key s ≡ returned (found body) s
  unfolding look
  hit key value body s there parsed = ground arith

  served :
      (req : HttpRequest) (next : Exec S (HttpReply J)) (body : J) (s : S)
      → str_eq req.method "GET" ≡ true
      → look redis json duration options (cache_key redis json duration options req) s
        ≡ returned (found body) s
      → cache_middleware redis json duration options req next s
        ≡ returned (record { status = 200; x_cache = hit_header; body = body }) s
  unfolding cache_middleware
  served req next body s get there = ground arith

  -- Where JSON gives back what it has printed and Redis what was stored: a GET that is not in the
  -- cache, whose answer may be cached and is stored, is answered by its handlers, marked as a miss;
  -- the same request is then answered with the same body and the status 200, marked as a hit, and
  -- the handlers are not run.
  pub miss_then_hit :
      (req : HttpRequest) (next other : Exec S (HttpReply J)) (res : HttpReply J) (s s1 s2 s3 : S)
      → ((j : J) → json.parse (json.stringify j) ≡ ok j)
      → ((key value : String) (t t' : S)
          → redis.setex key duration value t ≡ returned tt t'
          → redis.get key t' ≡ returned (some value) t')
      → req.method ≡ "GET"
      → redis.get (cache_key redis json duration options req) s ≡ returned none s1
      → next s1 ≡ returned res s2
      → options.should_cache req res ≡ true
      → redis.setex
          (cache_key redis json duration options req)
          duration
          (json.stringify res.body)
          s2
        ≡ returned tt s3
      → (cache_middleware redis json duration options req next s
          ≡ returned (record res { x_cache = miss_header }) s3)
        × (cache_middleware redis json duration options req other s3
            ≡ returned (record { status = 200; x_cache = hit_header; body = res.body }) s3)
  unfolding cache_middleware look save
  miss_then_hit req next other res s s1 s2 s3 parses keeps method empty ran good stored = (
    rw (method, ◌>>=◌, empty, ran, good, stored),
    served req other res.body s3 ((eq_iff req.method "GET").1 method) (
        hit (cache_key redis json duration options req) (json.stringify res.body) res.body s3
          (keeps (cache_key redis json duration options req) (json.stringify res.body) s2 s3 stored)
          (parses res.body)),
  )

  -- The answer of the handlers, in some state that the cache left, or an answer from the cache.
  abbrev pub PassedOn : Exec S (HttpReply J) → Outcome S (HttpReply J) → Type 0
  PassedOn next (returned r s') =
      (r.x_cache ≡ hit_header)
      ⊎ ((t t' : S) × (res : HttpReply J) × (next t ≡ returned res t')
          × (r.body ≡ res.body)
          × (r.status ≡ res.status))
  PassedOn next (raised e s') = (t : S) × (next t ≡ raised e s')

  plain_next :
      (next : Exec S (HttpReply J)) (t : S) (o : Outcome S (HttpReply J))
      → next t ≡ o
      → PassedOn next o
  plain_next next t (returned r s') p = inr (t, s', r, p, refl, refl)
  plain_next next t (raised e s') p = (t, p)

  Saved : HttpRequest → HttpReply J → S → Type 0
  Saved req res s =
      (s' : S) × (save redis json duration options (cache_key redis json duration options req) req
          res s
        ≡ returned tt s')

  caught :
      (req : HttpRequest) (res : HttpReply J) (s : S) (o : Outcome S (Unit {0}))
      → options.should_cache req res ≡ true
      → redis.setex (cache_key redis json duration options req) duration (json.stringify res.body) s
        ≡ o
      → Saved req res s
  unfolding Saved save
  caught req res s (returned u s') good p = (s', rw (good, try_catch, p))
  caught req res s (raised e s') good p = (s', rw (good, try_catch, p))

  saved : (req : HttpRequest) (res : HttpReply J) (s : S) → Saved req res s
  unfolding Saved save
  saved req res s = elim (Bool-cases (options.should_cache req res)) [
    | inr skipped ↦ (s, rw skipped)
    | inl good ↦
        caught req res s
          (redis.setex (cache_key redis json duration options req) duration
            (json.stringify res.body) s)
          good refl
  ]

  answered :
      (req : HttpRequest) (next : Exec S (HttpReply J)) (l : Look J) (t : S)
      (o : Outcome S (HttpReply J))
      → next t ≡ o
      → PassedOn next (answer redis json duration options req next l t)
  unfolding Saved
  answered req next (found body) t o p = inl refl
  answered req next broken t (returned r t') p =
      let ran : answer redis json duration options req next broken t
          ≡ returned (record r { x_cache = error_header }) t' =
        rw (◌>>=◌, p) in
      subst⁻¹ (PassedOn next) ran (inr (t, t', r, p, refl, refl))
  answered req next broken t (raised e t') p =
      let ran : answer redis json duration options req next broken t ≡ raised e t' =
        rw (◌>>=◌, p) in
      subst⁻¹ (PassedOn next) ran (t, p)
  answered req next absent t (returned r t') p =
      let (s', done) = saved req r t' in
      let ran : answer redis json duration options req next absent t
          ≡ returned (record r { x_cache = miss_header }) s' =
        ground arith in
      subst⁻¹ (PassedOn next) ran (inr (t, t', r, p, refl, refl))
  answered req next absent t (raised e t') p =
      let ran : answer redis json duration options req next absent t ≡ raised e t' =
        rw (◌>>=◌, p) in
      subst⁻¹ (PassedOn next) ran (t, p)

  looked :
      (req : HttpRequest) (next : Exec S (HttpReply J)) (s : S) (o : Outcome S (Look J))
      → look redis json duration options (cache_key redis json duration options req) s ≡ o
      → IsReturned o
      → str_eq req.method "GET" ≡ true
      → PassedOn next (cache_middleware redis json duration options req next s)
  unfolding cache_middleware
  looked req next s (raised e t) p h get = elim h [ ]
  looked req next s (returned l t) p h get =
      let ran : cache_middleware redis json duration options req next s
          ≡ answer redis json duration options req next l t =
        ground arith in
      subst⁻¹ (PassedOn next) ran (answered req next l t (next t) refl)

  look-IsReturned : (key : String) (s : S) → IsReturned (look redis json duration options key s)
  unfolding look
  look-IsReturned key s = tried ((redis.get key >>= read_cached redis json duration options) s)

  -- Whatever Redis does, a request ends as its handlers end it, with their status and body or with
  -- their error, or is answered from the cache with the header of a hit: no error of the cache is
  -- passed on.
  pub cache_middleware-PassedOn :
      (req : HttpRequest) (next : Exec S (HttpReply J)) (s : S)
      → PassedOn next (cache_middleware redis json duration options req next s)
  unfolding cache_middleware
  cache_middleware-PassedOn req next s = elim (Bool-cases (str_eq req.method "GET")) [
    | inr other ↦ rw other (plain_next next s (next s) refl)
    | inl get ↦
        looked req next s
          (look redis json duration options (cache_key redis json duration options req) s) refl
          (look-IsReturned (cache_key redis json duration options req) s) get
  ]
