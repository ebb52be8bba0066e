-- ===== src/Api/Health/Probes.antt =====
-- When the health endpoints answer 200.
use mern_auth.Prelude.{
  ℕ, ◌≡◌, refl, arith, String, Bool, true, false, str_eq, Option, none, some, ◌↔◌, Bool-cases, inl,
  inr,
}
use mern_auth.Errors.{Error}
use mern_auth.Exec.{Exec, Outcome, returned, raised}
use mern_auth.Cache.{Reply}
use mern_auth.Bootstrap.{check_bootstrap_health}
use mern_auth.Api.Health.{
  check_health, await_settled, is_pong, is_true, HealthReply, Readiness, readiness_handler,
  check_redis,
}

abbrev pub health_code : {S : Type 0} → Outcome S HealthReply → ℕ
health_code (returned reply s) = reply.code
health_code (raised e s) = 0

abbrev pub readiness_code : {S : Type 0} → Outcome S Readiness → ℕ
readiness_code (returned reply s) = reply.code
readiness_code (raised e s) = 0

refused_code : {P : Type 0} (n : ℕ) → n ≡ 503 → n ≡ 200 → P
refused_code n p q = let absurd : ⊥ = omega (arith, p, q) in elim absurd [ ]

module _ {S : Type 0} (db_ping : Exec S Bool) (redis_ping : Exec S Reply) where
  -- Both pings return, the second after the first, and with what they should.
  abbrev pub IsHealthy : S → Type 0
  IsHealthy s =
      (s1 s2 : S) × (reply : Reply) × (db_ping s ≡ returned true s1)
      × (redis_ping s1 ≡ returned reply s2)
      × (is_pong (some reply) ≡ true)

  -- Redis answers its ping, with any reply, the database its own, and the email breaker is not open.
  abbrev pub IsReady : Bool → String → S → Type 0
  IsReady initialized circuit_state s =
      (s1 s2 : S) × (reply : Reply) × (redis_ping s ≡ returned reply s1)
      × (db_ping s1 ≡ returned true s2)
      × (initialized ≡ true)
      × (str_eq circuit_state "open" ≡ false)

  health :
      (get_ready_state : S → ℕ) (redis_status : S → String) (s : S)
      → IsHealthy s
      → health_code (check_health db_ping redis_ping get_ready_state redis_status s) ≡ 200
  unfolding check_health await_settled
  health get_ready_state redis_status s (s1, s2, reply, p, q, pong) = ground arith

  ready :
      (initialized : Bool) (circuit_state : String) (s : S)
      → IsReady initialized circuit_state s
      → readiness_code (readiness_handler db_ping redis_ping initialized circuit_state s) ≡ 200
  unfolding readiness_handler check_redis check_bootstrap_health
  ready initialized circuit_state s (s1, s2, reply, p, q, i, c) = ground arith

  -- The database does not answer true: 503, whatever Redis does.
  database_down :
      (get_ready_state : S → ℕ) (redis_status : S → String) (s s1 : S) (database : Option Bool)
      (o : Outcome S Reply)
      → await_settled db_ping s ≡ returned database s1
      → is_true database ≡ false
      → redis_ping s1 ≡ o
      → health_code (check_health db_ping redis_ping get_ready_state redis_status s) ≡ 503
  unfolding check_health await_settled
  database_down get_ready_state redis_status s s1 database (returned reply s2) p d q = ground arith
  database_down get_ready_state redis_status s s1 database (raised e s2) p d q = ground arith

  redis_read :
      (get_ready_state : S → ℕ) (redis_status : S → String) (s s1 : S) (o : Outcome S Reply)
      → db_ping s ≡ returned true s1
      → redis_ping s1 ≡ o
      → health_code (check_health db_ping redis_ping get_ready_state redis_status s) ≡ 200
      → IsHealthy s
  unfolding check_health await_settled
  redis_read get_ready_state redis_status s s1 (returned reply s2) p q h =
      elim (Bool-cases (is_pong (some reply))) [
        | inl pong ↦ (s1, s2, reply, p, q, pong)
        | inr other ↦ refused_code _ (ground arith) h
      ]
  redis_read get_ready_state redis_status s s1 (raised e s2) p q h = refused_code _ (ground arith) h

  settled :
      (s s1 : S) (o : Outcome S Bool) (database : Option Bool)
      → db_ping s ≡ o
      → elim o as (λ x. Outcome S (Option Bool)) [
        | returned b s' ↦ returned (some b) s'
        | raised e s' ↦ returned none s'
      ]
        ≡ returned database s1
      → await_settled db_ping s ≡ returned database s1
  unfolding await_settled
  settled s s1 o database p q = ground arith

  pinged :
      (get_ready_state : S → ℕ) (redis_status : S → String) (s : S) (o : Outcome S Bool)
      → db_ping s ≡ o
      → health_code (check_health db_ping redis_ping get_ready_state redis_status s) ≡ 200
      → IsHealthy s
  pinged get_ready_state redis_status s (returned true s1) p h =
      redis_read get_ready_state redis_status s s1 (redis_ping s1) p refl h
  pinged get_ready_state redis_status s (returned false s1) p h =
      refused_code _
        (database_down get_ready_state redis_status s s1 (some false) (redis_ping s1)
          (settled s s1 _ _ p refl) refl refl)
        h
  pinged get_ready_state redis_status s (raised e s1) p h =
      refused_code _
        (database_down get_ready_state redis_status s s1 none (redis_ping s1)
          (settled s s1 _ _ p refl) refl refl)
        h

  database_read :
      (initialized : Bool) (circuit_state : String) (s s1 : S) (reply : Reply) (o : Outcome S Bool)
      → redis_ping s ≡ returned reply s1
      → db_ping s1 ≡ o
      → readiness_code (readiness_handler db_ping redis_ping initialized circuit_state s) ≡ 200
      → IsReady initialized circuit_state s
  unfolding readiness_handler check_redis check_bootstrap_health
  database_read true circuit_state s s1 reply (returned true s2) p q h =
      elim (Bool-cases (str_eq circuit_state "open")) [
        | inl tripped ↦ refused_code _ (ground arith) h
        | inr closed ↦ (s1, s2, reply, p, q, refl, closed)
      ]
  database_read false circuit_state s s1 reply (returned true s2) p q h =
      refused_code _ (ground arith) h
  database_read initialized circuit_state s s1 reply (returned false s2) p q h =
      refused_code _ (ground arith) h
  database_read initialized circuit_state s s1 reply (raised e s2) p q h =
      refused_code _ (ground arith) h

  -- Redis does not answer: 503, whatever the database does.
  redis_down :
      (initialized : Bool) (circuit_state : String) (s s1 : S) (e : Error) (o : Outcome S Bool)
      → redis_ping s ≡ raised e s1
      → db_ping s1 ≡ o
      → readiness_code (readiness_handler db_ping redis_ping initialized circuit_state s) ≡ 503
  unfolding readiness_handler check_redis check_bootstrap_health
  redis_down initialized circuit_state s s1 e (returned b s2) p q = ground arith
  redis_down initialized circuit_state s s1 e (raised x s2) p q = ground arith

  all_up :
      (initialized : Bool) (circuit_state : String) (s : S) (o : Outcome S Reply)
      → redis_ping s ≡ o
      → readiness_code (readiness_handler db_ping redis_ping initialized circuit_state s) ≡ 200
      → IsReady initialized circuit_state s
  all_up initialized circuit_state s (returned reply s1) p h =
      database_read initialized circuit_state s s1 reply (db_ping s1) p refl h
  all_up initialized circuit_state s (raised e s1) p h =
      refused_code _ (redis_down initialized circuit_state s s1 e (db_ping s1) p refl) h

  -- The health endpoint answers 200 exactly if the database's ping returns true and then that of
  -- Redis returns PONG; the readiness endpoint answers 200 exactly if the ping of Redis returns,
  -- with any reply, then that of the database returns true, and the email breaker is initialised
  -- and not open.
  pub probes_iff :
      (get_ready_state : S → ℕ) (redis_status : S → String) (initialized : Bool)
      (circuit_state : String) (s : S)
      → ((health_code (check_health db_ping redis_ping get_ready_state redis_status s) ≡ 200)
          ↔ IsHealthy s)
        × ((readiness_code (readiness_handler db_ping redis_ping initialized circuit_state s) ≡ 200)
            ↔ IsReady initialized circuit_state s)
  probes_iff get_ready_state redis_status initialized circuit_state s = (
    (pinged get_ready_state redis_status s (db_ping s) refl, health get_ready_state redis_status s),
    (all_up initialized circuit_state s (redis_ping s) refl, ready initialized circuit_state s),
  )
