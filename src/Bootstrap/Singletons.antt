-- ===== src/Bootstrap/Singletons.antt =====
-- The singletons stay, and fit together.
use mathlib.Core.Path.{subst, subst⁻¹}
use mern_auth.Prelude.{
  ◌≡◌, refl, Bool, true, false, Option, none, some, ap, sym, ◌∙◌, arith, Bool-cases, inl, inr,
}
use mern_auth.Errors.{Error}
use mern_auth.Exec.{Outcome, returned, raised}
use mern_auth.Bootstrap.{
  Factories, App, get_redis_service, get_database_service, get_email_service,
  ensure_queue_services_initialized,
}

-- `database_of` and `redis_of` are what a service was made from.
module _ {S R D E F : Type 0} (factories : Factories S R D E F) (database_of : E → D)
    (redis_of : F → R) where
  abbrev State : Type 0
  State = App S R D E F

  abbrev EmailLinked : Option E → Option D → Type 0
  EmailLinked none d = Unit
  EmailLinked (some e) d = d ≡ some (database_of e)

  abbrev FlagsLinked : Option F → Option R → Type 0
  FlagsLinked none r = Unit
  FlagsLinked (some f) r = r ≡ some (redis_of f)

  abbrev QueuesLinked : Bool → Option R → Type 0
  QueuesLinked false r = Unit
  QueuesLinked true none = ⊥
  QueuesLinked true (some r) = Unit

  -- The email service stands on the database service of the module, the feature flags on its
  -- connection, and with queue services there is a connection.
  abbrev pub IsLinked : State → Type 0
  IsLinked s =
      EmailLinked s.email_service_instance s.database_service_instance
      × FlagsLinked s.feature_flag_service_instance s.redis_service_instance
      × QueuesLinked s.queue_services_initialized s.redis_service_instance

  abbrev MakesLinked : Type 0
  MakesLinked =
      (d : D) (e : E) (t t' : S)
      → factories.create_email_service d t ≡ returned e t'
      → database_of e ≡ d

  email_grows : (e : Option E) (d : D) → EmailLinked e none → EmailLinked e (some d)
  email_grows none d h = tt
  email_grows (some e) d h = ground arith

  flags_grow : (f : Option F) (r : R) → FlagsLinked f none → FlagsLinked f (some r)
  flags_grow none r h = tt
  flags_grow (some f) r h = ground arith

  queues_grow : (b : Bool) (r : R) → QueuesLinked b none → QueuesLinked b (some r)
  queues_grow false r h = tt
  queues_grow true r h = tt

  -- How a call of get_redis_service ends: linked as before, and if it returns, with the connection
  -- it returns.
  abbrev RedisGot : Outcome State R → Type 0
  RedisGot (returned r s) = IsLinked s × (s.redis_service_instance ≡ some r)
  RedisGot (raised e s) = IsLinked s

  redis_got :
      (s : State) (o : Option R) (q : Outcome S R)
      → s.redis_service_instance ≡ o
      → factories.connect_redis s.world ≡ q
      → IsLinked s
      → RedisGot (get_redis_service factories s)
  unfolding get_redis_service
  redis_got s (some r) q p c h =
      let ran : get_redis_service factories s ≡ returned r s = ground arith in
      subst⁻¹ RedisGot ran (h, p)
  redis_got s none (returned r t) p c (email, flags, queues) =
      let ran : get_redis_service factories s
          ≡ returned r (record s { redis_service_instance = some r; world = t }) =
        ground arith in
      subst⁻¹ RedisGot ran (
        (
          email,
          flags_grow s.feature_flag_service_instance r
              (subst (FlagsLinked s.feature_flag_service_instance) p flags),
          queues_grow s.queue_services_initialized r
              (subst (QueuesLinked s.queue_services_initialized) p queues),
        ),
        refl,
      )
  redis_got s none (raised e t) p c h =
      let ran : get_redis_service factories s ≡ raised e (record s { world = t }) = ground arith in
      subst⁻¹ RedisGot ran h

  redis_lem : (s : State) → IsLinked s → RedisGot (get_redis_service factories s)
  redis_lem s h = redis_got s s.redis_service_instance (factories.connect_redis s.world) refl refl h

  abbrev DatabaseGot : Outcome State D → Type 0
  DatabaseGot (returned d s) = IsLinked s × (s.database_service_instance ≡ some d)
  DatabaseGot (raised e s) = IsLinked s

  database_got :
      (s : State) (o : Option D) (q : Outcome S D)
      → s.database_service_instance ≡ o
      → factories.create_database_service s.world ≡ q
      → IsLinked s
      → DatabaseGot (get_database_service factories s)
  unfolding get_database_service
  database_got s (some d) q p c h =
      let ran : get_database_service factories s ≡ returned d s = ground arith in
      subst⁻¹ DatabaseGot ran (h, p)
  database_got s none (returned d t) p c (email, flags, queues) =
      let ran : get_database_service factories s
          ≡ returned d (record s { database_service_instance = some d; world = t }) =
        ground arith in
      subst⁻¹ DatabaseGot ran (
        (
          email_grows s.email_service_instance d
              (subst (EmailLinked s.email_service_instance) p email),
          flags,
          queues,
        ),
        refl,
      )
  database_got s none (raised e t) p c h =
      let ran : get_database_service factories s ≡ raised e (record s { world = t }) =
        ground arith in
      subst⁻¹ DatabaseGot ran h

  database_lem : (s : State) → IsLinked s → DatabaseGot (get_database_service factories s)
  database_lem s h =
      database_got s s.database_service_instance (factories.create_database_service s.world) refl
        refl h

  abbrev pub EmailGot : Outcome State E → Type 0
  EmailGot (returned e s) =
      IsLinked s
      × (get_email_service factories s ≡ returned e s)
      × (s.database_service_instance ≡ some (database_of e))
  EmailGot (raised e s) = IsLinked s

  email_stays :
      (s : State) (e : E)
      → s.email_service_instance ≡ some e
      → get_email_service factories s ≡ returned e s
  unfolding get_email_service
  email_stays s e p = ground arith

  email_made :
      MakesLinked
      → (s s' : State) (d : D) (q : Outcome S E) → s.email_service_instance ≡ none
      → get_database_service factories s ≡ returned d s'
      → IsLinked s' × (s'.database_service_instance ≡ some d)
      → factories.create_email_service d s'.world ≡ q
      → EmailGot (get_email_service factories s)
  unfolding get_email_service
  email_made makes s s' d (returned e t) p got ((email, flags, queues), has) c =
      let made = record s' { email_service_instance = some e; world = t } in
      let ran : get_email_service factories s ≡ returned e made = ground arith in
      let from : s'.database_service_instance ≡ some (database_of e) =
        has ∙ ap some (sym (makes d e s'.world t c)) in
      subst⁻¹ EmailGot ran ((from, flags, queues), email_stays made e refl, from)
  email_made makes s s' d (raised e t) p got (h, has) c =
      let ran : get_email_service factories s ≡ raised e (record s' { world = t }) = ground arith in
      subst⁻¹ EmailGot ran h

  email_failed :
      (s s' : State) (x : Error)
      → s.email_service_instance ≡ none
      → get_database_service factories s ≡ raised x s'
      → IsLinked s'
      → EmailGot (get_email_service factories s)
  unfolding get_email_service
  email_failed s s' x p got h =
      let ran : get_email_service factories s ≡ raised x s' = ground arith in subst⁻¹ EmailGot ran h

  email_after :
      MakesLinked
      → (s : State) (q : Outcome State D) → s.email_service_instance ≡ none
      → get_database_service factories s ≡ q
      → DatabaseGot q
      → EmailGot (get_email_service factories s)
  email_after makes s (returned d s') p got h =
      email_made makes s s' d (factories.create_email_service d s'.world) p got h refl
  email_after makes s (raised x s') p got h = email_failed s s' x p got h

  email_there :
      MakesLinked
      → (s : State) (o : Option E) → s.email_service_instance ≡ o
      → IsLinked s
      → EmailGot (get_email_service factories s)
  email_there makes s none p h =
      email_after makes s (get_database_service factories s) p refl (database_lem s h)
  email_there makes s (some e) p (email, flags, queues) = subst⁻¹ EmailGot (email_stays s e p) (
    (email, flags, queues),
    email_stays s e p,
    subst (λ o. EmailLinked o s.database_service_instance) p email,
  )

  -- If an email service stands on the database service that it is made from, a call of
  -- getEmailService keeps the singletons fitting together; if it returns a service, a second call
  -- returns the same one without making anything, and it stands on the database service of the
  -- module.
  pub get_email_service_lem :
      ((d : D) (e : E) (t t' : S)
        → factories.create_email_service d t ≡ returned e t'
        → database_of e ≡ d)
      → (s : State) → IsLinked s
      → EmailGot (get_email_service factories s)
  get_email_service_lem makes s h = email_there makes s s.email_service_instance refl h

  abbrev QueuesGot : Outcome State (Unit {0}) → Type 0
  QueuesGot (returned u s) =
      IsLinked s × (ensure_queue_services_initialized factories s ≡ returned tt s)
  QueuesGot (raised e s) = IsLinked s

  queues_stay :
      (s : State)
      → s.queue_services_initialized ≡ true
      → ensure_queue_services_initialized factories s ≡ returned tt s
  unfolding ensure_queue_services_initialized
  queues_stay s p = ground arith

  queues_linked : (b : Bool) (o : Option R) (r : R) → o ≡ some r → QueuesLinked b o
  queues_linked b none r p = ground arith
  queues_linked true (some x) r p = tt
  queues_linked false (some x) r p = tt

  queues_made :
      (s s' : State) (r : R) (q : Outcome S (Unit {0}))
      → s.queue_services_initialized ≡ false
      → get_redis_service factories s ≡ returned r s'
      → IsLinked s' × (s'.redis_service_instance ≡ some r)
      → factories.init_queue_services r s'.world ≡ q
      → QueuesGot (ensure_queue_services_initialized factories s)
  unfolding ensure_queue_services_initialized
  queues_made s s' r (returned u t) p got ((email, flags, queues), has) c =
      let made = record s' { world = t; queue_services_initialized = true } in
      let ran : ensure_queue_services_initialized factories s ≡ returned tt made = ground arith in
      subst⁻¹ QueuesGot ran
        ((email, flags, queues_linked true s'.redis_service_instance r has), queues_stay made refl)
  queues_made s s' r (raised e t) p got (h, has) c =
      let ran : ensure_queue_services_initialized factories s ≡ raised e (record s' { world = t }) =
        ground arith in
      subst⁻¹ QueuesGot ran h

  queues_after :
      (s : State) (q : Outcome State R)
      → s.queue_services_initialized ≡ false
      → get_redis_service factories s ≡ q
      → RedisGot q
      → QueuesGot (ensure_queue_services_initialized factories s)
  unfolding ensure_queue_services_initialized
  queues_after s (returned r s') p got h =
      queues_made s s' r (factories.init_queue_services r s'.world) p got h refl
  queues_after s (raised x s') p got h =
      let ran : ensure_queue_services_initialized factories s ≡ raised x s' = ground arith in
      subst⁻¹ QueuesGot ran h

  -- The queue services are initialised over the module's connection, and once.
  pub ensure_queue_services_initialized_lem :
      (s : State) → IsLinked s → QueuesGot (ensure_queue_services_initialized factories s)
  ensure_queue_services_initialized_lem s h = elim (Bool-cases s.queue_services_initialized) [
    | inl up ↦ subst⁻¹ QueuesGot (queues_stay s up) (h, queues_stay s up)
    | inr down ↦ queues_after s (get_redis_service factories s) down refl (redis_lem s h)
  ]
