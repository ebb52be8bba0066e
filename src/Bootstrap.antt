-- ===== src/Bootstrap.antt =====
-- packages/app-bootstrap/src/bootstrap.ts: the singletons of a process, its startup and its
-- shutdown. The factories of the services, the services' calls and the clock are parameters;
-- logging and tracing are left out.
pub mod Singletons
pub mod Startup
use mern_auth.Prelude.{
  ℕ, ◌+◌, ◌-◌, Bool, true, false, not, ◌&&◌, Option, none, some, List, [], ◌∷◌, String, ltb, str_eq,
  is_empty, if◌then◌else◌,
}
use mern_auth.Errors.{Error, Result, ok, err, configuration_error}
use mern_auth.Exec.{Exec, Outcome, returned, raised, pure, try_catch, ◌>>=◌, ◌>>◌, embed}

-- What makes a connection to Redis, a database service, an email service over one, the queues'
-- services and a feature flag service over a connection.
pub record Factories (S R D E F : Type 0) : Type 0 where
  pub connect_redis : Exec S R
  pub create_database_service : Exec S D
  pub create_email_service : D → Exec S E
  pub init_queue_services : R → Exec S (Unit {0})
  pub new_feature_flag_service : R → Exec S F

-- The module's variables, and the rest of the world.
pub record App (S R D E F : Type 0) : Type 0 where
  pub redis_service_instance : Option R
  pub database_service_instance : Option D
  pub email_service_instance : Option E
  pub queue_services_initialized : Bool
  pub feature_flag_service_instance : Option F
  pub world : S

module _ {S R D E F : Type 0} where
  abbrev pub on_world : {A : Type 0} → Exec S A → Exec (App S R D E F) A
  on_world = embed (λ s. s.world) (λ t s. record s { world = t })

  -- if (instance === null) { instance = make(); } return instance;
  abbrev pub or_make :
      {A : Type 0}
      → Option A
      → (A → App S R D E F → App S R D E F)
      → Exec (App S R D E F) A
      → Exec (App S R D E F) A
  or_make (some instance) put make = pure instance
  or_make none put make = make >>= λ a s. returned a (put a s)

module _ {S R D E F : Type 0} (factories : Factories S R D E F) where
  unfoldable pub get_redis_service : Exec (App S R D E F) R
  get_redis_service s =
      or_make s.redis_service_instance (λ r t. record t { redis_service_instance = some r })
        (on_world factories.connect_redis) s

  unfoldable pub get_database_service : Exec (App S R D E F) D
  get_database_service s =
      or_make s.database_service_instance (λ d t. record t { database_service_instance = some d })
        (on_world factories.create_database_service) s

  unfoldable pub get_email_service : Exec (App S R D E F) E
  unfolding get_database_service
  get_email_service s =
      or_make s.email_service_instance (λ e t. record t { email_service_instance = some e })
        (get_database_service >>= λ d. on_world (factories.create_email_service d)) s

  unfoldable pub get_feature_flag_service : Exec (App S R D E F) F
  unfolding get_redis_service
  get_feature_flag_service s =
      or_make s.feature_flag_service_instance
        (λ f t. record t { feature_flag_service_instance = some f })
        (get_redis_service >>= λ r. on_world (factories.new_feature_flag_service r)) s

  abbrev pub initialize_queues : Bool → Exec (App S R D E F) (Unit {0})
  initialize_queues true = pure tt
  initialize_queues false = do
    r ← get_redis_service
    on_world (factories.init_queue_services r)
    λ s. returned tt (record s { queue_services_initialized = true })

  unfoldable pub ensure_queue_services_initialized : Exec (App S R D E F) (Unit {0})
  unfolding get_redis_service
  ensure_queue_services_initialized s = initialize_queues s.queue_services_initialized s

-- A service's name and its initialisation.
pub record ServiceDefinition (S : Type 0) : Type 0 where
  pub name : String
  pub init : Exec S (Unit {0})

-- How a startup ends: the services run, or the process exits.
pub data Started : Type 0 where
  all_started : Started
  process_exit : ℕ → Started

module _ {S : Type 0} where
  -- Promise.allSettled: each service is initialised; the errors of those that failed, in order.
  unfoldable pub settle_all : List (ServiceDefinition S) → S → List Error × S
  settle_all [] s = ([], s)
  settle_all (service ∷ services) s = elim (service.init s) [
    | returned u s' ↦ settle_all services s'
    | raised e s' ↦ let rest = settle_all services s' in (e ∷ rest.0, rest.1)
  ]

  -- Every rejection is a critical failure; the process then sleeps and exits with 1.
  unfoldable pub start_services : (ℕ → S → S) → ℕ → List (ServiceDefinition S) → S → Started × S
  unfolding settle_all
  start_services sleep shutdown_timeout_ms services s =
      let settled = settle_all services s in
      if is_empty settled.0
      then (all_started, settled.1)
      else (process_exit 1, sleep shutdown_timeout_ms settled.1)

-- What checkBootstrapHealth reports: the ping, an error of which counts as false, and the breaker.
pub record BootstrapHealth : Type 0 where
  pub healthy : Bool
  pub database : Bool
  pub email : Bool

unfoldable pub check_bootstrap_health :
    {S : Type 0} → Exec S Bool → Bool → String → Exec S BootstrapHealth
check_bootstrap_health ping initialized circuit_state = do
  db_ping ← try_catch ping (λ e. pure false)
  pure (record {
    healthy = db_ping && (initialized && not (str_eq circuit_state "open"));
    database = db_ping;
    email = initialized && not (str_eq circuit_state "open");
  })

module _ {S : Type 0} where
  abbrev pub run_hook : Option (Exec S (Unit {0})) → Exec S (Unit {0})
  run_hook none = pure tt
  run_hook (some on_shutdown) = try_catch on_shutdown (λ e. pure tt)

  -- Once the server is closed: the hook, whose error is caught, then the database.
  unfoldable pub shutdown_promise :
      Option (Exec S (Unit {0})) → Exec S (Unit {0}) → Exec S (Unit {0})
  shutdown_promise on_shutdown disconnect = do run_hook on_shutdown; disconnect

module _ {S : Type 0} (now : S → ℕ) where
  -- The code the process exits with, if the shutdown ends in this way: an error of the database
  -- leaves the promise unresolved, so that the timeout wins the race.
  abbrev pub race : ℕ → ℕ → Outcome S (Unit {0}) → ℕ
  race deadline timeout (returned u s) = if ltb (now s) (deadline + timeout) then 0 else 1
  race deadline timeout (raised e s) = 1

  -- The callback of server.close does not look at its error, so that the rest follows either way.
  unfoldable pub graceful_shutdown :
      Exec S (Unit {0}) → Option (Exec S (Unit {0})) → Exec S (Unit {0}) → ℕ → S → ℕ
  unfolding shutdown_promise
  graceful_shutdown close on_shutdown disconnect timeout s =
      race (now s) timeout
        ((do try_catch close (λ e. pure tt); shutdown_promise on_shutdown disconnect) s)

-- services/email.service.factory.ts: the sender's address.
unfoldable pub email_from : Option String → Bool → Result String
email_from none true = err (configuration_error "EMAIL_FROM is required in production environment")
email_from none false = ok "noreply@localhost"
email_from (some address) is_production = ok address
