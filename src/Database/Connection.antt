-- ===== src/Database/Connection.antt =====
-- DatabaseConnectionManager, packages/database/src/connection-manager.ts: connecting with retries.
-- Mongoose is a parameter; the pool's options and logging are left out.
pub mod Retries
pub mod Outcomes
use mern_auth.Prelude.{
  ℕ, zero, suc, ◌+◌, ◌*◌, ◌^◌, Bool, true, false, ◌||◌, Option, none, some, String, str_eq, ltb,
  ◌==◌, if◌then◌else◌,
}
use mern_auth.Errors.{Error, configuration_error, database_connection_error, plain, message}
use mern_auth.Exec.{returned, raised, Exec, pure, throw, try_catch, ◌>>=◌, ◌>>◌, embed}

pub record DatabaseConfig : Type 0 where
  pub db_uri : Option String
  pub db_max_retries : Option ℕ
  pub db_initial_retry_delay_ms : Option ℕ

-- The connection of mongoose: readyState, whether there is a connection.db, and its calls.
pub record Mongoose (M : Type 0) : Type 0 where
  pub ready_state : M → ℕ
  pub has_db : M → Bool
  pub connect : String → Exec M (Unit {0})
  pub disconnect : Exec M (Unit {0})
  pub ping : Exec M (Unit {0})

-- The manager's flag, mongoose's state, and the milliseconds spent between two attempts.
pub record Manager (M : Type 0) : Type 0 where
  pub is_connected : Bool
  pub connection : M
  pub waited : ℕ

abbrev or_number : Option ℕ → ℕ → ℕ
or_number none n = n
or_number (some m) n = m

abbrev pub max_retries : DatabaseConfig → ℕ
max_retries config = or_number config.db_max_retries 5

abbrev pub initial_retry_delay : DatabaseConfig → ℕ
initial_retry_delay config = or_number config.db_initial_retry_delay_ms 1000

module _ {M : Type 0} where
  abbrev pub on_connection : {A : Type 0} → Exec M A → Exec (Manager M) A
  on_connection = embed (λ s. s.connection) (λ m s. record s { connection = m })

  abbrev pub set_connected : Bool → Exec (Manager M) (Unit {0})
  set_connected b s = returned tt (record s { is_connected = b })

  abbrev pub sleep : ℕ → Exec (Manager M) (Unit {0})
  sleep delay s = returned tt (record s { waited = s.waited + delay })

module _ {M : Type 0} (mongoose : Mongoose M) (config : DatabaseConfig) where
  abbrev pub connect_uri : Option String → Exec M (Unit {0})
  connect_uri none = throw (configuration_error "Missing Database Connection String")
  connect_uri (some uri) =
      if str_eq uri ""
      then throw (configuration_error "Missing Database Connection String")
      else mongoose.connect uri

  abbrev pub ping_db : Exec M (Unit {0})
  ping_db m = if mongoose.has_db m then mongoose.ping m else returned tt m

  -- The try block of one round.
  unfoldable pub attempt : Exec (Manager M) (Unit {0})
  attempt = do on_connection (connect_uri config.db_uri); on_connection ping_db; set_connected true

  -- The rounds from number i on, `left` of them.
  unfoldable pub rounds : ℕ → ℕ → Exec (Manager M) (Unit {0})
  rounds zero i = pure tt
  rounds (suc left) i = try_catch attempt (λ e.
      if ltb (i + 1) (max_retries config)
      then (do sleep (initial_retry_delay config * 2 ^ i); rounds left (suc i))
      else throw (database_connection_error (message e)))

  unfoldable pub connect : Exec (Manager M) (Unit {0})
  unfolding rounds attempt
  connect s =
      if s.is_connected || (mongoose.ready_state s.connection == 1)
      then returned tt s
      else rounds (max_retries config) 0 s

  unfoldable pub disconnect : Exec (Manager M) (Unit {0})
  disconnect = do on_connection mongoose.disconnect; set_connected false

  unfoldable pub ping : Exec (Manager M) Bool
  ping s =
      if mongoose.has_db s.connection
      then (do on_connection mongoose.ping; pure true) s
      else raised (plain "Not connected") s

pub record ConnectionState : Type 0 where
  pub is_connected : Bool
  pub ready_state : ℕ
  pub label : String

unfoldable pub get_ready_state_label : ℕ → String
get_ready_state_label n =
    if n == 0
    then "disconnected"
    else if n == 1
    then "connected"
    else if n == 2
    then "connecting"
    else if n == 3
    then "disconnecting"
    else "unknown"

pub data DatabaseHealth : Type 0 where
  healthy_database : DatabaseHealth
  unhealthy_database : String → DatabaseHealth

module _ {M : Type 0} (mongoose : Mongoose M) where
  unfoldable pub get_connection_state : Manager M → ConnectionState
  get_connection_state s = record {
    is_connected = s.is_connected;
    ready_state = mongoose.ready_state s.connection;
    label = get_ready_state_label (mongoose.ready_state s.connection);
  }

  unfoldable pub health_check : Exec (Manager M) DatabaseHealth
  health_check s =
      if mongoose.has_db s.connection
      then try_catch (on_connection mongoose.ping >>= λ u. pure healthy_database)
          (λ e. pure (unhealthy_database (message e))) s
      else returned (unhealthy_database "Not connected") s
