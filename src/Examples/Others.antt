-- ===== src/Examples/Others.antt =====
-- The worker's metrics, the connection's retries, the flags, the queue and the API.
use mern_auth.Prelude.{
  length, List, ℕ, suc, ◌+◌, ◌*◌, ◌^◌, ◌≤◌, ◌≡◌, refl, none, some, Option, [], ◌∷◌, true, false,
  if◌then◌else◌, Bool,
}
use mern_auth.Text.{Text, codes, text_eq, includes, is_prefix}
use mern_auth.Errors.{plain, open_breaker}
use mern_auth.Exec.{returned, raised, state_of}
use mern_auth.Worker.Processor.{
  Processor, ActiveJob, new_processor, WorkerConfig, begin_job, abort_job, on_failed,
}
use mern_auth.Worker.Processor.Balance.{
  stall, System, Reachable, IsBalanced, Reachable-IsBalanced, begin, throw, fail, start, after,
}
use mern_auth.Worker.Processor.DeadLetters.{all_failed_lem, all_failed, stack, exhausted}
use mern_auth.Database.Connection.{Mongoose, Manager, DatabaseConfig, connect, initial_retry_delay}
use mern_auth.Database.Connection.Retries.{connect-waited}
use mern_auth.Database.Connection.Outcomes.{Rounds, connect-Rounds}
use mern_auth.Flags.{RedisConnection, is_enabled, disable, enable, parse_int, to_string, flag_key}
use mern_auth.Flags.Listing.{
  get_all_flags, get_all_flags-is_enabled, FlagValues, value_of, is_skipped,
}
use mern_auth.Flags.Hash.{parse_int-to_string}
use mern_auth.Flags.Rollout.{IsKeyValue, disable_overrides, is_enabled_raised, is_enabled_empty}
use mern_auth.Queue.{Add, Job, QueueService, default_job_options}
use mern_auth.Queue.Producer.{EmailJobData}

abbrev config : WorkerConfig
config = record { attempts = some 3; backoff = none }

abbrev failure : ℕ → ActiveJob Text
failure n = record { name = "sendVerificationEmail"; job_data = codes "a"; attempts_made = n }

abbrev buried : Processor Text
buried = new_processor (some config) (some "emailDeadLetter")

-- A job that was begun, threw, and was reported, and another that stalled.
abbrev failed_twice : System Text
failed_twice = record {
  processor = on_failed none (on_failed (some (failure 1)) (abort_job (begin_job buried)));
  running = 0;
  succeeded = 0;
  thrown = 0;
  lost = 0;
  stalled = 1;
}

failed_twice-Reachable : Reachable failed_twice
failed_twice-Reachable =
    after
      (after (after (after (start (some config) (some "emailDeadLetter")) begin) (throw refl))
        (fail (some (failure 1)) refl))
      (stall none)

Reachable-IsBalanced_example : IsBalanced failed_twice
Reachable-IsBalanced_example = Reachable-IsBalanced failed_twice failed_twice-Reachable

has_letters : buried.dead_letters ≡ some []
unfolding new_processor
has_letters = refl

all_failed_lem_example :
    ((all_failed (failure 1 ∷ failure 2 ∷ failure 3 ∷ []) buried).dead_letters
      ≡ some (stack (exhausted buried.worker_config (failure 1 ∷ failure 2 ∷ failure 3 ∷ [])) []))
    × ((all_failed (failure 1 ∷ failure 2 ∷ failure 3 ∷ []) buried).metrics.failed
        ≡ buried.metrics.failed + length (failure 1 ∷ failure 2 ∷ failure 3 ∷ []))
all_failed_lem_example =
    all_failed_lem (failure 1 ∷ failure 2 ∷ failure 3 ∷ []) buried [] has_letters

-- A server that is never reached, and counts the attempts.
abbrev unreachable : Mongoose ℕ
unreachable = record {
  ready_state = λ m. 0;
  has_db = λ m. true;
  connect = λ uri m. raised (plain "ECONNREFUSED") (suc m);
  disconnect = λ m. returned tt m;
  ping = λ m. returned tt m;
}

abbrev database : DatabaseConfig
database = record {
  db_uri = some "mongodb://localhost";
  db_max_retries = some 3;
  db_initial_retry_delay_ms = some 100;
}

abbrev offline : Manager ℕ
offline = record { is_connected = false; connection = 0; waited = 0 }

connect-Rounds_example :
    Rounds unreachable database 3 0 offline (connect unreachable database offline)
connect-Rounds_example = connect-Rounds unreachable database 2 offline refl refl refl

connect-waited_example :
    (state_of (connect unreachable database offline)).waited + initial_retry_delay database
    ≤ offline.waited + initial_retry_delay database * 2 ^ 2
connect-waited_example = connect-waited unreachable database 2 offline refl

-- The flags as a function of the key.
abbrev flags : RedisConnection (Text → Option Text)
flags = record {
  get = λ k s. returned (s k) s;
  set = λ k v s. returned tt (λ j. if text_eq k j then some v else s j);
}

abbrev flags-IsKeyValue : IsKeyValue flags
flags-IsKeyValue = record {
  read = λ s k. s k;
  write = λ k v s j. if text_eq k j then some v else s j;
  get_lem = λ k s. refl;
  set_lem = λ k v s. refl;
  read-write = λ k v s j. refl;
}

abbrev no_flags : Text → Option Text
no_flags k = none

disable_overrides_example :
    ((s' : Text → Option Text) × (disable flags (codes "beta") no_flags ≡ returned tt s')
      × (is_enabled flags (codes "beta") (some (codes "u1")) s' ≡ returned false s'))
    × ((s' : Text → Option Text) × (enable flags (codes "beta") no_flags ≡ returned tt s')
        × (is_enabled flags (codes "beta") (some (codes "u1")) s' ≡ returned true s'))
disable_overrides_example =
    disable_overrides flags flags-IsKeyValue (codes "beta") (some (codes "u1")) no_flags

-- A Redis that throws, and one that is degraded.
abbrev throwing : RedisConnection ℕ
throwing = record { get = λ k s. raised open_breaker s; set = λ k v s. raised open_breaker s }

abbrev emptied : RedisConnection ℕ
emptied = record { get = λ k s. returned none s; set = λ k v s. returned tt s }

is_enabled_raised_example : is_enabled throwing (codes "beta") none 0 ≡ returned true 0
is_enabled_raised_example = is_enabled_raised throwing (codes "beta") none open_breaker 0 refl

is_enabled_empty_example :
    is_enabled emptied (codes "beta") (some (codes "u1")) 0 ≡ returned false 0
is_enabled_empty_example = is_enabled_empty emptied (codes "beta") (some (codes "u1")) 0 (λ k. refl)

parse_int-to_string_example : parse_int (to_string 100) ≡ some 100
parse_int-to_string_example = parse_int-to_string 100

-- A queue that keeps what it is given.
abbrev keep : Add (List (Job EmailJobData)) EmailJobData
keep name job_data options q =
    let job : Job EmailJobData = record { id = options.job_id; name = name; job_data = job_data } in
    returned job (job ∷ q)

abbrev service : QueueService (List (Job EmailJobData)) EmailJobData
service = record {
  queue_name = "emailQueue";
  default_options = default_job_options;
  job_schema = none;
  enable_circuit_breaker = true;
  queue = some keep;
  circuit_breaker = none;
}

abbrev beta_on : Text → Option Text
beta_on k = if text_eq k (codes "flag:beta") then some (codes "true") else none

not_skipped : is_skipped (flag_key (codes "beta")) ≡ false
unfolding is_skipped includes is_prefix flag_key
not_skipped = refl

beta_own : text_eq (codes "beta") (codes "__proto__") ≡ false
unfolding text_eq
beta_own = refl

get_all_flags-is_enabled_example :
    (listed : FlagValues) × (b : Bool) × (get_all_flags flags
        (λ pattern s. returned (some (flag_key (codes "beta") ∷ [])) s)
        beta_on
      ≡ returned listed beta_on)
    × (value_of (codes "beta") listed ≡ some b)
    × (is_enabled flags (codes "beta") none beta_on ≡ returned b beta_on)
get_all_flags-is_enabled_example =
    get_all_flags-is_enabled flags beta_on beta_on (λ k. refl)
      (λ pattern s. returned (some (flag_key (codes "beta") ∷ [])) s) [] [] (codes "beta") refl
      not_skipped beta_own
