-- ===== src/Examples/Service.antt =====
-- A worker that starts and stops, and the migrations.
use mern_auth.Prelude.{
  false, str_eq, any, ℕ, ◌+◌, ◌/◌, ◌≡◌, refl, sym, ap, none, some, Option, [], ◌∷◌, List, String,
  ltb, if◌then◌else◌, arith,
}
use mern_auth.Text.{text_eq}
use mern_auth.Errors.{plain}
use mern_auth.Exec.{Exec, returned, raised, state_of}
use mern_auth.Worker.Processor.{no_metrics}
use mern_auth.Worker.Service.{
  Clock, QueueProcessor, WorkerService, stop, wait_for_jobs, active_jobs, shut_down,
}
use mern_auth.Worker.Service.Stop.{Stopped, stop-Stopped}
use mern_auth.Database.Migrations.{
  note_failure, run_migration, Direction, to_up, to_down, applied, failed, up, down, migrate,
  get_migration_files, insert,
}
use mern_auth.Database.Migrations.Records.{MigrationLaws}
use mern_auth.Database.Migrations.Memory.{
  Db, Tame, memory_mongo, memory_mongo-laws, records, before,
}
use mern_auth.Database.Migrations.Applied.{up-applied}
use mern_auth.Database.Migrations.Blocked.{IsRaised, failed-up}
use mern_auth.Database.Migrations.RolledBack.{failed-down}

-- A state is the time; a job runs for the first 700 milliseconds.
abbrev clock : Clock ℕ
clock = record { now = λ s. s; sleep = λ ms s. s + ms }

abbrev processor : QueueProcessor ℕ
processor = record {
  queue_name = "emails";
  initialize = λ s. returned tt s;
  pause = λ s. returned tt s;
  resume = λ s. returned tt s;
  close = λ s. returned tt (s + 1);
  get_health = λ s. raised (plain "unused") s;
  get_metrics = λ s. record no_metrics { active = if ltb s 700 then 1 else 0 };
}

abbrev worker : WorkerService ℕ
worker = record {
  processors = processor ∷ [];
  database_service = none;
  init_services = (λ s. raised (plain "no templates") s) ∷ [];
}

stopped : stop clock worker 62 30000 0 ≡ some (returned tt 1001)
unfolding stop wait_for_jobs active_jobs shut_down
stopped = refl

stop-Stopped_example : Stopped clock worker 30000 0 (stop clock worker (30000 / 500 + 2) 30000 0)
stop-Stopped_example = stop-Stopped clock worker (λ s. omega arith) 30000 0

abbrev functions : String → Direction → Option (Exec Db (Unit {0}))
functions f to_up = some (λ s. returned tt s)
functions f to_down = some (λ s. raised (plain "no way back") s)

abbrev run_of : Db → Option (Exec Db (Unit {0})) → Db
run_of t none = t
run_of t (some run) = state_of (run t)

tame : Tame ("1.migration.js" ∷ []) functions
tame f to_up run given t =
    (ap (λ o. (run_of t o).names) (sym given), ap (λ o. (run_of t o).at_start) (sym given))
tame f to_down run given t =
    (ap (λ o. (run_of t o).names) (sym given), ap (λ o. (run_of t o).at_start) (sym given))

abbrev files : List String
files = "1.migration.js" ∷ []

abbrev laws : MigrationLaws (memory_mongo files functions) records before
laws = memory_mongo-laws files functions tame

abbrev new_db : Db
new_db = record {
  names = record { applied_names = []; failed_names = [] };
  at_start = record { applied_names = []; failed_names = [] };
}

abbrev failed_db : Db
failed_db = record {
  names = record { applied_names = []; failed_names = "1.migration.js" ∷ [] };
  at_start = record { applied_names = []; failed_names = [] };
}

abbrev applied_db : Db
applied_db = record {
  names = record { applied_names = "1.migration.js" ∷ []; failed_names = [] };
  at_start = record { applied_names = []; failed_names = [] };
}

listed : (s : Db) → get_migration_files (memory_mongo files functions) s ≡ returned files s
unfolding get_migration_files memory_mongo text_eq insert
listed s = refl

ran : up (memory_mongo files functions) new_db ≡ returned tt applied_db
unfolding up memory_mongo text_eq insert
ran = refl

up-applied_example : records applied_db "1.migration.js" ≡ some applied
up-applied_example =
    up-applied (memory_mongo files functions) records before laws "1.migration.js" files new_db
      new_db applied_db (listed new_db) refl ran

failed-up_example :
    IsRaised (up (memory_mongo files functions) failed_db)
    × (records (state_of (up (memory_mongo files functions) failed_db)) "1.migration.js"
        ≡ some failed)
failed-up_example =
    failed-up (memory_mongo files functions) records before laws "1.migration.js" failed_db
      failed_db files refl (listed failed_db) refl

starts :
    (t : Db) → (t' : Db) × ((memory_mongo files functions).start_transaction t ≡ returned tt t')
unfolding memory_mongo
starts t = (_, refl)

aborts :
    (t : Db) → (t' : Db) × ((memory_mongo files functions).abort_transaction t ≡ returned tt t')
unfolding memory_mongo
aborts t = (_, refl)

ends : (t : Db) → (t' : Db) × ((memory_mongo files functions).end_session t ≡ returned tt t')
unfolding memory_mongo
ends t = (_, refl)

notes :
    (text : String) (t : Db)
    → (t' : Db) × ((memory_mongo files functions).upsert_failed "1.migration.js" text t
        ≡ returned tt t')
unfolding memory_mongo
notes text t = (_, refl)

last :
    (memory_mongo files functions).find_last_applied applied_db
    ≡ returned (some "1.migration.js") applied_db
unfolding memory_mongo
last = refl

thrown : IsRaised (down (memory_mongo files functions) applied_db)
unfolding down run_migration migrate note_failure memory_mongo
thrown = tt

failed-down_example :
    (records (state_of (down (memory_mongo files functions) applied_db)) "1.migration.js"
      ≡ some failed)
    × ((s' : Db) (names : List String)
        → (memory_mongo files functions).find_applied
            (state_of (down (memory_mongo files functions) applied_db))
          ≡ returned names s'
        → any (str_eq "1.migration.js") names ≡ false)
failed-down_example =
    failed-down (memory_mongo files functions) records before laws "1.migration.js" aborts ends
      notes applied_db applied_db starts last thrown
