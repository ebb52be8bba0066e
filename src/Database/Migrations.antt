-- ===== src/Database/Migrations.antt =====
-- MigrationRunner, packages/database/src/migrations/runner.ts. The calls of mongoose, the directory
-- of the migrations and the migrations themselves are parameters; logging is left out.

pub mod Records
pub mod Blocked
pub mod RolledBack
pub mod Applied
pub mod Memory
use Prim.Native.String
use mern_auth.Prelude.{
  str_eq, ℕ, String, Bool, true, false, not, ◌&&◌, ◌||◌, Option, none, some, List, [], ◌∷◌, ◌==◌,
  ltb, select, any, if◌then◌else◌,
}
use mern_auth.Text.{Text, codes, text_eq}
use mern_auth.Errors.{Error, plain, message}
use mern_auth.Exec.{Exec, Outcome, returned, raised, pure, throw, try_catch, ◌>>=◌, ◌>>◌}

pub data Direction : Type 0 where
  to_up to_down : Direction

-- The status of a migration's document; "pending" is never written.
pub data MigrationStatus : Type 0 where
  applied failed : MigrationStatus

-- Sessions, the collection of migrations, and the import of a migration's file with its function
-- for a direction, none if it exports no such function.
pub record Mongo (S : Type 0) : Type 0 where
  pub readdir : Exec S (List String)
  pub load : String → Direction → Exec S (Option (Exec S (Unit {0})))
  pub has_db : S → Bool
  pub start_transaction : Exec S (Unit {0})
  pub commit_transaction : Exec S (Unit {0})
  pub abort_transaction : Exec S (Unit {0})
  pub end_session : Exec S (Unit {0})
  pub find_applied : Exec S (List String)
  pub find_last_applied : Exec S (Option String)
  pub create : String → Exec S (Unit {0})
  pub delete_one : String → Exec S (Unit {0})
  pub upsert_failed : String → String → Exec S (Unit {0})

-- s.endsWith(t)
unfoldable pub ends_with : Text → Text → Bool
ends_with [] t = text_eq [] t
ends_with (c ∷ s) t = text_eq (c ∷ s) t || ends_with s t

-- The order of strings by their code units.
unfoldable pub text_leb : Text → Text → Bool
text_leb [] t = true
text_leb (c ∷ s) [] = false
text_leb (c ∷ s) (d ∷ t) = ltb c d || (c == d) && text_leb s t

unfoldable pub insert : String → List String → List String
insert x [] = x ∷ []
insert x (y ∷ ys) =
    let rest = insert x ys in if text_leb (codes x) (codes y) then x ∷ y ∷ ys else y ∷ rest

abbrev direction_name : Direction → String
direction_name to_up = "up"
direction_name to_down = "down"

abbrev pub missing_function : String → Direction → String
missing_function filename direction = String.◌++◌ "Migration " (
    String.◌++◌ filename
      (String.◌++◌ " does not export '" (String.◌++◌ (direction_name direction) "' function")))

-- names.sort()
unfoldable pub sort : List String → List String
sort [] = []
sort (x ∷ xs) = insert x (sort xs)

-- !appliedMigrations.has(file)
abbrev pub is_pending : List String → String → Bool
is_pending applied_names file = not (any (str_eq file) applied_names)

module _ {S : Type 0} where
  -- try { m } finally { f }
  abbrev pub finally : Exec S (Unit {0}) → Exec S (Unit {0}) → Exec S (Unit {0})
  finally m f s = elim (m s) [ returned u s' ↦ f s' | raised e s' ↦ (f >> throw e) s' ]

  -- for (const x of xs) { await act(x); }
  abbrev pub each : (String → Exec S (Unit {0})) → List String → Exec S (Unit {0})
  each act [] = pure tt
  each act (x ∷ xs) = do act x; each act xs

module _ {S : Type 0} (mongo : Mongo S) where
  unfoldable pub get_migration_files : Exec S (List String)
  unfolding ends_with sort
  get_migration_files = do
    files ← mongo.readdir
    pure (sort (select (λ f. ends_with (codes f) (codes ".migration.js")) files))

  abbrev pub run_function : String → Direction → Option (Exec S (Unit {0})) → Exec S (Unit {0})
  run_function filename direction none = throw (plain (missing_function filename direction))
  run_function filename direction (some run) = λ s. if mongo.has_db s then run s else returned tt s

  abbrev pub update_status : String → Direction → Exec S (Unit {0})
  update_status filename to_up = mongo.create filename
  update_status filename to_down = mongo.delete_one filename

  -- The try block of runMigration.
  unfoldable pub migrate : String → Direction → Exec S (Unit {0})
  migrate filename direction = do
    run ← mongo.load filename direction
    run_function filename direction run
    update_status filename direction
    mongo.commit_transaction

  -- Its catch block.
  unfoldable pub note_failure : String → Error → Exec S (Unit {0})
  note_failure filename e = do
    mongo.abort_transaction
    mongo.upsert_failed filename (message e)
    throw e

  unfoldable pub run_migration : String → Direction → Exec S (Unit {0})
  unfolding migrate note_failure
  run_migration filename direction = do
    mongo.start_transaction
    finally (try_catch (migrate filename direction) (note_failure filename)) mongo.end_session

  unfoldable pub up : Exec S (Unit {0})
  unfolding get_migration_files run_migration
  up = do
    files ← get_migration_files
    applied_names ← mongo.find_applied
    each (λ file. run_migration file to_up) (select (is_pending applied_names) files)

  abbrev pub roll_back : Option String → Exec S (Unit {0})
  roll_back none = pure tt
  roll_back (some name) = run_migration name to_down

  unfoldable pub down : Exec S (Unit {0})
  unfolding run_migration
  down = mongo.find_last_applied >>= roll_back
