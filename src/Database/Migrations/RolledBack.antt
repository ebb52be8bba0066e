-- ===== src/Database/Migrations/RolledBack.antt =====
-- A rollback that fails, and what the collection then says of its migration.
use mathlib.Core.Path.{subst, subst⁻¹}
use mern_auth.Prelude.{◌≡◌, refl, ◌∙◌, String, false, Option, some, List, any, str_eq, arith}
use mern_auth.Errors.{Error, message}
use mern_auth.Exec.{Exec, Outcome, returned, raised, state_of, ◌>>◌, throw}
use mern_auth.Database.Migrations.{
  Mongo, to_down, MigrationStatus, failed, migrate, note_failure, run_migration, down,
}
use mern_auth.Database.Migrations.Records.{MigrationLaws, bound_kept}
use mern_auth.Database.Migrations.Blocked.{IsRaised, not_applied}

module _ {S : Type 0} (mongo : Mongo S) (records before : S → String → Option MigrationStatus)
    (laws : MigrationLaws mongo records before) (n : String) where
  abbrev Failed : S → Type 0
  Failed s = records s n ≡ some failed

  -- A call that always returns.
  abbrev pub Succeeds : Exec S (Unit {0}) → Type 0
  Succeeds act = (t : S) → (t' : S) × (act t ≡ returned tt t')

  rolled_back :
      (s s1 s2 s3 s4 s5 : S) (e : Error)
      → mongo.find_last_applied s ≡ returned (some n) s1
      → mongo.start_transaction s1 ≡ returned tt s2
      → migrate mongo n to_down s2 ≡ raised e s3
      → mongo.abort_transaction s3 ≡ returned tt s4
      → mongo.upsert_failed n (message e) s4 ≡ returned tt s5
      → down mongo s ≡ (mongo.end_session >> throw e) s5
  unfolding down run_migration note_failure
  rolled_back s s1 s2 s3 s4 s5 e last began broke aborted recorded = ground arith

  down-Failed :
      (s s1 s2 s3 s4 s5 : S) (e : Error)
      → mongo.find_last_applied s ≡ returned (some n) s1
      → mongo.start_transaction s1 ≡ returned tt s2
      → migrate mongo n to_down s2 ≡ raised e s3
      → mongo.abort_transaction s3 ≡ returned tt s4
      → mongo.upsert_failed n (message e) s4 ≡ returned tt s5
      → Failed (state_of (down mongo s))
  down-Failed s s1 s2 s3 s4 s5 e last began broke aborted recorded =
      subst⁻¹ (λ o. Failed (state_of o))
        (rolled_back s s1 s2 s3 s4 s5 e last began broke aborted recorded)
        (bound_kept Failed mongo.end_session (λ u. throw e) s5
          ((laws.end_same s5 n).0 ∙ laws.upsert_done n (message e) s4 s5 recorded)
          (λ u s' done h. h))

  -- A rollback that goes through throws nothing.
  rolled_down :
      (s s1 s2 s3 s4 : S)
      → mongo.find_last_applied s ≡ returned (some n) s1
      → mongo.start_transaction s1 ≡ returned tt s2
      → migrate mongo n to_down s2 ≡ returned tt s3
      → mongo.end_session s3 ≡ returned tt s4
      → down mongo s ≡ returned tt s4
  unfolding down run_migration
  rolled_down s s1 s2 s3 s4 last began ran ended = ground arith

  module _ (aborts : Succeeds mongo.abort_transaction) (ends : Succeeds mongo.end_session)
      (notes : (text : String) → Succeeds (mongo.upsert_failed n text)) where
    migrate-Failed :
        (s s1 s2 : S) (o : Outcome S (Unit {0}))
        → mongo.find_last_applied s ≡ returned (some n) s1
        → mongo.start_transaction s1 ≡ returned tt s2
        → migrate mongo n to_down s2 ≡ o
        → IsRaised (down mongo s)
        → Failed (state_of (down mongo s))
    migrate-Failed s s1 s2 (returned u s3) last began ran raises =
        let (s4, ended) = ends s3 in
        elim (subst (λ o. IsRaised o) (rolled_down s s1 s2 s3 s4 last began ran ended) raises) [ ]
    migrate-Failed s s1 s2 (raised e s3) last began broke raises =
        let (s4, aborted) = aborts s3 in
        let (s5, recorded) = notes (message e) s4 in
        down-Failed s s1 s2 s3 s4 s5 e last began broke aborted recorded

    -- Where sessions are transactions, names are unique in the collection, the migrations leave the
    -- collection alone, and beginning, aborting and ending a session and recording a failure do not
    -- throw: a rollback that throws, of the migration that was applied last, leaves the migration's
    -- record at failed, and the next list of the applied migrations does not have it.
    pub failed-down :
        (s s1 : S)
        → Succeeds mongo.start_transaction
        → mongo.find_last_applied s ≡ returned (some n) s1
        → IsRaised (down mongo s)
        → (records (state_of (down mongo s)) n ≡ some failed)
          × ((s' : S) (names : List String)
              → mongo.find_applied (state_of (down mongo s)) ≡ returned names s'
              → any (str_eq n) names ≡ false)
    failed-down s s1 starts last raises =
        let (s2, began) = starts s1 in
        let now = migrate-Failed s s1 s2 (migrate mongo n to_down s2) last began refl raises in
        (
          now,
          λ s' names found.
              not_applied mongo records before laws n (state_of (down mongo s)) s' names now found,
        )
