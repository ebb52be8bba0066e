-- ===== src/Database/Migrations/Blocked.antt =====
-- A migration that has failed once, and the runs of the migrations after it.
use mathlib.Core.Path.{subst, subst⁻¹}
use mern_auth.Prelude.{
  ◌≡◌, refl, ◌∙◌, String, true, false, Option, some, List, [], ◌∷◌, any, select, str_eq, Bool-cases,
  inl, inr, eq_iff, arith,
}
use mern_auth.Text.{codes}
use mern_auth.Errors.{Error, message}
use mern_auth.Exec.{Exec, Outcome, returned, raised, state_of, try_catch, ◌>>=◌, ◌>>◌, throw, pure}
use mern_auth.Database.Migrations.{
  Mongo, to_up, MigrationStatus, failed, finally, run_function, migrate, note_failure,
  run_migration, up, each, is_pending, ends_with, sort, get_migration_files,
}
use mern_auth.Database.Migrations.Records.{
  MigrationLaws, Keeps, Holds, held, bound_kept, function_held, run_migration-Has,
}

abbrev pub IsRaised : {S A : Type 0} → Outcome S A → Type 0
IsRaised (returned a s) = ⊥
IsRaised (raised e s) = Unit

module _ {S : Type 0} where
  bind_raises_at :
      {A B : Type 0} (m : Exec S A) (f : A → Exec S B) (s : S) (o : Outcome S A)
      → m s ≡ o
      → ((a : A) (s' : S) → m s ≡ returned a s' → IsRaised (f a s'))
      → IsRaised (elim o as (λ x. Outcome S B) [ returned a s ↦ f a s | raised e s ↦ raised e s ])
  bind_raises_at m f s (returned a s') e h = h a s' e
  bind_raises_at m f s (raised x s') e h = tt

  bind_raises :
      {A B : Type 0} (m : Exec S A) (f : A → Exec S B) (s : S)
      → ((a : A) (s' : S) → m s ≡ returned a s' → IsRaised (f a s'))
      → IsRaised ((m >>= f) s)
  bind_raises m f s h = bind_raises_at m f s (m s) refl h

  try_raises :
      (o : Outcome S (Unit {0})) (f : Error → Exec S (Unit {0}))
      → IsRaised o
      → ((e : Error) (s : S) → IsRaised (f e s))
      → IsRaised (elim o as (λ x. Outcome S (Unit {0})) [
        | returned a s ↦ returned a s
        | raised e s ↦ f e s
      ])
  try_raises (returned a s) f h k = elim h [ ]
  try_raises (raised e s) f h k = k e s

  finally_raises :
      (o : Outcome S (Unit {0})) (f : Exec S (Unit {0}))
      → IsRaised o
      → IsRaised (elim o as (λ x. Outcome S (Unit {0})) [
        | returned a s ↦ f s
        | raised e s ↦ (f >> throw e) s
      ])
  finally_raises (returned a s) f h = elim h [ ]
  finally_raises (raised e s) f h = bind_raises f (λ u. throw e) s (λ u s' p. tt)

  first_raises_at :
      {A B : Type 0} (o : Outcome S A) (f : A → Exec S B)
      → IsRaised o
      → IsRaised (elim o as (λ x. Outcome S B) [ returned a s ↦ f a s | raised e s ↦ raised e s ])
  first_raises_at (returned a s) f h = elim h [ ]
  first_raises_at (raised e s) f h = tt

  first_raises :
      {A B : Type 0} (m : Exec S A) (f : A → Exec S B) (s : S)
      → IsRaised (m s)
      → IsRaised ((m >>= f) s)
  first_raises m f s h = first_raises_at (m s) f h

-- A list without n keeps n among the names that are not in it.
pub is_pending-select :
    (n : String) (names files : List String)
    → any (str_eq n) names ≡ false
    → any (str_eq n) files ≡ true
    → any (str_eq n) (select (is_pending names) files) ≡ true
is_pending-select n names [] h k = k
is_pending-select n names (f ∷ files) h k = elim (Bool-cases (str_eq n f)) [
  | inl same ↦
      let new = subst (λ x. any (str_eq x) names ≡ false) ((eq_iff n f).0 same) h in
      rw (select, new, same)
  | inr other ↦
      let rest = is_pending-select n names files h (rw other at k) in
      elim (Bool-cases (any (str_eq f) names)) [
        | inl done ↦ rw (select, done, rest)
        | inr pending ↦ rw (select, pending, other, rest)
      ]
]

module _ {S : Type 0} (mongo : Mongo S) (records before : S → String → Option MigrationStatus)
    (laws : MigrationLaws mongo records before) (n : String) (st : MigrationStatus) where
  abbrev Held : S → Type 0
  Held = Holds mongo records before laws n st

  created_raises : (s : S) → Held s → IsRaised ((mongo.create n >> mongo.commit_transaction) s)
  created_raises s (now, then_) =
      let (s', taken, kept) = laws.create_taken n st s now in
      first_raises (mongo.create n) (λ u. mongo.commit_transaction) s
        (subst⁻¹ (λ o. IsRaised o) taken tt)

  migrate_raises : (s : S) → Held s → IsRaised (migrate mongo n to_up s)
  unfolding migrate
  migrate_raises s h =
      bind_raises (mongo.load n to_up)
        (λ run. run_function mongo n to_up run >> (mongo.create n >> mongo.commit_transaction)) s
        (λ run s' loaded.
          bind_raises (run_function mongo n to_up run)
            (λ u. mongo.create n >> mongo.commit_transaction) s'
            (λ u s'' ran. created_raises s'' (
              subst (λ o. Held (state_of o)) ran
                (function_held mongo records before laws n st n to_up run s s' loaded s' (
                  subst (λ o. Held (state_of o)) loaded
                    (held mongo records before laws n st (mongo.load n to_up)
                      (laws.load_same n to_up) s h))))))

  pub failure_raises : (e : Error) (s : S) → IsRaised (note_failure mongo n e s)
  unfolding note_failure
  failure_raises e s =
      bind_raises mongo.abort_transaction (λ u. mongo.upsert_failed n (message e) >> throw e) s
        (λ u s' p.
          bind_raises (mongo.upsert_failed n (message e)) (λ v. throw e) s' (λ v s'' q. tt))

  -- A migration whose name the collection has already throws when it is run upwards.
  pub run_raises : (s : S) → records s n ≡ some st → IsRaised (run_migration mongo n to_up s)
  unfolding run_migration
  run_raises s h =
      bind_raises mongo.start_transaction
        (λ u. finally (try_catch (migrate mongo n to_up) (note_failure mongo n)) mongo.end_session)
        s
        (λ u s' began. finally_raises _ mongo.end_session (
          try_raises (migrate mongo n to_up s') (note_failure mongo n)
            (migrate_raises s' (
              subst (λ o. records (state_of o) n ≡ some st) began (laws.start_records s n ∙ h),
              laws.start_before s s' n began ∙ h,
            ))
            failure_raises))

module _ {S : Type 0} (mongo : Mongo S) (records before : S → String → Option MigrationStatus)
    (laws : MigrationLaws mongo records before) (n : String) where
  abbrev Failed : S → Type 0
  Failed s = records s n ≡ some failed

  each_kept : (files : List String) → Keeps Failed (each (λ f. run_migration mongo f to_up) files)
  each_kept [] s h = h
  each_kept (f ∷ files) s h =
      bound_kept Failed (run_migration mongo f to_up)
        (λ u. each (λ f. run_migration mongo f to_up) files) s
        (run_migration-Has mongo records before laws n failed f (inr refl) s h)
        (λ u s' ran h'. each_kept files s' h')

  each_raises :
      (files : List String) (s : S)
      → any (str_eq n) files ≡ true
      → Failed s
      → IsRaised (each (λ f. run_migration mongo f to_up) files s)
  each_raises [] s k h = ground arith
  each_raises (f ∷ files) s k h = elim (Bool-cases (str_eq n f)) [
    | inl same ↦
        first_raises (run_migration mongo f to_up)
          (λ u. each (λ f. run_migration mongo f to_up) files) s
          (subst (λ x. IsRaised (run_migration mongo x to_up s)) ((eq_iff n f).0 same)
            (run_raises mongo records before laws n failed s h))
    | inr other ↦
        bind_raises (run_migration mongo f to_up)
          (λ u. each (λ f. run_migration mongo f to_up) files) s
          (λ u s' ran. each_raises files s' (rw other at k) (
            subst (λ o. Failed (state_of o)) ran
              (run_migration-Has mongo records before laws n failed f (inr refl) s h)))
  ]

  files_kept : Keeps Failed (get_migration_files mongo)
  unfolding get_migration_files
  files_kept s h =
      bound_kept Failed mongo.readdir
        (λ files. pure (sort (select (λ f. ends_with (codes f) (codes ".migration.js")) files))) s
        ((laws.readdir_same s n).0 ∙ h) (λ files s' got h'. h')

  found_kept : Keeps Failed mongo.find_applied
  found_kept s h = (laws.find_same s n).0 ∙ h

  up_kept : Keeps Failed (up mongo)
  unfolding up
  up_kept s h =
      bound_kept Failed (get_migration_files mongo)
        (λ files. mongo.find_applied >>= λ names.
          each (λ f. run_migration mongo f to_up) (select (is_pending names) files))
        s (files_kept s h)
        (λ files s' got h'.
          bound_kept Failed mongo.find_applied
            (λ names. each (λ f. run_migration mongo f to_up) (select (is_pending names) files)) s'
            (found_kept s' h') (λ names s'' found. each_kept (select (is_pending names) files) s''))

  pub not_applied :
      (s s' : S) (names : List String)
      → records s n ≡ some failed
      → mongo.find_applied s ≡ returned names s'
      → any (str_eq n) names ≡ false
  not_applied s s' names h found = elim (Bool-cases (any (str_eq n) names)) [
    | inr out ↦ out
    | inl there ↦ let done = (laws.find_applied_iff s s' names n found).0 there in ground arith
  ]

  up_raises :
      (s s' : S) (files : List String)
      → records s n ≡ some failed
      → get_migration_files mongo s ≡ returned files s'
      → any (str_eq n) files ≡ true
      → IsRaised (up mongo s)
  unfolding up
  up_raises s s' files h listed here =
      bind_raises (get_migration_files mongo)
        (λ files. mongo.find_applied >>= λ names.
          each (λ f. run_migration mongo f to_up) (select (is_pending names) files))
        s
        (λ files' s1 got.
          let same : files ≡ files' = cc in
          let h1 = subst (λ o. Failed (state_of o)) got (files_kept s h) in
          bind_raises mongo.find_applied
            (λ names. each (λ f. run_migration mongo f to_up) (select (is_pending names) files')) s1
            (λ names s2 found.
              each_raises (select (is_pending names) files') s2
                (is_pending-select n names files' (not_applied s1 s2 names h1 found)
                  (subst (λ fs. any (str_eq n) fs ≡ true) same here))
                (subst (λ o. Failed (state_of o)) found (found_kept s1 h1))))

  -- Where sessions are transactions, names are unique in the collection and the migrations leave
  -- the collection alone: once a migration's record has the status failed, every call of up that
  -- lists its file throws, and leaves the record at failed.
  pub failed-up :
      (s s' : S) (files : List String)
      → records s n ≡ some failed
      → get_migration_files mongo s ≡ returned files s'
      → any (str_eq n) files ≡ true
      → IsRaised (up mongo s) × (records (state_of (up mongo s)) n ≡ some failed)
  failed-up s s' files h listed here = (up_raises s s' files h listed here, up_kept s h)
