-- ===== src/Database/Migrations/Applied.antt =====
-- What a run of the migrations that returns has done.
use mathlib.Core.Path.{subst, subst⁻¹}
use mern_auth.Prelude.{
  ◌≡◌, refl, ◌∙◌, String, true, Option, some, List, [], ◌∷◌, any, select, str_eq, Bool-cases, inl,
  inr, eq_iff, arith,
}
use mern_auth.Errors.{Error}
use mern_auth.Exec.{Exec, Outcome, returned, raised, state_of, try_catch, ◌>>=◌, ◌>>◌, throw}
use mern_auth.Database.Migrations.{
  Mongo, to_up, MigrationStatus, applied, finally, run_function, migrate, note_failure,
  run_migration, up, each, is_pending, get_migration_files,
}
use mern_auth.Database.Migrations.Records.{MigrationLaws, Keeps, run_migration-Has}
use mern_auth.Database.Migrations.Blocked.{IsRaised, is_pending-select, run_raises, failure_raises}

module _ {S : Type 0} (Q : S → Type 0) where
  -- A call that returns leaves a state with Q.
  abbrev Yields : {A : Type 0} → Outcome S A → Type 0
  Yields (returned a s) = Q s
  Yields (raised e s) = Unit

  bind-Yields_at :
      {A B : Type 0} (m : Exec S A) (f : A → Exec S B) (s : S) (o : Outcome S A)
      → m s ≡ o
      → ((a : A) (s' : S) → m s ≡ returned a s' → Yields (f a s'))
      → Yields (elim o as (λ x. Outcome S B) [ returned a s ↦ f a s | raised e s ↦ raised e s ])
  bind-Yields_at m f s (returned a s') e h = h a s' e
  bind-Yields_at m f s (raised x s') e h = tt

  bind-Yields :
      {A B : Type 0} (m : Exec S A) (f : A → Exec S B) (s : S)
      → ((a : A) (s' : S) → m s ≡ returned a s' → Yields (f a s'))
      → Yields ((m >>= f) s)
  bind-Yields m f s h = bind-Yields_at m f s (m s) refl h

  raised-Yields : {A : Type 0} (o : Outcome S A) → IsRaised o → Yields o
  raised-Yields (returned a s) h = elim h [ ]
  raised-Yields (raised e s) h = tt

  kept-Yields : {A : Type 0} (o : Outcome S A) → Q (state_of o) → Yields o
  kept-Yields (returned a s) h = h
  kept-Yields (raised e s) h = tt

  try-Yields :
      (o : Outcome S (Unit {0})) (f : Error → Exec S (Unit {0}))
      → Yields o
      → ((e : Error) (s : S) → IsRaised (f e s))
      → Yields (elim o as (λ x. Outcome S (Unit {0})) [
        | returned a s ↦ returned a s
        | raised e s ↦ f e s
      ])
  try-Yields (returned a s) f h k = h
  try-Yields (raised e s) f h k = raised-Yields (f e s) (k e s)

  finally-Yields :
      (o : Outcome S (Unit {0})) (f : Exec S (Unit {0}))
      → Yields o
      → Keeps Q f
      → Yields (elim o as (λ x. Outcome S (Unit {0})) [
        | returned a s ↦ f s
        | raised e s ↦ (f >> throw e) s
      ])
  finally-Yields (returned a s) f h k = kept-Yields (f s) (k s h)
  finally-Yields (raised e s) f h k = bind-Yields f (λ u. throw e) s (λ u s' p. tt)

module _ {S : Type 0} (mongo : Mongo S) (records before : S → String → Option MigrationStatus)
    (laws : MigrationLaws mongo records before) where
  abbrev pub Applied : String → S → Type 0
  Applied n s = records s n ≡ some applied

  migrate-Yields : (f : String) (s : S) → Yields (Applied f) (migrate mongo f to_up s)
  unfolding migrate
  migrate-Yields f s =
      bind-Yields (Applied f) (mongo.load f to_up)
        (λ run. run_function mongo f to_up run >> (mongo.create f >> mongo.commit_transaction)) s
        (λ run s1 loaded.
          bind-Yields (Applied f) (run_function mongo f to_up run)
            (λ u. mongo.create f >> mongo.commit_transaction) s1
            (λ u s2 ran.
              bind-Yields (Applied f) (mongo.create f) (λ v. mongo.commit_transaction) s2
                (λ v s3 made.
                  kept-Yields (Applied f) (mongo.commit_transaction s3)
                    ((laws.commit_same s3 f).0 ∙ laws.create_applied f s2 s3 made))))

  run-Yields : (f : String) (s : S) → Yields (Applied f) (run_migration mongo f to_up s)
  unfolding run_migration
  run-Yields f s =
      bind-Yields (Applied f) mongo.start_transaction
        (λ u. finally (try_catch (migrate mongo f to_up) (note_failure mongo f)) mongo.end_session)
        s
        (λ u s' began.
          finally-Yields (Applied f) _ mongo.end_session
            (try-Yields (Applied f) (migrate mongo f to_up s') (note_failure mongo f)
              (migrate-Yields f s') (failure_raises mongo records before laws f applied))
            (λ t h. (laws.end_same t f).0 ∙ h))

  -- An applied migration stays applied: it is not run again.
  stays : (n f : String) (s : S) → Applied n s → Yields (Applied n) (run_migration mongo f to_up s)
  stays n f s h = elim (Bool-cases (str_eq f n)) [
    | inr other ↦
        kept-Yields (Applied n) (run_migration mongo f to_up s)
          (run_migration-Has mongo records before laws n applied f (inl other) s h)
    | inl same ↦ raised-Yields (Applied n) (run_migration mongo f to_up s) (
        subst⁻¹ (λ x. IsRaised (run_migration mongo x to_up s)) ((eq_iff f n).0 same)
          (run_raises mongo records before laws n applied s h))
  ]

  each_stays :
      (n : String) (files : List String) (s : S)
      → Applied n s
      → Yields (Applied n) (each (λ f. run_migration mongo f to_up) files s)
  each_stays n [] s h = h
  each_stays n (f ∷ files) s h =
      bind-Yields (Applied n) (run_migration mongo f to_up)
        (λ u. each (λ f. run_migration mongo f to_up) files) s
        (λ u s' ran. each_stays n files s' (subst (λ o. Yields (Applied n) o) ran (stays n f s h)))

  each-Yields :
      (n : String) (files : List String) (s : S)
      → any (str_eq n) files ≡ true
      → Yields (Applied n) (each (λ f. run_migration mongo f to_up) files s)
  each-Yields n [] s k = ground arith
  each-Yields n (f ∷ files) s k = elim (Bool-cases (str_eq n f)) [
    | inl same ↦
        bind-Yields (Applied n) (run_migration mongo f to_up)
          (λ u. each (λ f. run_migration mongo f to_up) files) s
          (λ u s' ran. each_stays n files s' (
            subst (λ o. Yields (Applied n) o) ran
              (subst (λ x. Yields (Applied n) (run_migration mongo x to_up s)) ((eq_iff n f).0 same)
                (run-Yields n s))))
    | inr other ↦
        bind-Yields (Applied n) (run_migration mongo f to_up)
          (λ u. each (λ f. run_migration mongo f to_up) files) s
          (λ u s' ran. each-Yields n files s' (rw other at k))
  ]

  unfoldable run_all : List String → List String → Exec S (Unit {0})
  run_all files names = each (λ f. run_migration mongo f to_up) (select (is_pending names) files)

  found-Yields :
      (n : String) (files names : List String) (s s' : S)
      → any (str_eq n) files ≡ true
      → mongo.find_applied s ≡ returned names s'
      → Yields (Applied n) (run_all files names s')
  unfolding run_all
  found-Yields n files names s s' here found = elim (Bool-cases (any (str_eq n) names)) [
    | inl done ↦ each_stays n (select (is_pending names) files) s' (
        subst (λ o. Applied n (state_of o)) found
          ((laws.find_same s n).0 ∙ (laws.find_applied_iff s s' names n found).0 done))
    | inr new ↦
        each-Yields n (select (is_pending names) files) s'
          (is_pending-select n names files new here)
  ]

  up-Yields :
      (n : String) (files : List String) (s s1 : S)
      → get_migration_files mongo s ≡ returned files s1
      → any (str_eq n) files ≡ true
      → Yields (Applied n) (up mongo s)
  unfolding up run_all
  up-Yields n files s s1 listed here =
      bind-Yields (Applied n) (get_migration_files mongo) (λ fs. mongo.find_applied >>= run_all fs)
        s
        (λ fs s2 got. bind-Yields (Applied n) mongo.find_applied (run_all fs) s2 (λ names s3 found.
          let same : files ≡ fs = cc in
          found-Yields n fs names s2 s3 (subst (λ l. any (str_eq n) l ≡ true) same here) found))

  -- Where sessions are transactions, names are unique in the collection and the migrations leave
  -- the collection alone: a call of up that returns leaves every migration of its list applied.
  pub up-applied :
      (n : String) (files : List String) (s s1 s' : S)
      → get_migration_files mongo s ≡ returned files s1
      → any (str_eq n) files ≡ true
      → up mongo s ≡ returned tt s'
      → records s' n ≡ some applied
  up-applied n files s s1 s' listed here ran =
      subst (λ o. Yields (Applied n) o) ran (up-Yields n files s s1 listed here)
