-- ===== src/Database/Migrations/Records.antt =====
-- What the migration runner relies on of MongoDB, and what each of its steps keeps.
use mathlib.Core.Path.{subst, subst⁻¹}
use mern_auth.Prelude.{
  ◌≡◌, refl, ◌↔◌, String, true, false, Option, none, some, List, [], ◌∷◌, any, str_eq, ◌∙◌,
  Bool-cases, inl, inr, ◌⊎◌, eq_iff,
}
use mern_auth.Errors.{Error, duplicate_key, message}
use mern_auth.Exec.{Exec, Outcome, returned, raised, state_of, try_catch, ◌>>=◌, ◌>>◌, throw}
use mern_auth.Database.Migrations.{
  Mongo, Direction, to_up, to_down, MigrationStatus, applied, failed, finally, run_function,
  update_status, migrate, note_failure, run_migration,
}

-- `records` is the status that the collection has for a name, `before` what it had when the running
-- transaction started.
module _ {S : Type 0} (mongo : Mongo S) (records before : S → String → Option MigrationStatus) where
  -- Neither the collection nor the transaction's start is changed.
  abbrev pub Same : {A : Type 0} → Outcome S A → S → Type 0
  Same o s =
      (n : String) → (records (state_of o) n ≡ records s n) × (before (state_of o) n ≡ before s n)

  -- Sessions are transactions, names are unique in the collection, and the migrations themselves
  -- leave the collection alone.
  pub record MigrationLaws : Type 0 where
    pub readdir_same : (s : S) → Same (mongo.readdir s) s
    pub load_same : (f : String) (d : Direction) (s : S) → Same (mongo.load f d s) s
    pub run_same :
        (f : String) (d : Direction) (run : Exec S (Unit {0})) (s s' : S)
        → mongo.load f d s ≡ returned (some run) s'
        → (t : S) → Same (run t) t
    pub find_same : (s : S) → Same (mongo.find_applied s) s
    pub find_last_same : (s : S) → Same (mongo.find_last_applied s) s
    pub start_records :
        (s : S) (n : String) → records (state_of (mongo.start_transaction s)) n ≡ records s n
    pub start_before :
        (s s' : S) (n : String)
        → mongo.start_transaction s ≡ returned tt s'
        → before s' n ≡ records s n
    pub commit_same : (s : S) → Same (mongo.commit_transaction s) s
    pub end_same : (s : S) → Same (mongo.end_session s) s
    pub abort_records :
        (s : S) (n : String) → records (state_of (mongo.abort_transaction s)) n ≡ before s n
    pub abort_before :
        (s : S) (n : String) → before (state_of (mongo.abort_transaction s)) n ≡ before s n
    pub create_other :
        (f n : String) (s : S)
        → str_eq f n ≡ false
        → records (state_of (mongo.create f s)) n ≡ records s n
    pub create_before : (f n : String) (s : S) → before (state_of (mongo.create f s)) n ≡ before s n
    pub create_taken :
        (f : String) (st : MigrationStatus) (s : S)
        → records s f ≡ some st
        → (s' : S) × (mongo.create f s ≡ raised (duplicate_key ("name" ∷ [])) s')
          × (records s' f ≡ some st)
    pub create_applied :
        (f : String) (s s' : S) → mongo.create f s ≡ returned tt s' → records s' f ≡ some applied
    pub delete_other :
        (f n : String) (s : S)
        → str_eq f n ≡ false
        → records (state_of (mongo.delete_one f s)) n ≡ records s n
    pub delete_before :
        (f n : String) (s : S) → before (state_of (mongo.delete_one f s)) n ≡ before s n
    pub upsert_other :
        (f n m : String) (s : S)
        → str_eq f n ≡ false
        → records (state_of (mongo.upsert_failed f m s)) n ≡ records s n
    pub upsert_before :
        (f n m : String) (s : S) → before (state_of (mongo.upsert_failed f m s)) n ≡ before s n
    pub upsert_done :
        (f m : String) (s s' : S)
        → mongo.upsert_failed f m s ≡ returned tt s'
        → records s' f ≡ some failed
    pub upsert_not_done :
        (f m : String) (e : Error) (s s' : S)
        → mongo.upsert_failed f m s ≡ raised e s'
        → records s' f ≡ records s f
    pub find_applied_iff :
        (s s' : S) (names : List String) (n : String)
        → mongo.find_applied s ≡ returned names s'
        → (any (str_eq n) names ≡ true) ↔ (records s n ≡ some applied)

-- The call leaves a state with P, however it ends.
abbrev pub Keeps : {S A : Type 0} → (S → Type 0) → Exec S A → Type 0
Keeps {S = S} P m = (s : S) → P s → P (state_of (m s))

-- How the forms of control keep what their parts keep.
module _ {S : Type 0} (P : S → Type 0) where
  bind_kept :
      {A B : Type 0} (o : Outcome S A) (f : A → Exec S B)
      → P (state_of o)
      → ((a : A) → Keeps P (f a))
      → P (
          state_of
            (elim o as (λ x. Outcome S B) [ returned a s ↦ f a s | raised e s ↦ raised e s ]))
  bind_kept (returned a s) f p h = h a s p
  bind_kept (raised e s) f p h = p

  pub Keeps-bind :
      {A B : Type 0} (m : Exec S A) (f : A → Exec S B)
      → Keeps P m
      → ((a : A) → Keeps P (f a))
      → Keeps P (m >>= f)
  Keeps-bind m f h k s p = bind_kept (m s) f (h s p) k

  bound_kept_at :
      {A B : Type 0} (m : Exec S A) (f : A → Exec S B) (s : S) (o : Outcome S A)
      → m s ≡ o
      → P (state_of o)
      → ((a : A) (s' : S) → m s ≡ returned a s' → P s' → P (state_of (f a s')))
      → P (
          state_of
            (elim o as (λ x. Outcome S B) [ returned a s ↦ f a s | raised e s ↦ raised e s ]))
  bound_kept_at m f s (returned a s') e p h = h a s' e p
  bound_kept_at m f s (raised x s') e p h = p

  -- As Keeps-bind, where what follows may use how the first call ended.
  pub bound_kept :
      {A B : Type 0} (m : Exec S A) (f : A → Exec S B) (s : S)
      → P (state_of (m s))
      → ((a : A) (s' : S) → m s ≡ returned a s' → P s' → P (state_of (f a s')))
      → P (state_of ((m >>= f) s))
  bound_kept m f s p h = bound_kept_at m f s (m s) refl p h

  try_kept :
      (o : Outcome S (Unit {0})) (f : Error → Exec S (Unit {0}))
      → P (state_of o)
      → ((e : Error) → Keeps P (f e))
      → P (
          state_of (elim o as (λ x. Outcome S (Unit {0})) [
            | returned a s ↦ returned a s
            | raised e s ↦ f e s
          ]))
  try_kept (returned a s) f p h = p
  try_kept (raised e s) f p h = h e s p

  pub Keeps-try_catch :
      (m : Exec S (Unit {0})) (f : Error → Exec S (Unit {0}))
      → Keeps P m
      → ((e : Error) → Keeps P (f e))
      → Keeps P (try_catch m f)
  Keeps-try_catch m f h k s p = try_kept (m s) f (h s p) k

  finally_kept :
      (o : Outcome S (Unit {0})) (f : Exec S (Unit {0}))
      → P (state_of o)
      → Keeps P f
      → P (
          state_of (elim o as (λ x. Outcome S (Unit {0})) [
            | returned a s ↦ f s
            | raised e s ↦ (f >> throw e) s
          ]))
  finally_kept (returned a s) f p h = h s p
  finally_kept (raised e s) f p h = Keeps-bind f (λ u. throw e) h (λ u s' p'. p') s p

  pub Keeps-finally : (m f : Exec S (Unit {0})) → Keeps P m → Keeps P f → Keeps P (finally m f)
  Keeps-finally m f h k s p = finally_kept (m s) f (h s p) k

module _ {S : Type 0} (mongo : Mongo S) (records before : S → String → Option MigrationStatus)
    (laws : MigrationLaws mongo records before) (n : String) (st : MigrationStatus) where
  -- The status of n, and that it had it when the transaction started.
  abbrev pub Holds : S → Type 0
  Holds s = (records s n ≡ some st) × (before s n ≡ some st)

  pub held :
      {A : Type 0} (m : Exec S A) → ((s : S) → Same mongo records before (m s) s) → Keeps Holds m
  held m same s (now, then_) = ((same s n).0 ∙ now, (same s n).1 ∙ then_)

  pub function_held :
      (f : String) (d : Direction) (run : Option (Exec S (Unit {0}))) (s s' : S)
      → mongo.load f d s ≡ returned run s'
      → Keeps Holds (run_function mongo f d run)
  function_held f d none s s' loaded t h = h
  function_held f d (some run) s s' loaded t h = elim (Bool-cases (mongo.has_db t)) [
    | inl there ↦ rw there (held run (laws.run_same f d run s s' loaded) t h)
    | inr gone ↦ rw gone h
  ]

  update_held :
      (f : String) (d : Direction) → str_eq f n ≡ false → Keeps Holds (update_status mongo f d)
  update_held f to_up other s (now, then_) =
      (laws.create_other f n s other ∙ now, laws.create_before f n s ∙ then_)
  update_held f to_down other s (now, then_) =
      (laws.delete_other f n s other ∙ now, laws.delete_before f n s ∙ then_)

  create_held : (f : String) → Keeps Holds (mongo.create f)
  create_held f s (now, then_) = elim (Bool-cases (str_eq f n)) [
    | inr other ↦ update_held f to_up other s (now, then_)
    | inl same ↦
        let here = subst⁻¹ (λ x. records s x ≡ some st) ((eq_iff f n).0 same) now in
        let (s', taken, kept) = laws.create_taken f st s here in
        let left : records (state_of (mongo.create f s)) f ≡ some st = rw taken kept in
        (
          subst (λ x. records (state_of (mongo.create f s)) x ≡ some st) ((eq_iff f n).0 same) left,
          laws.create_before f n s ∙ then_,
        )
  ]

  loaded_held :
      (f : String) (run : Option (Exec S (Unit {0}))) (s s' : S)
      → mongo.load f to_up s ≡ returned run s'
      → Keeps Holds (run_function mongo f to_up run >> (mongo.create f >> mongo.commit_transaction))
  loaded_held f run s s' loaded =
      Keeps-bind Holds (run_function mongo f to_up run)
        (λ u. mongo.create f >> mongo.commit_transaction) (function_held f to_up run s s' loaded)
        (λ u.
          Keeps-bind Holds (mongo.create f) (λ v. mongo.commit_transaction) (create_held f)
            (λ v. held mongo.commit_transaction laws.commit_same))

  -- A migration that is run upwards keeps a status that another run gave, in its try block.
  pub migrate_held : (f : String) → Keeps Holds (migrate mongo f to_up)
  unfolding migrate
  migrate_held f s h =
      bound_kept Holds (mongo.load f to_up)
        (λ run. run_function mongo f to_up run >> (mongo.create f >> mongo.commit_transaction)) s
        (held (mongo.load f to_up) (laws.load_same f to_up) s h)
        (λ run s' loaded. loaded_held f run s s' loaded s')

  abort_held : Keeps Holds mongo.abort_transaction
  abort_held s (now, then_) = (laws.abort_records s n ∙ then_, laws.abort_before s n ∙ then_)

  -- The failure of another migration, or of this one where it has failed already.
  abbrev pub MayFail : String → Type 0
  MayFail f = (str_eq f n ≡ false) ⊎ (st ≡ failed)

  upserted :
      (f m : String) (s : S) (o : Outcome S (Unit {0}))
      → mongo.upsert_failed f m s ≡ o
      → records s f ≡ some failed
      → records (state_of o) f ≡ some failed
  upserted f m s (returned u s') p h = laws.upsert_done f m s s' p
  upserted f m s (raised e s') p h = laws.upsert_not_done f m e s s' p ∙ h

  upsert_held : (f m : String) → MayFail f → Keeps Holds (mongo.upsert_failed f m)
  upsert_held f m (inl other) s (now, then_) =
      (laws.upsert_other f n m s other ∙ now, laws.upsert_before f n m s ∙ then_)
  upsert_held f m (inr was) s (now, then_) = elim (Bool-cases (str_eq f n)) [
    | inr other ↦ (laws.upsert_other f n m s other ∙ now, laws.upsert_before f n m s ∙ then_)
    | inl same ↦
        let here =
          subst⁻¹ (λ x. records s x ≡ some failed) ((eq_iff f n).0 same)
            (subst (λ x. records s n ≡ some x) was now) in
        let left = upserted f m s (mongo.upsert_failed f m s) refl here in
        (
          subst (λ x. records (state_of (mongo.upsert_failed f m s)) x ≡ some st)
              ((eq_iff f n).0 same)
              (subst⁻¹ (λ x. records (state_of (mongo.upsert_failed f m s)) f ≡ some x) was left),
          laws.upsert_before f n m s ∙ then_,
        )
  ]

  record_held : (f : String) (e : Error) → MayFail f → Keeps Holds (note_failure mongo f e)
  unfolding note_failure
  record_held f e may =
      Keeps-bind Holds mongo.abort_transaction (λ u. mongo.upsert_failed f (message e) >> throw e)
        abort_held
        (λ u.
          Keeps-bind Holds (mongo.upsert_failed f (message e)) (λ v. throw e)
            (upsert_held f (message e) may) (λ v s h. h))

  abbrev pub Has : S → Type 0
  Has s = records s n ≡ some st

  attempt_held :
      (f : String)
      → MayFail f
      → Keeps Holds
          (finally (try_catch (migrate mongo f to_up) (note_failure mongo f)) mongo.end_session)
  attempt_held f may =
      Keeps-finally Holds (try_catch (migrate mongo f to_up) (note_failure mongo f))
        mongo.end_session
        (Keeps-try_catch Holds (migrate mongo f to_up) (note_failure mongo f) (migrate_held f)
          (λ e. record_held f e may))
        (held mongo.end_session laws.end_same)

  -- A migration run upwards keeps the status of another one, and the status failed.
  pub run_migration-Has : (f : String) → MayFail f → Keeps Has (run_migration mongo f to_up)
  unfolding run_migration
  run_migration-Has f may s h =
      bound_kept Has mongo.start_transaction
        (λ u. finally (try_catch (migrate mongo f to_up) (note_failure mongo f)) mongo.end_session)
        s (laws.start_records s n ∙ h)
        (λ u s' began was. (attempt_held f may s' (was, laws.start_before s s' n began ∙ h)).0)
