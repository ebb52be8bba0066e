-- ===== src/Database/Migrations/Memory.antt =====
-- A collection of migrations in memory, with transactions, that has the laws.
use mathlib.Core.Path.{subst}
use mathlib.Core.Bool.{true≢false}
use mern_auth.Prelude.{
  sym, ◌∙◌, ap, ◌≡◌, refl, ◌↔◌, String, true, false, not, Option, none, some, List, [], ◌∷◌, any,
  select, str_eq, if◌then◌else◌, Bool-cases, inl, inr, eq_iff, arith,
}
use mern_auth.Errors.{duplicate_key}
use mern_auth.Exec.{Exec, Outcome, returned, raised, state_of}
use mern_auth.Database.Migrations.{Mongo, Direction, MigrationStatus, applied, failed}
use mern_auth.Database.Migrations.Records.{MigrationLaws}

-- The names with each status, now and when the transaction started.
pub record Names : Type 0 where
  pub applied_names : List String
  pub failed_names : List String

pub record Db : Type 0 where
  pub names : Names
  pub at_start : Names

abbrev status_in : Names → String → Option MigrationStatus
status_in ns n =
    if any (str_eq n) ns.applied_names
    then some applied
    else if any (str_eq n) ns.failed_names
    then some failed
    else none

abbrev pub records : Db → String → Option MigrationStatus
records s n = status_in s.names n

abbrev pub before : Db → String → Option MigrationStatus
before s n = status_in s.at_start n

abbrev without : String → List String → List String
without f xs = select (λ x. not (str_eq f x)) xs

abbrev insert_new : String → Db → Option MigrationStatus → Outcome Db (Unit {0})
insert_new f s (some st) = raised (duplicate_key ("name" ∷ [])) s
insert_new f s none =
    returned tt (record s { names = record s.names { applied_names = f ∷ s.names.applied_names } })

abbrev first : List String → Option String
first [] = none
first (x ∷ xs) = some x

-- Its migrations are the functions given; with those, it is a Mongo.
unfoldable pub memory_mongo :
    List String → (String → Direction → Option (Exec Db (Unit {0}))) → Mongo Db
memory_mongo files functions = record {
  readdir = λ s. returned files s;
  load = λ f d s. returned (functions f d) s;
  has_db = λ s. true;
  start_transaction = λ s. returned tt (record s { at_start = s.names });
  commit_transaction = λ s. returned tt s;
  abort_transaction = λ s. returned tt (record s { names = s.at_start });
  end_session = λ s. returned tt s;
  find_applied = λ s. returned s.names.applied_names s;
  find_last_applied = λ s. returned (first s.names.applied_names) s;
  create = λ f s. insert_new f s (records s f);
  delete_one = λ f s. returned tt (record s {
    names = record {
      applied_names = without f s.names.applied_names;
      failed_names = without f s.names.failed_names;
    };
  });
  upsert_failed = λ f m s. returned tt (record s {
    names = record {
      applied_names = without f s.names.applied_names;
      failed_names = f ∷ without f s.names.failed_names;
    };
  });
}

eq_sym : (f n : String) → str_eq f n ≡ false → str_eq n f ≡ false
eq_sym f n h = elim (Bool-cases (str_eq n f)) [
  | inr other ↦ other
  | inl same ↦ elim (true≢false (sym ((eq_iff f n).1 (sym ((eq_iff n f).0 same))) ∙ h)) [ ]
]

any-without :
    (f n : String) (xs : List String)
    → str_eq f n ≡ false
    → any (str_eq n) (without f xs) ≡ any (str_eq n) xs
any-without f n [] h = refl
any-without f n (x ∷ xs) h = elim (Bool-cases (str_eq f x)) [
  | inl same ↦
      let differs = subst (λ y. str_eq n y ≡ false) ((eq_iff f x).0 same) (eq_sym f n h) in
      rw (select, same, any-without f n xs h, differs)
  | inr other ↦ rw (select, other, any-without f n xs h)
]

none-without : (f : String) (xs : List String) → any (str_eq f) (without f xs) ≡ false
none-without f [] = refl
none-without f (x ∷ xs) = elim (Bool-cases (str_eq f x)) [
  | inl same ↦ rw (select, same, none-without f xs)
  | inr other ↦ rw (select, other, none-without f xs, other)
]

eq_self : (f : String) → str_eq f f ≡ true
eq_self f = (eq_iff f f).1 refl

insert_other :
    (f n : String) (s : Db) (o : Option MigrationStatus)
    → str_eq f n ≡ false
    → records (state_of (insert_new f s o)) n ≡ records s n
insert_other f n s (some st) other = refl
insert_other f n s none other = rw (any, eq_sym f n other)

insert_before :
    (f n : String) (s : Db) (o : Option MigrationStatus)
    → before (state_of (insert_new f s o)) n ≡ before s n
insert_before f n s (some st) = refl
insert_before f n s none = refl

insert_made :
    (f : String) (s s' : Db) (o : Option MigrationStatus)
    → insert_new f s o ≡ returned tt s'
    → records s' f ≡ some applied
insert_made f s s' (some st) made = ground arith
insert_made f s s' none made = sym (ap (λ o. records (state_of o) f) made) ∙ rw (any, eq_self f)

status_applied_iff :
    (ns : Names) (n : String)
    → (any (str_eq n) ns.applied_names ≡ true) ↔ (status_in ns n ≡ some applied)
status_applied_iff ns n = ground arith

abbrev value_of : Outcome Db (List String) → List String
value_of (returned names s) = names
value_of (raised e s) = []

module _ (files : List String) (functions : String → Direction → Option (Exec Db (Unit {0}))) where
  -- The functions leave the names alone.
  abbrev pub Tame : Type 0
  Tame =
      (f : String) (d : Direction) (run : Exec Db (Unit {0}))
      → functions f d ≡ some run
      → (t : Db) → (state_of (run t)).names ≡ t.names × (state_of (run t)).at_start ≡ t.at_start

  pub memory_mongo-laws : Tame → MigrationLaws (memory_mongo files functions) records before
  unfolding memory_mongo
  memory_mongo-laws tame = record {
    readdir_same = λ s n. (refl, refl);
    load_same = λ f d s n. (refl, refl);
    run_same = λ f d run s s' loaded t n.
        let given : functions f d ≡ some run = cc in
        (
          ap (λ ns. status_in ns n) (tame f d run given t).0,
          ap (λ ns. status_in ns n) (tame f d run given t).1,
        );
    find_same = λ s n. (refl, refl);
    find_last_same = λ s n. (refl, refl);
    start_records = λ s n. refl;
    start_before = λ s s' n began. sym (ap (λ o. before (state_of o) n) began);
    commit_same = λ s n. (refl, refl);
    end_same = λ s n. (refl, refl);
    abort_records = λ s n. refl;
    abort_before = λ s n. refl;
    create_other = λ f n s other. insert_other f n s (records s f) other;
    create_before = λ f n s. insert_before f n s (records s f);
    create_taken = λ f st s has. (s, ap (insert_new f s) has, has);
    create_applied = λ f s s' made. insert_made f s s' (records s f) made;
    delete_other = λ f n s other.
        rw
          (any-without f n s.names.applied_names other, any-without f n s.names.failed_names other);
    delete_before = λ f n s. refl;
    upsert_other = λ f n m s other. rw (
      any-without f n s.names.applied_names other,
      any,
      eq_sym f n other,
      any-without f n s.names.failed_names other,
    );
    upsert_before = λ f n m s. refl;
    upsert_done = λ f m s s' done.
        sym (ap (λ o. records (state_of o) f) done)
        ∙ rw (none-without f s.names.applied_names, any, eq_self f);
    upsert_not_done = λ f m e s s' undone. cc;
    find_applied_iff = λ s s' names n found.
        subst (λ xs. (any (str_eq n) xs ≡ true) ↔ (records s n ≡ some applied)) (ap value_of found)
          (status_applied_iff s.names n);
  }
