-- ===== src/Auth/Memory.antt =====
-- A user collection, a queue and a host in memory, at which the laws hold.
use mern_auth.Prelude.{
  zero, suc, ◌<◌, ◌≤◌, ◌≡◌, refl, ap, Bool, true, false, ◌||◌, Option, none, some, List, [], ◌∷◌,
  ◌++◌, map, arith, if◌then◌else◌, length, length-append,
}
use mern_auth.Errors.{mongoose_validation, Error, duplicate_key}
use mern_auth.Text.{Text, text_eq}
use mern_auth.Text.Laws.{text_eq_iff}
use mern_auth.Exec.{Exec, Outcome, returned, raised}
use mern_auth.Auth.{
  User, UserData, UserModel, VerificationJob, QueueProducer, Host, HostLaws, TokenData,
}
use mern_auth.Auth.Users.{IsUserStore}

abbrev pub Users : Type 0
Users = List User

unfoldable pub find_user : Users → Text → Option User
find_user [] id = none
find_user (u ∷ us) id = if text_eq u.id id then some u else find_user us id

unfoldable pub is_taken : Users → Text → Bool
is_taken [] e = false
is_taken (u ∷ us) e = text_eq u.normalized_email e || is_taken us e

-- An id that is longer than any other.
unfoldable pub all_ids : Users → Text
all_ids [] = 0 ∷ []
all_ids (u ∷ us) = u.id ++ all_ids us

unfoldable pub make_user : UserData → Users → User
make_user x us = record {
  id = all_ids us;
  name = x.name;
  email = x.email;
  normalized_email = x.normalized_email;
  password = x.password;
  is_verified = false;
}

-- Replaces the first document with the user's id.
unfoldable pub replace : User → Users → Users
replace u [] = u ∷ []
replace u (v ∷ us) = if text_eq v.id u.id then u ∷ us else v ∷ replace u us

unfoldable pub create_in : UserData → Exec Users (Option User)
unfolding is_taken make_user all_ids
create_in x us =
    if is_taken us x.normalized_email
    then raised (duplicate_key ("normalizedEmail" ∷ [])) us
    else returned (some (make_user x us)) (make_user x us ∷ us)

-- A transaction that fails leaves the documents as they were.
abbrev pub rolled_back : Users → Outcome Users User → Outcome Users User
rolled_back us (returned u us') = returned u us'
rolled_back us (raised e us') = raised e us

abbrev pub find_by : Option Text → Users → Option User
find_by none us = none
find_by (some id) us = find_user us id

abbrev pub memory_users : UserModel Users
memory_users = record {
  start_session = λ us. returned tt us;
  create = create_in;
  with_transaction = λ m us. rolled_back us (m us);
  find_by_id = λ id us. returned (find_by id us) us;
  save = λ u us. returned tt (replace u us);
}

pub all_ids-pos : (us : Users) → 0 < length (all_ids us)
unfolding all_ids
all_ids-pos [] = omega arith
all_ids-pos (u ∷ us) = omega (arith, length-append {0} u.id (all_ids us), all_ids-pos us)

pub too_long : (us : Users) (id : Text) → length (all_ids us) ≤ length id → find_user us id ≡ none
unfolding find_user all_ids
too_long [] id h = refl
too_long (u ∷ us) id h =
    ground
      (arith, length-append u.id (all_ids us), all_ids-pos us, too_long us id, text_eq_iff u.id id)

pub find-replace :
    (u : User) (us : Users) (j : Text)
    → find_user (replace u us) j ≡ (if text_eq u.id j then some u else find_user us j)
unfolding find_user replace
find-replace u [] j = refl
find-replace u (v ∷ us) j =
    ground
      (arith, find-replace u us j, text_eq_iff v.id u.id, text_eq_iff v.id j, text_eq_iff u.id j)

pub taken-replace :
    (u old : User) (us : Users) (j : Text)
    → find_user us u.id ≡ some old
    → old.normalized_email ≡ u.normalized_email
    → is_taken (replace u us) j ≡ is_taken us j
unfolding find_user replace is_taken
taken-replace u old [] j h e = cc
taken-replace u old (v ∷ us) j h e = ground (arith, taken-replace u old us j)

pub find_user-id : (us : Users) (id : Text) (u : User) → find_user us id ≡ some u → u.id ≡ id
unfolding find_user
find_user-id [] id u h = cc
find_user-id (v ∷ us) id u h = ground (arith, find_user-id us id u, text_eq_iff v.id id)

pub commits :
    (m : Exec Users User) (u : User) (d d' : Users)
    → m d ≡ returned u d'
    → rolled_back d (m d) ≡ returned u d'
commits m u d d' h = ap (rolled_back d) h

pub aborts :
    (m : Exec Users User) (e : Error) (d d' : Users)
    → m d ≡ raised e d'
    → rolled_back d (m d) ≡ raised e d
aborts m e d d' h = ap (rolled_back d) h

pub create_free :
    (x : UserData) (us : Users)
    → is_taken us x.normalized_email ≡ false
    → create_in x us ≡ returned (some (make_user x us)) (make_user x us ∷ us)
unfolding create_in
create_free x us h = rw h

pub create_refused :
    (x : UserData) (us : Users)
    → is_taken us x.normalized_email ≡ true
    → create_in x us ≡ raised (duplicate_key ("normalizedEmail" ∷ [])) us
unfolding create_in
create_refused x us h = rw h

pub never_invalid :
    (x : UserData) (d : Users) → true ≡ false → create_in x d ≡ raised (mongoose_validation []) d
never_invalid x d h = cc

unfoldable pub memory_users-IsUserStore : IsUserStore memory_users
unfolding make_user create_in find_user is_taken replace
memory_users-IsUserStore = record {
  find = find_user;
  taken = is_taken;
  valid = λ x. true;
  problems = λ x. [];
  made = make_user;
  insert = λ x us. make_user x us ∷ us;
  put = replace;
  start_session_lem = λ d. refl;
  find_by_id_lem = λ id d. refl;
  find_by_id_undefined = λ d. refl;
  save_lem = λ u old d h. refl;
  create_lem = λ x d v t. create_free x d t;
  create_invalid = never_invalid;
  create_taken = λ x d v t. create_refused x d t;
  transaction_commits = commits;
  transaction_aborts = aborts;
  find_id = find_user-id;
  made_unverified = λ x d. refl;
  made_new = λ x d. too_long d (all_ids d) (omega arith);
  find-insert = λ x d j. refl;
  find-put = find-replace;
  taken-insert = λ x d j h. refl;
  taken-put = taken-replace;
}

-- A queue that keeps what it is given.
abbrev pub memory_queue : QueueProducer (List VerificationJob)
memory_queue = record { add_job = λ job_type job id q. returned (some id) (job ∷ q) }

-- A queue that refuses everything.
abbrev pub closed_queue : Error → QueueProducer (List VerificationJob)
closed_queue e = record { add_job = λ job_type job id q. raised e q }

-- A text in which the user's id ends at the first 0.
unfoldable pub until_zero : Text → Text
until_zero [] = []
until_zero (zero ∷ s) = []
until_zero (suc n ∷ s) = n ∷ until_zero s

until_zero-map : (id rest : Text) → until_zero (map suc id ++ 0 ∷ rest) ≡ id
unfolding until_zero
until_zero-map [] rest = refl
until_zero-map (c ∷ id) rest = ap (λ t. c ∷ t) (until_zero-map id rest)

abbrev pub memory_host : Host
memory_host = record {
  hash = λ t. 1 ∷ t;
  stringify = λ d. map suc d.user_id ++ 0 ∷ d.email;
  parse =
      λ t. some (some (record { user_id = some (until_zero t); type_name = some "verification" }));
}

pub memory_host-parse :
    (d : TokenData)
    → memory_host.parse (memory_host.stringify d)
      ≡ some (some (record { user_id = some d.user_id; type_name = some "verification" }))
memory_host-parse d =
    ground (arith, until_zero-map d.user_id (0 ∷ d.email), until_zero-map d.user_id d.email)

abbrev pub memory_host-HostLaws : HostLaws memory_host
memory_host-HostLaws = record {
  parse-stringify = memory_host-parse;
  hash-ne-nil = λ t. (1, t, refl);
}
