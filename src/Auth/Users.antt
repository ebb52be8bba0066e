-- ===== src/Auth/Users.antt =====
-- What the user collection documents of the calls that the services make: documents by id, a
-- unique index on normalizedEmail, transactions that roll back.
use mern_auth.Prelude.{
  ◌≡◌, Bool, true, false, ◌||◌, Option, none, some, [], ◌∷◌, if◌then◌else◌, List,
}
use mern_auth.Errors.{Error, PathError, mongoose_validation, duplicate_key}
use mern_auth.Text.{Text, text_eq, trim, to_lower_case}
use mern_auth.Exec.{Exec, returned, raised}
use mern_auth.Auth.{User, UserData, UserModel}

pub record IsUserStore {D : Type 0} (users : UserModel D) : Type 0 where
  -- the document with an id, and whether a normal address is in the index
  pub find : D → Text → Option User
  pub taken : D → Text → Bool
  -- whether the schema accepts the data
  pub valid : UserData → Bool
  pub problems : UserData → List PathError
  -- the document that an insertion makes, and the collection with it
  pub made : UserData → D → User
  pub insert : UserData → D → D
  pub put : User → D → D
  pub start_session_lem : (d : D) → users.start_session d ≡ returned tt d
  pub find_by_id_lem : (id : Text) (d : D) → users.find_by_id (some id) d ≡ returned (find d id) d
  pub find_by_id_undefined : (d : D) → users.find_by_id none d ≡ returned none d
  pub save_lem :
      (u old : User) (d : D) → find d u.id ≡ some old → users.save u d ≡ returned tt (put u d)
  pub create_lem :
      (x : UserData) (d : D)
      → valid x ≡ true
      → taken d x.normalized_email ≡ false
      → users.create x d ≡ returned (some (made x d)) (insert x d)
  pub create_invalid :
      (x : UserData) (d : D)
      → valid x ≡ false
      → users.create x d ≡ raised (mongoose_validation (problems x)) d
  pub create_taken :
      (x : UserData) (d : D)
      → valid x ≡ true
      → taken d x.normalized_email ≡ true
      → users.create x d ≡ raised (duplicate_key ("normalizedEmail" ∷ [])) d
  pub transaction_commits :
      (m : Exec D User) (u : User) (d d' : D)
      → m d ≡ returned u d'
      → users.with_transaction m d ≡ returned u d'
  pub transaction_aborts :
      (m : Exec D User) (e : Error) (d d' : D)
      → m d ≡ raised e d'
      → users.with_transaction m d ≡ raised e d
  pub find_id : (d : D) (id : Text) (u : User) → find d id ≡ some u → u.id ≡ id
  pub made_unverified : (x : UserData) (d : D) → (made x d).is_verified ≡ false
  pub made_new : (x : UserData) (d : D) → find d (made x d).id ≡ none
  pub find-insert :
      (x : UserData) (d : D) (j : Text)
      → find (insert x d) j ≡ (if text_eq (made x d).id j then some (made x d) else find d j)
  pub find-put :
      (u : User) (d : D) (j : Text)
      → find (put u d) j ≡ (if text_eq u.id j then some u else find d j)
  -- the schema trims and lowers the address that it indexes
  pub taken-insert :
      (x : UserData) (d : D) (j : Text)
      → to_lower_case (trim x.normalized_email) ≡ x.normalized_email
      → taken (insert x d) j ≡ (text_eq x.normalized_email j || taken d j)
  pub taken-put :
      (u old : User) (d : D) (j : Text)
      → find d u.id ≡ some old
      → old.normalized_email ≡ u.normalized_email
      → taken (put u d) j ≡ taken d j
