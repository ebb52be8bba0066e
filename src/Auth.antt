-- ===== src/Auth.antt =====
-- What the authentication services of packages/core share: users and their model, the queue, the
-- configuration, and the state that a request works on.
pub mod Keys
pub mod Users
pub mod Token
pub mod Verification
pub mod Registration
pub mod Flow
pub mod Degraded
pub mod Memory
use mern_auth.Prelude.{ℕ, ◌≡◌, String, Bool, true, false, Option, none, some, ◌∷◌}
use mern_auth.Errors.{Error}
use mern_auth.Text.{Text, text_eq}
use mern_auth.Cache.{CacheService}
use mern_auth.Exec.{Exec, Outcome, returned, raised, embed}

-- UserDocument of packages/database/src/models/user.model.ts, as far as the services read it.
pub record User : Type 0 where
  pub id : Text
  pub name : String
  pub email : Text
  pub normalized_email : Text
  pub password : String
  pub is_verified : Bool

-- The userData that registration inserts.
pub record UserData : Type 0 where
  pub name : String
  pub email : Text
  pub normalized_email : Text
  pub password : String

-- The mongoose model: findById of what may be undefined; `create` inside a session, with the first
-- of the created documents; `with_transaction` runs a callback inside session.withTransaction.
pub record UserModel (D : Type 0) : Type 0 where
  pub start_session : Exec D (Unit {0})
  pub create : UserData → Exec D (Option User)
  pub with_transaction : Exec D User → Exec D User
  pub find_by_id : Option Text → Exec D (Option User)
  pub save : User → Exec D (Unit {0})

-- What a verification email job carries.
pub record VerificationJob : Type 0 where
  pub user_id : Text
  pub name : String
  pub email : Text
  pub token : Text
  pub locale : String

-- IQueueProducer: the job's type, its data and its id; the id of the job that was added.
pub record QueueProducer (Q : Type 0) : Type 0 where
  pub add_job : String → VerificationJob → Text → Exec Q (Option Text)

-- IConfig, as far as the services read it.
pub record Config : Type 0 where
  pub verify_email_prefix : Text
  pub verify_email_rate_limit_prefix : Text
  pub verification_token_expires_in : ℕ

pub record World (C D Q : Type 0) : Type 0 where
  pub cache : C
  pub db : D
  pub queue : Q

module _ {C D Q A : Type 0} where
  abbrev pub on_cache : Exec C A → Exec (World C D Q) A
  on_cache = embed (λ w. w.cache) (λ c w. record w { cache = c })

  abbrev pub on_db : Exec D A → Exec (World C D Q) A
  on_db = embed (λ w. w.db) (λ d w. record w { db = d })

  abbrev pub on_queue : Exec Q A → Exec (World C D Q) A
  on_queue = embed (λ w. w.queue) (λ q w. record w { queue = q })

-- What the services need from the host's JSON and crypto modules. A parsed value is looked at for
-- its fields userId and type; the text that is made has the type "verification" each time.
pub record TokenData : Type 0 where
  pub user_id : Text
  pub email : Text

pub record Parsed : Type 0 where
  pub user_id : Option Text
  pub type_name : Option String

pub record Host : Type 0 where
  -- createHash("sha256").update(token).digest("hex")
  pub hash : Text → Text
  pub stringify : TokenData → Text
  -- none: JSON.parse throws; some none: it gives null, of which no field can be read
  pub parse : Text → Option (Option Parsed)

-- JSON.parse gives back the fields of what JSON.stringify was given, and a digest is not empty.
pub record HostLaws (host : Host) : Type 0 where
  pub parse-stringify :
      (d : TokenData)
      → host.parse (host.stringify d)
        ≡ some (some (record { user_id = some d.user_id; type_name = some "verification" }))
  pub hash-ne-nil : (t : Text) → (c : ℕ) × (s : Text) × (host.hash t ≡ c ∷ s)

-- The dependencies that packages/core/src/container.ts injects into the services.
pub record Services (C D Q : Type 0) : Type 0 where
  pub cache : CacheService C
  pub users : UserModel D
  pub email_producer : QueueProducer Q
  pub config : Config
  pub host : Host
