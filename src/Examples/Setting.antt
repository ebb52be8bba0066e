-- ===== src/Examples/Setting.antt =====
-- A server, a collection and a queue in memory, and a registration with them.
use mern_auth.Prelude.{◌≡◌, ◌∷◌, refl, [], List, false}
use mern_auth.Text.{Text, codes, text_eq, trim, to_lower_case, last_index_of, remove_all}
use mern_auth.Errors.{Error, ok, queue_error}
use mern_auth.Cache.Memory.{Entries, memory, memory-RedisLaws}
use mern_auth.Cache.Adapter.{redis_cache_adapter, adapter-IsStore}
use mern_auth.Cache.{IsStore}
use mern_auth.Email.Address.{normalize_email, ignores_dots}
use mern_auth.Auth.{User, Config, Services, World, VerificationJob, QueueProducer}
use mern_auth.Auth.Keys.{create_auth_rate_limit_key}
use mern_auth.Auth.Memory.{Users, memory_users, memory_queue, memory_host}
use mern_auth.Auth.Registration.{RegistrationDto}
use mern_auth.Auth.Registration.Laws.{Request}

abbrev pub config : Config
config = record {
  verify_email_prefix = codes "verify:";
  verify_email_rate_limit_prefix = codes "limit:";
  verification_token_expires_in = 3600;
}

abbrev pub services_with :
    QueueProducer (List VerificationJob) → Services Entries Users (List VerificationJob)
services_with producer = record {
  cache = redis_cache_adapter memory;
  users = memory_users;
  email_producer = producer;
  config = config;
  host = memory_host;
}

abbrev pub services : Services Entries Users (List VerificationJob)
services = services_with memory_queue

abbrev pub cached : IsStore services.cache
cached = adapter-IsStore memory memory-RedisLaws

abbrev pub nothing : World Entries Users (List VerificationJob)
nothing = record { cache = []; db = []; queue = [] }

abbrev pub ann : RegistrationDto
ann = record {
  name = "Ann";
  email = codes " Ann.Lee@Gmail.com";
  password = "secret";
  locale = "en";
}

abbrev pub fresh : Text
fresh = codes "f00d"

pub ann-normalizes : normalize_email ann.email ≡ ok (codes "annlee@gmail.com")
unfolding normalize_email last_index_of to_lower_case trim ignores_dots text_eq remove_all
ann-normalizes = refl

pub ann-has_key :
    create_auth_rate_limit_key config.verify_email_rate_limit_prefix (codes "annlee@gmail.com")
    ≡ ok (codes "limit:annlee@gmail.com")
unfolding create_auth_rate_limit_key
ann-has_key = refl

abbrev pub request_with :
    (producer : QueueProducer (List VerificationJob)) → Request (services_with producer) ann
request_with producer = record {
  normalized = codes "annlee@gmail.com";
  key = codes "limit:annlee@gmail.com";
  normalizes = ann-normalizes;
  has_key = ann-has_key;
}

abbrev pub request : Request services ann
request = request_with memory_queue

-- The user that the registration makes, and the one with his mark set.
abbrev pub ann_user : User
ann_user = record {
  id = 0 ∷ [];
  name = "Ann";
  email = codes " Ann.Lee@Gmail.com";
  normalized_email = codes "annlee@gmail.com";
  password = "secret";
  is_verified = false;
}

abbrev pub ann_job : VerificationJob
ann_job = record {
  user_id = 0 ∷ [];
  name = "Ann";
  email = codes " Ann.Lee@Gmail.com";
  token = fresh;
  locale = "en";
}

abbrev pub outage : Error
outage = queue_error "emailQueue" "Connection is closed."
