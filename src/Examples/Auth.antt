-- ===== src/Examples/Auth.antt =====
-- Registrations and verifications in memory.
use mern_auth.Cache.Proxy.{}
use mern_auth.Cache.{Reply, Command}
use mern_auth.Cache.Adapter.{adapter-IsStore}
use mern_auth.Auth.Verification.Laws.{key_of}
use mern_auth.Auth.Users.{IsUserStore}
use mern_auth.Prelude.{none, false, ◌++◌, ◌≡◌, ◌≢◌, refl, some, [], ◌∷◌, List, true, arith}
use mern_auth.Text.{trim, text_eq, to_lower_case, Text, codes}
use mern_auth.Errors.{Error, open_breaker, too_many_requests, service_unavailable, not_found}
use mern_auth.Exec.{Exec, returned, raised}
use mern_auth.Cache.Memory.{memory, lookup, memory-RedisLaws, Entries}
use mern_auth.Auth.{User, Services, World, VerificationJob}
use mern_auth.Auth.Memory.{
  until_zero, find_user, is_taken, all_ids, make_user, Users, memory_users,
  memory_users-IsUserStore, closed_queue, memory_host-HostLaws,
}
use mern_auth.Auth.Registration.{job_id, verification_job, user_data, register, to_json}
use mern_auth.Auth.Registration.Failures.{
  register_unqueued_locks_out, register_then_limited, IsFree,
}
use mern_auth.Auth.Registration.Stages.{in_use, job_call}
use mern_auth.Auth.Registration.Laws.{data_of, Request, new_user}
use mern_auth.Auth.Verification.Once.{verify_once}
use mern_auth.Auth.Degraded.{register_down, degraded, over_cache}
use mern_auth.Auth.Verification.Laws.{Names, HasKeys, verify_returned}
use mern_auth.Auth.Verification.{verify, verified}
use mern_auth.Auth.Flow.{register_then_verify}
use mern_auth.Api.ErrorHandler.{error_handler}
use mern_auth.Api.Answers.{register-error_handler, taken_answer}
use mern_auth.Examples.Setting.{
  ann-has_key, ann-normalizes, services, services_with, cached, nothing, ann, fresh, request,
  request_with, ann_user, ann_job, outage,
}

abbrev kept : IsUserStore memory_users
kept = memory_users-IsUserStore

ann-IsFree : IsFree services cached kept ann request nothing
unfolding adapter-IsStore memory-RedisLaws memory_users-IsUserStore lookup is_taken user_data
ann-IsFree = record { unlimited = refl; valid = refl; free = refl }

closed-IsFree :
    IsFree
      (services_with (closed_queue outage))
      cached
      kept
      ann
      (request_with (closed_queue outage))
      nothing
unfolding adapter-IsStore memory-RedisLaws memory_users-IsUserStore lookup is_taken user_data
closed-IsFree = record { unlimited = refl; valid = refl; free = refl }

ann-made : new_user services cached kept fresh ann nothing request ≡ ann_user
unfolding memory_users-IsUserStore user_data make_user all_ids
ann-made = refl

abbrev new_id : Text
new_id = 0 ∷ []

keys_apart : request.key ≢ key_of services cached kept fresh
keys_apart = ground arith

ann_queued :
    job_call services ann
      (new_user services cached kept fresh ann nothing request)
      fresh
      nothing.queue
    ≡ returned (some (codes "verify-email-" ++ new_id)) (ann_job ∷ [])
unfolding memory_users-IsUserStore user_data make_user all_ids verification_job job_id
ann_queued = refl

register_then_verify_example :
    (w₁ : World Entries Users (List VerificationJob)) × (w₂ : World Entries Users
      (List VerificationJob))
    × (register services fresh ann nothing
        ≡ returned (to_json (new_user services cached kept fresh ann nothing request)) w₁)
    × (verify services fresh w₁ ≡ returned verified w₂)
    × (kept.find w₂.db (new_user services cached kept fresh ann nothing request).id
        ≡ some (record (new_user services cached kept fresh ann nothing request) {
          is_verified = true;
        }))
    × (verify services fresh w₂ ≡ raised (not_found "auth:verify.invalidToken") w₂)
register_then_verify_example =
    register_then_verify services cached kept memory_host-HostLaws fresh ann nothing request
      ann-IsFree (some (codes "verify-email-" ++ new_id)) (ann_job ∷ []) refl keys_apart ann_queued

register_then_limited_example :
    (w' : World Entries Users (List VerificationJob)) × (register services fresh ann nothing
      ≡ returned (to_json (new_user services cached kept fresh ann nothing request)) w')
    × (kept.find w'.db (new_user services cached kept fresh ann nothing request).id
        ≡ some (new_user services cached kept fresh ann nothing request))
    × ((new_user services cached kept fresh ann nothing request).is_verified ≡ false)
    × (w'.queue ≡ ann_job ∷ [])
    × (register services (codes "beef") ann w' ≡ raised (too_many_requests 180) w')
register_then_limited_example =
    register_then_limited services cached kept fresh ann nothing request ann-IsFree
      (some (codes "verify-email-" ++ new_id)) (ann_job ∷ []) (codes "beef") ann_queued

abbrev closed : Services Entries Users (List VerificationJob)
closed = services_with (closed_queue outage)

abbrev closed_request : Request closed ann
closed_request = request_with (closed_queue outage)

ann-canonical : to_lower_case (trim closed_request.normalized) ≡ closed_request.normalized
unfolding to_lower_case trim
ann-canonical = refl

closed_keys_apart : closed_request.key ≢ key_of closed cached kept fresh
closed_keys_apart = ground arith

register_unqueued_locks_out_example :
    (w' : World Entries Users (List VerificationJob)) × (register closed fresh ann nothing
      ≡ raised (service_unavailable "auth:errors.addEmailJobFailed") w')
    × (kept.find w'.db (new_user closed cached kept fresh ann nothing closed_request).id
        ≡ some (new_user closed cached kept fresh ann nothing closed_request))
    × (register closed (codes "beef") ann w' ≡ raised in_use w')
register_unqueued_locks_out_example =
    register_unqueued_locks_out closed cached kept fresh ann nothing closed_request closed-IsFree
      outage [] (codes "beef") ann-canonical closed_keys_apart refl

-- A token that names Ann, whose address is not verified.
abbrev waiting : World Entries Users (List VerificationJob)
waiting = record {
  cache = (codes "verify:" ++ 1 ∷ fresh, 1 ∷ 0 ∷ codes " Ann.Lee@Gmail.com") ∷ [];
  db = ann_user ∷ [];
  queue = [];
}

abbrev fresh_keys : HasKeys services cached kept fresh
fresh_keys = record { prefixed = refl; hashed = refl }

fresh-Names : Names services cached kept fresh waiting ann_user
unfolding adapter-IsStore memory-RedisLaws memory_users-IsUserStore lookup find_user text_eq
    until_zero
fresh-Names = record {
  json = 1 ∷ 0 ∷ codes " Ann.Lee@Gmail.com";
  parsed = record { user_id = some (0 ∷ []); type_name = some "verification" };
  kept_text = refl;
  readable = refl;
  names = refl;
  exists = refl;
}

-- What one verification of the token comes to, for a user with another id.
once :
    (w' : World Entries Users (List VerificationJob)) × (verify services fresh waiting
      ≡ returned verified w')
    × (kept.find w'.db ann_user.id ≡ some (record ann_user { is_verified = true }))
    × (kept.find w'.db (new_id ++ new_id) ≡ kept.find waiting.db (new_id ++ new_id))
    × (w'.queue ≡ waiting.queue)
    × (verify services fresh w' ≡ raised (not_found "auth:verify.invalidToken") w')
once =
    verify_once services cached kept fresh waiting ann_user (new_id ++ new_id) fresh_keys
      fresh-Names refl (λ e. ground arith)

verify_once_example :
    (w' : World Entries Users (List VerificationJob)) × (verify services fresh waiting
      ≡ returned verified w')
    × (kept.find w'.db ann_user.id ≡ some (record ann_user { is_verified = true }))
    × (kept.find w'.db (new_id ++ new_id) ≡ kept.find waiting.db (new_id ++ new_id))
    × (w'.queue ≡ waiting.queue)
    × (verify services fresh w' ≡ raised (not_found "auth:verify.invalidToken") w')
verify_once_example =
    verify_once services cached kept fresh waiting ann_user (new_id ++ new_id) fresh_keys
      fresh-Names refl (λ e. ground arith)

verify_returned_example : (user : User) × Names services cached kept fresh waiting user
verify_returned_example =
    verify_returned services cached kept fresh waiting once.0 verified fresh_keys once.1

-- The breaker of Redis is open.
abbrev refusing : Command → Exec Entries Reply
refusing command s = raised open_breaker s

abbrev down_services : Services Entries Users (List VerificationJob)
down_services =
    degraded memory refusing (λ s. s) open_breaker (λ command s. refl) cached.read (λ s k. refl)
      services kept

abbrev degraded_request : Request down_services ann
degraded_request = record {
  normalized = codes "annlee@gmail.com";
  key = codes "limit:annlee@gmail.com";
  normalizes = ann-normalizes;
  has_key = ann-has_key;
}

degraded_valid : kept.valid (user_data degraded_request.normalized ann) ≡ true
unfolding memory_users-IsUserStore
degraded_valid = refl

degraded_free : kept.taken nothing.db degraded_request.normalized ≡ false
unfolding memory_users-IsUserStore is_taken
degraded_free = refl

degraded_queued :
    job_call down_services ann
      (kept.made (user_data degraded_request.normalized ann) nothing.db)
      fresh
      nothing.queue
    ≡ returned (some (codes "verify-email-" ++ new_id)) (ann_job ∷ [])
unfolding memory_users-IsUserStore user_data make_user all_ids verification_job job_id
degraded_queued = refl

never_stored :
    cached.read nothing.cache (services.config.verify_email_prefix ++ services.host.hash fresh)
    ≡ none
unfolding adapter-IsStore memory-RedisLaws lookup
never_stored = refl

register_down_example :
    (w' : World Entries Users (List VerificationJob)) × (w'' : World Entries Users
      (List VerificationJob))
    × (register down_services fresh ann nothing
        ≡ returned (to_json (kept.made (user_data degraded_request.normalized ann) nothing.db)) w')
    × (w'.db ≡ kept.insert (user_data degraded_request.normalized ann) nothing.db)
    × (w'.queue ≡ ann_job ∷ [])
    × ((k : Text) → cached.read w'.cache k ≡ cached.read nothing.cache k)
    × (verify down_services fresh w' ≡ raised (not_found "auth:verify.invalidToken") w'')
    × (verify (over_cache services services.cache) fresh w'
        ≡ raised (not_found "auth:verify.invalidToken") w')
register_down_example =
    register_down memory refusing (λ s. s) open_breaker (λ command s. refl) cached.read
      (λ s k. refl) services kept fresh ann nothing degraded_request
      (some (codes "verify-email-" ++ new_id)) (ann_job ∷ []) services.cache refl refl
      degraded_valid degraded_free degraded_queued never_stored cached.get_lem

-- The collection has Ann already.
abbrev crowded : World Entries Users (List VerificationJob)
crowded = record { cache = []; db = ann_user ∷ []; queue = [] }

crowded_unlimited : cached.read crowded.cache request.key ≡ none
unfolding adapter-IsStore memory-RedisLaws lookup
crowded_unlimited = refl

crowded_valid : kept.valid (data_of services cached kept fresh ann crowded request) ≡ true
unfolding memory_users-IsUserStore
crowded_valid = refl

crowded_taken : kept.taken crowded.db request.normalized ≡ true
unfolding memory_users-IsUserStore is_taken text_eq
crowded_taken = refl

register-error_handler_example :
    (e : Error) × (register services fresh ann crowded ≡ raised e crowded)
    × (error_handler (λ key count. key) false e
        ≡ taken_answer services cached kept (λ key count. key))
register-error_handler_example =
    register-error_handler services cached kept (λ key count. key) fresh ann crowded request
      crowded_unlimited crowded_valid crowded_taken
