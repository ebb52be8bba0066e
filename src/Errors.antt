-- ===== src/Errors.antt =====
-- The error classes of packages/utils/src/errors, and what the libraries throw: mongoose's
-- ValidationError and duplicate key error, and the error of an open circuit breaker. Time stamps
-- and stacks are left out.
use mern_auth.Prelude.{ℕ, String, Bool, true, false, Option, none, some, List, []}

-- ValidationErrorDetail; of its context only `count` is ever read.
pub record ErrorDetail : Type 0 where
  pub field : String
  pub message : String
  pub count : Option ℕ

-- One error of mongoose's ValidationError, with the context fields that the conversion reads.
pub record PathError : Type 0 where
  pub path : String
  pub message : String
  pub minlength : Option ℕ
  pub maxlength : Option ℕ
  pub count : Option ℕ

pub data Error : Type 0 where
  http_error : ℕ → String → Error
  validation_error : List ErrorDetail → String → Error
  too_many_requests : ℕ → Error
  conflict_error : String → List ErrorDetail → Error
  not_found : String → Error
  service_unavailable : String → Error
  circuit_breaker_error : String → Error
  token_creation_error : String → Error → Error
  email_dispatch_error : String → Error → Error
  configuration_error : String → Error
  database_connection_error : String → Error
  queue_error : String → String → Error
  unknown_job_type : String → String → Error
  invalid_job_data : String → List ErrorDetail → Error
  mongoose_validation : List PathError → Error
  duplicate_key : List String → Error
  open_breaker : Error
  plain : String → Error

-- The field statusCode, which only an HttpError has.
unfoldable pub status_code : Error → Option ℕ
status_code (http_error status m) = some status
status_code (validation_error ds m) = some 422
status_code (too_many_requests n) = some 429
status_code (conflict_error m ds) = some 409
status_code (not_found m) = some 404
status_code (service_unavailable m) = some 503
status_code (circuit_breaker_error m) = some 503
status_code _ = none

-- instanceof HttpError
unfoldable pub is_http_error : Error → Bool
is_http_error (http_error status m) = true
is_http_error (validation_error ds m) = true
is_http_error (too_many_requests n) = true
is_http_error (conflict_error m ds) = true
is_http_error (not_found m) = true
is_http_error (service_unavailable m) = true
is_http_error (circuit_breaker_error m) = true
is_http_error _ = false

-- instanceof BaseError: everything but what the libraries and `new Error` make.
unfoldable pub is_base_error : Error → Bool
is_base_error (mongoose_validation ds) = false
is_base_error (duplicate_key keys) = false
is_base_error open_breaker = false
is_base_error (plain m) = false
is_base_error _ = true

unfoldable pub message : Error → String
message (http_error status m) = m
message (validation_error ds m) = m
message (too_many_requests n) = "system:process.errors.tooManyRequests"
message (conflict_error m ds) = m
message (not_found m) = m
message (service_unavailable m) = m
message (circuit_breaker_error m) = m
message (token_creation_error m cause) = m
message (email_dispatch_error m cause) = m
message (configuration_error m) = m
message (database_connection_error m) = m
message (queue_error name m) = m
message (unknown_job_type job_type m) = m
message (invalid_job_data m ds) = m
message (mongoose_validation ds) = "Validation failed"
message (duplicate_key keys) = "E11000 duplicate key error"
message open_breaker = "Breaker is open"
message (plain m) = m

-- The array of field errors: that of an HttpError (empty by default) and of an InvalidJobDataError.
unfoldable pub errors : Error → List ErrorDetail
errors (validation_error ds m) = ds
errors (conflict_error m ds) = ds
errors (invalid_job_data m ds) = ds
errors _ = []

-- A pure function that may throw.
pub data Result (A : Type 0) : Type 0 where
  ok : A → Result A
  err : Error → Result A
