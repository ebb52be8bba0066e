-- ===== src/Api/ErrorHandler.antt =====
-- apps/api/src/middleware/core/errorHandler.ts: what the client is told of an error. The request's
-- translation function is a parameter; what is written to the log is left out but for its severity
-- and whether Sentry gets the error.
use mern_auth.Prelude.{
  ℕ, ◌≡◌, refl, Bool, true, false, not, ◌&&◌, Option, none, some, List, [], ◌∷◌, String, map, leb,
  if◌then◌else◌, any, ◌==◌,
}
use mern_auth.Text.{codes}
use mern_auth.Errors.{
  Error, ErrorDetail, PathError, http_error, validation_error, conflict_error, mongoose_validation,
  duplicate_key, status_code, is_http_error, is_base_error, message, errors, too_many_requests,
  not_found, service_unavailable, circuit_breaker_error, token_creation_error, email_dispatch_error,
  configuration_error, database_connection_error, queue_error, unknown_job_type, invalid_job_data,
  open_breaker, plain,
}

abbrev later : Option ℕ → Option ℕ → Option ℕ
later a none = a
later a (some n) = some n

-- The count of a context, which minlength and then maxlength overwrite.
unfoldable pub path_detail : PathError → ErrorDetail
path_detail e = record {
  field = e.path;
  message = e.message;
  count = later (later e.count e.minlength) e.maxlength;
}

abbrev first_key : List String → String
first_key [] = "unknown"
first_key (k ∷ ks) = k

unfoldable pub duplicate_detail : List String → ErrorDetail
duplicate_detail keys = record {
  field = first_key keys;
  message = "validation:duplicateValue";
  count = none;
}

unfoldable pub convert_external_error : Error → Option Error
unfolding path_detail duplicate_detail
convert_external_error (validation_error ds m) = some (validation_error ds m)
convert_external_error (mongoose_validation es) =
    some (validation_error (map path_detail es) "validation:failed")
convert_external_error (duplicate_key keys) =
    some (conflict_error "auth:errors.duplicateKey" (duplicate_detail keys ∷ []))
convert_external_error e = none

-- name === "ValidationError" with both errors and a statusCode
abbrev pub is_validation : Error → Bool
is_validation (validation_error ds m) = true
is_validation e = false

abbrev or_unexpected : Option Error → Error
or_unexpected none = http_error 500 "system:process.errors.unexpected"
or_unexpected (some e) = e

-- The error that the client is told of.
unfoldable pub api_error : Error → Error
unfolding convert_external_error is_http_error is_base_error
api_error e =
    if is_validation e
    then e
    else if not (is_http_error e) && not (is_base_error e)
    then or_unexpected (convert_external_error e)
    else e

-- statusCode >= 500, which undefined is not
abbrev at_least_500 : Option ℕ → Bool
at_least_500 none = false
at_least_500 (some status) = leb 500 status

unfoldable pub is_server_error : Error → Bool
unfolding status_code
is_server_error e = at_least_500 (status_code e)

pub data Severity : Type 0 where
  error warn : Severity

pub record FieldMessage : Type 0 where
  pub field : String
  pub message : String

pub record Response : Type 0 where
  pub status : Option ℕ
  pub message : String
  pub errors : List FieldMessage

-- What is logged, whether Sentry gets the error, and what is sent.
pub record Handled : Type 0 where
  pub severity : Severity
  pub captured : Bool
  pub response : Option Response

-- errors[0]?.context?.count
abbrev first_count : List ErrorDetail → Option ℕ
first_count [] = none
first_count (d ∷ ds) = d.count

-- A message with a ':' is a key. No error of the program has an `issue` field.
unfoldable pub field_message : (String → Option ℕ → String) → ErrorDetail → FieldMessage
field_message t d = record {
  field = d.field;
  message = if any (λ c. c == 58) (codes d.message) then t d.message d.count else d.message;
}

unfoldable pub response : (String → Option ℕ → String) → Error → Response
unfolding field_message status_code message errors
response t e = record {
  status = status_code e;
  message = t (message e) (first_count (errors e));
  errors = map (field_message t) (errors e);
}

-- `headers_sent`: res.headersSent
unfoldable pub error_handler : (String → Option ℕ → String) → Bool → Error → Handled
unfolding api_error is_server_error response
error_handler t headers_sent e = record {
  severity = if is_server_error (api_error e) then error else warn;
  captured = is_server_error (api_error e);
  response = if headers_sent then none else some (response t (api_error e));
}

abbrev pub is_none {ℓ} : {A : Type ℓ} → Option A → Bool
is_none none = true
is_none (some a) = false

-- The error that the client is told of lacks a status exactly if the thrown error is a BaseError
-- that is not an HttpError.
pub api_error-status_code :
    (e : Error) → is_none (status_code (api_error e)) ≡ (is_base_error e && not (is_http_error e))
unfolding api_error convert_external_error status_code is_base_error is_http_error
api_error-status_code (http_error status m) = refl
api_error-status_code (validation_error ds m) = refl
api_error-status_code (too_many_requests n) = refl
api_error-status_code (conflict_error m ds) = refl
api_error-status_code (not_found m) = refl
api_error-status_code (service_unavailable m) = refl
api_error-status_code (circuit_breaker_error m) = refl
api_error-status_code (token_creation_error m e) = refl
api_error-status_code (email_dispatch_error m e) = refl
api_error-status_code (configuration_error m) = refl
api_error-status_code (database_connection_error m) = refl
api_error-status_code (queue_error n m) = refl
api_error-status_code (unknown_job_type t m) = refl
api_error-status_code (invalid_job_data m ds) = refl
api_error-status_code (mongoose_validation es) = refl
api_error-status_code (duplicate_key keys) = refl
api_error-status_code open_breaker = refl
api_error-status_code (plain m) = refl
