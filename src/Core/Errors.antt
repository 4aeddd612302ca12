-- ===== src/Core/Errors.antt =====
-- internal/core/errors: the error codes, `AppError` and the HTTP status of each code. The values of
-- `Details` are kept as texts.
pub mod Responses
use cyandie_backend.Common.{
  ℕ, String, Bool, false, List, [], ◌∷◌, if◌then◌else◌, str_eq, any, ◌≡◌, refl, ◌⊎◌, inl, inr,
}

-- codes.go
abbrev pub err_internal : String
err_internal = "INTERNAL_ERROR"

abbrev pub err_bad_request : String
err_bad_request = "BAD_REQUEST"

abbrev pub err_unauthorized : String
err_unauthorized = "UNAUTHORIZED"

abbrev pub err_forbidden : String
err_forbidden = "FORBIDDEN"

abbrev pub err_not_found : String
err_not_found = "NOT_FOUND"

abbrev pub err_conflict : String
err_conflict = "CONFLICT"

abbrev pub err_rate_limited : String
err_rate_limited = "RATE_LIMITED"

abbrev pub err_timeout : String
err_timeout = "TIMEOUT"

abbrev pub err_not_implemented : String
err_not_implemented = "NOT_IMPLEMENTED"

abbrev pub err_invalid_credentials : String
err_invalid_credentials = "INVALID_CREDENTIALS"

abbrev pub err_token_expired : String
err_token_expired = "TOKEN_EXPIRED"

abbrev pub err_token_invalid : String
err_token_invalid = "TOKEN_INVALID"

abbrev pub err_session_revoked : String
err_session_revoked = "SESSION_REVOKED"

abbrev pub err_otp_invalid : String
err_otp_invalid = "OTP_INVALID"

abbrev pub err_otp_expired : String
err_otp_expired = "OTP_EXPIRED"

abbrev pub err_user_exists : String
err_user_exists = "USER_EXISTS"

abbrev pub err_user_banned : String
err_user_banned = "USER_BANNED"

abbrev pub err_platform_not_supported : String
err_platform_not_supported = "PLATFORM_NOT_SUPPORTED"

abbrev pub err_platform_auth_failed : String
err_platform_auth_failed = "PLATFORM_AUTH_FAILED"

abbrev pub err_platform_binding_exists : String
err_platform_binding_exists = "PLATFORM_BINDING_EXISTS"

abbrev pub err_platform_not_bound : String
err_platform_not_bound = "PLATFORM_NOT_BOUND"

abbrev pub err_last_credential : String
err_last_credential = "LAST_CREDENTIAL"

pub record AppError : Type 0 where
  pub code : String
  pub message : String
  pub details : List (String × String)
  pub request_id : String

-- `New`
abbrev pub new : String → String → AppError
new code message = record { code = code; message = message; details = []; request_id = "" }

-- An `error` of Go: an `AppError`, the error of a query passed on as it is, or one of `fmt.Errorf`,
-- by its text up to what it wraps.
pub data GoError : Type 0 where
  app : AppError → GoError
  database : GoError
  plain : String → GoError

-- What a call returns: a value and a nil error, an error, or no return at all after a panic.
pub data Result {ℓ} (A : Type ℓ) : Type ℓ where
  ok : A → Result A
  err : GoError → Result A
  panicked : Result A

pub Result-cases {ℓ} :
    {A : Type ℓ} (r : Result A)
    → ((a : A) × (r ≡ ok a)) ⊎ (((e : GoError) × (r ≡ err e)) ⊎ (r ≡ panicked))
Result-cases (ok a) = inl (a, refl)
Result-cases (err e) = inr (inl (e, refl))
Result-cases panicked = inr (inr refl)

-- `errors.New(code, message)` as the error of a call.
abbrev pub fail {ℓ} : {A : Type ℓ} → String → String → Result A
fail code message = err (app (new code message))

abbrev pub is_one_of : String → List String → Bool
is_one_of code = any (str_eq code)

-- `HTTPStatus`, a switch whose cases are tried in order.
pub http_status : String → ℕ
http_status code =
    if is_one_of code
      (err_bad_request ∷ err_invalid_credentials ∷ err_otp_invalid ∷ err_otp_expired ∷ [])
    then 400
    else if is_one_of code
        (err_unauthorized ∷ err_token_expired ∷ err_token_invalid ∷ err_session_revoked ∷ [])
    then 401
    else if is_one_of code (err_forbidden ∷ err_user_banned ∷ [])
    then 403
    else if is_one_of code (err_not_found ∷ err_platform_not_supported ∷ [])
    then 404
    else if is_one_of code (err_conflict ∷ err_user_exists ∷ err_platform_binding_exists ∷ [])
    then 409
    else if str_eq code err_timeout
    then 503
    else if str_eq code err_rate_limited
    then 429
    else if str_eq code err_platform_not_bound
    then 404
    else if str_eq code err_last_credential
    then 409
    else 500

-- `WithDetail`: a key that is there is overwritten.
set_detail : String → String → List (String × String) → List (String × String)
set_detail k v [] = (k, v) ∷ []
set_detail k v ((j, w) ∷ m) = if str_eq j k then (k, v) ∷ m else (j, w) ∷ set_detail k v m

pub with_detail : AppError → String → String → AppError
unfolding set_detail
with_detail e key value = record e { details = set_detail key value e.details }

pub with_request_id : AppError → String → AppError
with_request_id e id = record e { request_id = id }

-- What `WriteHTTP` hands to the response writer; `Error` is the body's `error` member.
pub record HttpError : Type 0 where
  pub content_type : String
  pub status : ℕ
  pub is_ok : Bool
  pub error : AppError

pub write_http : AppError → HttpError
unfolding http_status
write_http e = record {
  content_type = "application/json";
  status = http_status e.code;
  is_ok = false;
  error = e;
}

-- `writeAppError` of the handlers: another error is shown as an internal one.
pub write_app_error : String → GoError → HttpError
unfolding write_http with_request_id
write_app_error request_id (app e) = write_http (with_request_id e request_id)
write_app_error request_id database = write_http (new err_internal "internal error")
write_app_error request_id (plain text) = write_http (new err_internal "internal error")
